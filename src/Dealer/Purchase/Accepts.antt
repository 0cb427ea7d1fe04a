-- ===== src/Dealer/Purchase/Accepts.antt =====
-- When a purchase goes through, and what it sends.
use snip721_migratable.Base.{
  ◌≡◌, ◌≢◌, inl, inr, refl, ap, Bool-cases, ◌↔◌, [], ◌∷◌, length, arith, ◌!=◌, Option-cases, none,
  some,
}
use snip721_migratable.Exec.{Outcome, StdError, ok, err}
use snip721_migratable.Cosmwasm.{Coin, MessageInfo, SubMsg, CosmosMsg, BankMsg, WasmMsg, never}
use snip721_migratable.Snip721.{Snip721ExecuteMsg}
use snip721_migratable.Dealer.Msg.{DealerState}
use snip721_migratable.Dealer.State
use snip721_migratable.Dealer.State.View.{view, load_rules}
use snip721_migratable.Dealer.State.Represents.{Represents}
use snip721_migratable.Dealer.Purchase.{purchase_and_mint, selected_coin_price}
use snip721_migratable.Dealer.Purchase.Terms.{
  FirstPrice, select-FirstPrice, select_first, select-IsUnpriced,
}
use snip721_migratable.Dealer.Purchase.Refuses.{
  purchase_demands, FirstPrice-of_eq, !=_self, one_coin, Refusal, refused_count, refused_denom,
  refused_amount, count, denom, amount,
}
use snip721_migratable.Platform.{Platform}
use snip721_migratable.Platform.Laws.{Laws, Sends, messages-response}

module _ (p : Platform) where
  open p use {types, Storage, Binary, Response, snip721_execute_json}

  -- A purchase writes nothing, whatever is stored and however it ends.
  pub purchase_reads_only : (info : MessageInfo) (s : Storage) → (purchase_and_mint p info s).1 ≡ s
  unfolding purchase_and_mint
  purchase_reads_only info s = ground arith

  module _ (laws : Laws p) (info : MessageInfo) (s : Storage) (d : DealerState types)
      (rep : Represents p s d) where
    prices_here : (State.purchase_prices p).load s ≡ ok d.prices
    prices_here = simp load_rules rep.prices

    -- The two messages of a purchase: the funds go to the admin, and the child is told, in `bytes`,
    -- to mint.
    abbrev pub payout : Coin → SubMsg Binary
    payout c = record {
      id = 0;
      msg = CosmosMsg.bank (BankMsg.send d.admin (c ∷ []));
      reply_on = never;
    }

    abbrev pub mint : Binary → SubMsg Binary
    mint bytes = record {
      id = 0;
      msg =
          CosmosMsg.wasm
            (WasmMsg.execute d.child_snip721_address d.child_snip721_code_hash bytes []);
      reply_on = never;
    }

    -- What the child is told: one token for the buyer, with the metadata of the terms.
    abbrev pub minting : Snip721ExecuteMsg types
    minting = Snip721ExecuteMsg.mint_nft (record {
      token_id = none;
      owner = some info.sender;
      public_metadata = d.public_metadata;
      private_metadata = d.private_metadata;
      serial_number = none;
      royalty_info = none;
      transferable = none;
      memo = none;
      padding = none;
    })

    paid_eq :
        (c : Coin) (bytes : Binary)
        → info.funds ≡ c ∷ []
        → FirstPrice d.prices c
        → snip721_execute_json.encode minting ≡ ok bytes
        → purchase_and_mint p info s ≡ (
          ok (
              p.add_submessages p.response_new (
                p.sub_msg_new (CosmosMsg.bank (BankMsg.send d.admin (c ∷ [])))
                ∷ p.sub_msg_new (
                    CosmosMsg.wasm
                      (WasmMsg.execute d.child_snip721_address d.child_snip721_code_hash bytes []))
                ∷ [])),
          s,
        )
    unfolding purchase_and_mint view
    paid_eq c bytes hf hp hb = simp (
      hf,
      rep.prices,
      select_first d.prices c c refl hp,
      !=_self,
      rep.admin,
      rep.address,
      rep.code_hash,
      rep.metadata,
      rep.admin_form.humanized,
      rep.child_form.humanized,
      hb,
    )

    -- Under the laws of the libraries, a purchase at a running dealer with the first listed price
    -- of a denom as its only funds sends two messages, for which no reply is asked: all the funds
    -- go to the admin, and the child is called, at its stored address and code hash, with bytes
    -- that are read as a mint for the buyer with the stored metadata.
    pub purchase_accepted :
        (c : Coin)
        → info.funds ≡ c ∷ []
        → FirstPrice d.prices c
        → (bytes : Binary) × (snip721_execute_json.decode bytes ≡ ok minting)
          × Sends p (purchase_and_mint p info s).0 (payout c ∷ mint bytes ∷ [])
    purchase_accepted c hf hp =
        let (bytes, he, hd) = laws.message.snip721_execute_faithful.round_trip minting in
        (
          bytes,
          hd,
          rw (paid_eq c bytes hf hp he)
              (_, refl, simp (messages-response, laws.response.sub_msg_new_lem, laws)),
        )

    -- Under the laws of the libraries, a purchase at a running dealer goes through exactly when
    -- one coin is sent and the coin is the first listed price of its denom.
    pub purchase_iff :
        ((r : Response) × ((purchase_and_mint p info s).0 ≡ ok r))
        ↔ ((c : Coin) × (info.funds ≡ c ∷ []) × FirstPrice d.prices c)
    purchase_iff = (
      λ (r, h). purchase_demands p info s d.prices rep.prices h,
      λ (c, hf, hp). let (bytes, hd, sends) = purchase_accepted c hf hp in (sends.0, sends.1),
    )

    Refusal-of_one :
        {e : StdError} (c : Coin)
        → info.funds ≡ c ∷ []
        → (purchase_and_mint p info s).0 ≡ err e
        → Refusal p d.prices info.funds e
    Refusal-of_one c hf h = elim (Option-cases (selected_coin_price d.prices c)) [
      | inl unpriced ↦
          let hu = select-IsUnpriced d.prices c unpriced in
          denom c hf hu (
            cc (
              h,
              ap (λ (r : Outcome Response × Storage). r.0)
                  (refused_denom p info s d.prices rep.prices c hf hu),
            ))
      | inr (price, e) ↦
          let (hd, first) = select-FirstPrice d.prices c price e in
          elim (Bool-cases (c.amount != price.amount)) [
            | inl differs ↦
                let ne : c.amount ≢ price.amount = λ e. ground arith in
                amount c price hf first hd ne
                  (cc (h, refused_amount p info s d.prices rep.prices c price hf first hd ne))
            | inr same ↦
                let (_, _, sends) =
                  purchase_accepted c hf (FirstPrice-of_eq d.prices hd (ground arith) first) in
                absurd (cc (h, sends.1))
          ]
    ]

    Refusal-of_err :
        {e : StdError} → (purchase_and_mint p info s).0 ≡ err e → Refusal p d.prices info.funds e
    Refusal-of_err h = elim (one_coin info.funds) [
      | inl many ↦
          let ne : length info.funds ≢ 1 = λ e. ground arith in
          count ne (cc (h, refused_count p info s d.prices rep.prices ne))
      | inr (c, hf) ↦ Refusal-of_one c hf h
    ]

    err_of_Refusal :
        {e : StdError} → Refusal p d.prices info.funds e → (purchase_and_mint p info s).0 ≡ err e
    err_of_Refusal (count hn he) = rw (refused_count p info s d.prices rep.prices hn, he)
    err_of_Refusal (denom c hf hu he) = rw (refused_denom p info s d.prices rep.prices c hf hu, he)
    err_of_Refusal (amount c price hf first hd ha he) =
        rw (refused_amount p info s d.prices rep.prices c price hf first hd ha, he)

    -- Under the laws of the libraries, a running dealer refuses a purchase with the error `e`
    -- exactly when `e` is the error for the funds sent: not one coin, a denom with no price, or an
    -- amount that is not that of the first price in the denom.
    pub purchase_err_iff :
        (e : StdError) → ((purchase_and_mint p info s).0 ≡ err e) ↔ Refusal p d.prices info.funds e
    purchase_err_iff e = (Refusal-of_err, err_of_Refusal)
