-- ===== src/System/Buys.antt =====
-- A purchase as one transaction of the dealer and its child.
use snip721_migratable.Base.{◌≡◌, ◌↔◌, inl, inr, sym, ◌∙◌, [], ◌∷◌, eq_refl}
use snip721_migratable.Exec.{Outcome, Outcome-cases, ok, and_then, and_then-eq-ok}
use snip721_migratable.Cosmwasm.{Coin, MessageInfo}
use snip721_migratable.Dealer.Msg.{DealerState, dealer, purchase_mint}
use snip721_migratable.Dealer.Execute
use snip721_migratable.Dealer.Purchase.{purchase_and_mint}
use snip721_migratable.Dealer.Purchase.Terms.{FirstPrice}
use snip721_migratable.Dealer.Purchase.Accepts.{purchase_iff, purchase_reads_only, minting}
use snip721_migratable.Platform.{Platform}
use snip721_migratable.Platform.Laws.{Laws}
use snip721_migratable.System.{Pair, buy, deliver_all, env_of}
use snip721_migratable.System.Mints.{purchase_mints}
use snip721_migratable.System.Linked.{Linked}

module _ (p : Platform) (d : DealerState p.types) (laws : Laws p) (here : p.Circumstance)
    (info : MessageInfo) (w : Pair p) (linked : Linked p d w) where
  -- What the collection makes of the mint.
  abbrev pub minted : Outcome p.Response × p.Storage
  minted =
      p.snip721_execute (env_of p here w.child.address w.child.code_hash)
        (record { sender = w.dealer.address; funds = [] })
        (minting p laws info w.dealer_storage
          (record d {
            child_snip721_address = w.child.address;
            child_snip721_code_hash = w.child.code_hash;
          })
          linked.rep)
        w.child_storage

  stays :
      (Execute.execute p
        (env_of p here w.dealer.address w.dealer.code_hash)
        info
        (dealer purchase_mint)
        w.dealer_storage).1
      ≡ w.dealer_storage
  unfolding Execute.execute
  stays = purchase_reads_only p info w.dealer_storage

  -- With the right coin, the transaction ends as the mint does.
  buy_eq :
      (c : Coin)
      → info.funds ≡ c ∷ []
      → FirstPrice d.prices c
      → buy p here info w ≡ and_then minted.0 (λ _. ok (record w { child_storage = minted.1 }))
  unfolding buy deliver_all
  buy_eq c hf hp =
      let (bytes, sends, enters) =
        purchase_mints p laws d w linked (env_of p here w.dealer.address w.dealer.code_hash) info c
          hf hp in
      let entered = enters (env_of p here w.child.address w.child.code_hash) w.child_storage in
      elim (Outcome-cases minted.0) [
        | inl (r, e) ↦ simp (sends.1, sends.2, stays, eq_refl, entered, e)
        | inr (inl (x, e)) ↦ simp (sends.1, sends.2, stays, eq_refl, entered, e)
        | inr (inr e) ↦ simp (sends.1, sends.2, stays, eq_refl, entered, e)
      ]

  -- Under the laws of the libraries, a purchase at linked contracts, run as one transaction with
  -- the mint that it sends to the child, ends in the contracts `w'` exactly when one coin is sent,
  -- the coin is the first listed price of its denom, the collection accepts the mint for the buyer
  -- with the dealer's metadata, sent by the dealer, and `w'` differs only in the storage that the
  -- collection leaves. So there is no purchase without its mint.
  pub buy_iff :
      (w' : Pair p)
      → (buy p here info w ≡ ok w') ↔ (
          (c : Coin) × (info.funds ≡ c ∷ [])
          × FirstPrice d.prices c
          × (r : p.Response) × (minted.0 ≡ ok r)
          × (w' ≡ record w { child_storage = minted.1 }))
  unfolding buy Execute.execute
  buy_iff w' = (
    λ bought.
        let (r, done, _) = and_then-eq-ok (purchase_and_mint p info w.dealer_storage).0 _ bought in
        let (c, hf, hp) =
          (purchase_iff p laws info w.dealer_storage
              (record d {
                child_snip721_address = w.child.address;
                child_snip721_code_hash = w.child.code_hash;
              })
              linked.rep).0
            (r, done) in
        let (r', accepted, ends) =
          and_then-eq-ok minted.0 (λ _. ok (record w { child_storage = minted.1 }))
            (sym (buy_eq c hf hp) ∙ bought) in
        (c, hf, hp, r', accepted, cc),
    λ (c, hf, hp, r, accepted, same). buy_eq c hf hp ∙ rw (accepted, same),
  )
