-- ===== src/Tests/Scenarios.antt =====
-- Tests of contracts/snip721-dealer/src/test_instantiate.rs and test_execute.rs, run on the model:
-- each is the proposition that its assertions hold.
use snip721_migratable.Base.{ℕ, String, ◌≡◌, refl, Option, none, some, List, [], ◌∷◌, map, decimal}
use snip721_migratable.Exec.{Outcome, ok, err, and_then, generic_err}
use snip721_migratable.Cosmwasm.{Coin, SubMsg, CosmosMsg, BankMsg, WasmMsg}
use snip721_migratable.Snip721.{Snip721ExecuteMsg}
use snip721_migratable.Dealer.Msg.{InstantiateMsg, dealer, purchase_mint}
use snip721_migratable.Dealer.State
use snip721_migratable.Dealer.Instantiate.{instantiate}
use snip721_migratable.Dealer.Child.{reply, on_instantiated_snip721_reply}
use snip721_migratable.Dealer.Purchase.{purchase_and_mint, wrong_amount}
use snip721_migratable.Dealer.Execute.{execute}
use snip721_migratable.Platform.Mock.{mock, mock_types, Payload, decode_snip721}
use snip721_migratable.Tests.Fixtures.{
  mock_info, admin_msg_info, child_snip721_address, child_snip721_code_hash,
  successful_child_snip721_instantiate_reply, default_instantiate_msg, dealer_env,
}

abbrev uscrt : ℕ → Coin
uscrt n = record { denom = "`uscrt`"; amount = n }

abbrev scrt : ℕ → Coin
scrt n = record { denom = "`SCRT`"; amount = n }

abbrev atom : ℕ → Coin
atom n = record { denom = "`atom`"; amount = n }

-- `execute` of a purchase by "minty" with these funds.
abbrev purchase : List Coin → mock.Storage → Outcome mock.Response
purchase funds s = (execute mock dealer_env (mock_info "minty" funds) (dealer purchase_mint) s).0

-- The same, after `instantiate` by "creator" with these prices, and before any reply.
abbrev purchase_at : List Coin → List Coin → Outcome mock.Response
purchase_at prices funds =
    purchase funds
      (instantiate mock dealer_env (mock_info "creator" [])
        (record default_instantiate_msg { prices = prices; admin = some "creator" }) []).1

abbrev FailsWNoSentFunds : Type 0
FailsWNoSentFunds =
    purchase_at (uscrt 100 ∷ []) []
    ≡ err (generic_err "Purchase requires one coin denom to be sent with transaction, 0 were sent.")

no_sent_funds : FailsWNoSentFunds
unfolding instantiate execute purchase_and_mint decimal
no_sent_funds = refl

abbrev FailsWCorrectDenomWInsufficientAmount : Type 0
FailsWCorrectDenomWInsufficientAmount =
    purchase_at (uscrt 100 ∷ []) (uscrt 99 ∷ []) ≡ err (wrong_amount mock (uscrt 100) (uscrt 99))

correct_denom_insufficient : FailsWCorrectDenomWInsufficientAmount
unfolding instantiate execute purchase_and_mint
correct_denom_insufficient = refl

abbrev FailsWCorrectDenomWExcessiveAmount : Type 0
FailsWCorrectDenomWExcessiveAmount =
    purchase_at (uscrt 100 ∷ []) (uscrt 101 ∷ []) ≡ err (wrong_amount mock (uscrt 100) (uscrt 101))

correct_denom_excessive : FailsWCorrectDenomWExcessiveAmount
unfolding instantiate execute purchase_and_mint
correct_denom_excessive = refl

-- The three tests with a coin in a denom with no price, by its amount.
abbrev FailsWWrongDenom : ℕ → Type 0
FailsWWrongDenom amount =
    purchase_at (uscrt 100 ∷ []) (atom amount ∷ [])
    ≡ err (generic_err "Purchasing in denom:`atom` is not allowed")

wrong_denom : FailsWWrongDenom 100 × FailsWWrongDenom 99 × FailsWWrongDenom 101
unfolding instantiate execute purchase_and_mint
wrong_denom = (refl, refl, refl)

-- The three tests with one coin in each of two denoms with a price, by their amount.
abbrev FailsWMultipleCoins : ℕ → Type 0
FailsWMultipleCoins amount =
    purchase_at (uscrt 100 ∷ scrt 100 ∷ []) (uscrt amount ∷ scrt amount ∷ [])
    ≡ err (generic_err "Purchase requires one coin denom to be sent with transaction, 2 were sent.")

multiple_coins : FailsWMultipleCoins 100 × FailsWMultipleCoins 99 × FailsWMultipleCoins 101
unfolding instantiate execute purchase_and_mint decimal
multiple_coins = (refl, refl, refl)

-- The message of "creator" with metadata, and the storages after it and after the reply.
abbrev art_msg : InstantiateMsg mock_types
art_msg = record default_instantiate_msg {
  prices = uscrt 100 ∷ [];
  public_metadata = some "public_metadata_uri";
  private_metadata = some "private_metadata_uri";
}

abbrev art_instantiated : mock.Storage
art_instantiated = (instantiate mock dealer_env (mock_info "creator" []) art_msg []).1

abbrev art_replied : Outcome mock.Response × mock.Storage
art_replied =
    reply mock dealer_env (successful_child_snip721_instantiate_reply child_snip721_address)
      art_instantiated

abbrev PurchaseAndMintSuccessfully : Type 0
PurchaseAndMintSuccessfully =
    (bytes : Payload) × (and_then (purchase (uscrt 100 ∷ []) art_replied.1)
        (λ r. ok (map (λ (m : SubMsg Payload). m.msg) (mock.messages r)))
      ≡ ok (
          CosmosMsg.bank (BankMsg.send "creator" (uscrt 100 ∷ []))
          ∷ CosmosMsg.wasm (WasmMsg.execute child_snip721_address child_snip721_code_hash bytes [])
          ∷ []))
    × (decode_snip721 bytes
        ≡ ok (
            Snip721ExecuteMsg.mint_nft (record {
              token_id = none;
              owner = some "minty";
              public_metadata = some "public_metadata_uri";
              private_metadata = some "private_metadata_uri";
              serial_number = none;
              royalty_info = none;
              transferable = none;
              memo = none;
              padding = none;
            })))

successful_purchase : PurchaseAndMintSuccessfully
unfolding instantiate reply on_instantiated_snip721_reply execute purchase_and_mint
successful_purchase = (_, refl, refl)

-- The storage after `instantiate` by "admin" with a code hash, and with an admin named or not.
abbrev instantiated_by_admin : String → Option String → mock.Storage
instantiated_by_admin code_hash admin =
    (instantiate mock dealer_env admin_msg_info
      (record art_msg { snip721_code_hash = code_hash; admin = admin }) []).1

abbrev InstantiateWithValidMsgSavesAllToState : Type 0
InstantiateWithValidMsgSavesAllToState =
    let s = instantiated_by_admin "test_code_hash" (some "admin") in
    ((State.purchase_prices mock).load s ≡ ok (uscrt 100 ∷ []))
    × ((State.purchasable_metadata mock).load s
        ≡ ok (record {
          public_metadata = some "public_metadata_uri";
          private_metadata = some "private_metadata_uri";
        }))
    × ((State.admin mock).load s ≡ mock.addr_canonicalize "admin")
    × ((State.child_snip721_code_hash mock).load s ≡ ok "test_code_hash")

saves_all : InstantiateWithValidMsgSavesAllToState
unfolding instantiate
saves_all = (refl, refl, refl, refl)

abbrev InstantiateWithoutAdminUsesMsgSender : Type 0
InstantiateWithoutAdminUsesMsgSender =
    (State.admin mock).load (instantiated_by_admin child_snip721_code_hash none)
    ≡ mock.addr_canonicalize "admin"

uses_msg_sender : InstantiateWithoutAdminUsesMsgSender
unfolding instantiate
uses_msg_sender = refl

abbrev OnInstantiateSnip721ReplyChildSnip721AddressIsSet : Type 0
OnInstantiateSnip721ReplyChildSnip721AddressIsSet =
    and_then
      ((State.child_snip721_address mock).load
        (reply mock dealer_env (successful_child_snip721_instantiate_reply child_snip721_address)
          (instantiate mock dealer_env admin_msg_info
            (record default_instantiate_msg { prices = uscrt 100 ∷ []; admin = some "admin" })
            []).1).1)
      mock.addr_humanize
    ≡ ok child_snip721_address

child_address_is_set : OnInstantiateSnip721ReplyChildSnip721AddressIsSet
unfolding instantiate reply on_instantiated_snip721_reply
child_address_is_set = refl

abbrev InstantiateWithNoPricesFails : Type 0
InstantiateWithNoPricesFails =
    (instantiate mock dealer_env (mock_info "creator" [])
      (record default_instantiate_msg { admin = some "creator" }) []).0
    ≡ err (generic_err "No purchase prices were specified")

no_prices_fails : InstantiateWithNoPricesFails
unfolding instantiate
no_prices_fails = refl
