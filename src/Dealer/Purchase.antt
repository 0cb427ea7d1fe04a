-- ===== src/Dealer/Purchase.antt =====
-- `purchase_and_mint` of contracts/snip721-dealer/src/contract.rs.
pub mod Terms
pub mod Refuses
pub mod Order
pub mod Accepts
use snip721_migratable.Base.{
  ℕ, String, Option, none, some, List, [], ◌∷◌, length, get_elem?, find, str_eq, ◌!=◌, ◌<>◌,
  decimal,
}
use snip721_migratable.Exec.{
  StdError, generic_err, Exec, or_panic, pure, fail, lift, reads, reject_if, ◌>>=◌, ◌>>◌,
}
use snip721_migratable.Cosmwasm.{Addr, Coin, MessageInfo, CosmosMsg, WasmMsg, BankMsg}
use snip721_migratable.Snip721.{Snip721ExecuteMsg}
use snip721_migratable.Dealer.Msg.{PurchasableMetadata}
use snip721_migratable.Dealer.State
use snip721_migratable.Platform.{Platform}

-- The texts of the three refusals.
abbrev pub one_coin_required : ℕ → StdError
one_coin_required sent = generic_err (
    "Purchase requires one coin denom to be sent with transaction, "
    <> decimal sent
    <> " were sent.")

abbrev pub denom_not_allowed : String → StdError
denom_not_allowed denom = generic_err ("Purchasing in denom:" <> denom <> " is not allowed")

-- `prices.iter().find(|c| c.denom == msg_fund.denom)`
abbrev pub selected_coin_price : List Coin → Coin → Option Coin
selected_coin_price prices msg_fund = find (λ c. str_eq c.denom msg_fund.denom) prices

module _ (p : Platform) where
  open p use {
    types, Storage, Binary, Response, addr_humanize, add_submessages, response_new, sub_msg_new,
    coin_to_string, uint128_to_string, snip721_execute_json,
  }

  abbrev pub wrong_amount : Coin → Coin → StdError
  wrong_amount price msg_fund = generic_err (
      "Purchase price in "
      <> price.denom
      <> " is "
      <> uint128_to_string price.amount
      <> ", but "
      <> coin_to_string msg_fund
      <> " was sent")

  -- `if let Some(selected_coin_price) = … { … } else { … }`
  abbrev pub check_price : Option Coin → Coin → Exec Storage (Unit {0})
  check_price (some price) msg_fund =
      reject_if (msg_fund.amount != price.amount) (wrong_amount price msg_fund)
  check_price none msg_fund = fail (denom_not_allowed msg_fund.denom)

  -- `mint_nft_msg`
  abbrev pub mint_nft_msg : Addr → PurchasableMetadata types → Snip721ExecuteMsg types
  mint_nft_msg sender metadata = Snip721ExecuteMsg.mint_nft (record {
    token_id = none;
    owner = some sender;
    public_metadata = metadata.public_metadata;
    private_metadata = metadata.private_metadata;
    serial_number = none;
    royalty_info = none;
    transferable = none;
    memo = none;
    padding = none;
  })

  unfoldable pub purchase_and_mint : MessageInfo → Exec Storage Response
  purchase_and_mint info = do
    reject_if (length info.funds != 1) (one_coin_required (length info.funds))
    msg_fund ← lift (or_panic (get_elem? info.funds 0))
    prices ← reads (State.purchase_prices p).load
    check_price (selected_coin_price prices msg_fund) msg_fund
    raw_admin ← reads (State.admin p).load
    admin_addr ← lift (addr_humanize raw_admin)
    let send_funds_bank_msg = CosmosMsg.bank (BankMsg.send admin_addr info.funds)
    metadata ← reads (State.purchasable_metadata p).load
    child_snip721_code_hash ← reads (State.child_snip721_code_hash p).load
    child_snip721_address ← reads (State.child_snip721_address p).load
    contract_addr ← lift (addr_humanize child_snip721_address)
    mint_bytes ← lift (snip721_execute_json.encode (mint_nft_msg info.sender metadata))
    let mint_wasm_msg =
        CosmosMsg.wasm (WasmMsg.execute contract_addr child_snip721_code_hash mint_bytes [])
    pure (
        add_submessages response_new
          (sub_msg_new send_funds_bank_msg ∷ sub_msg_new mint_wasm_msg ∷ []))
