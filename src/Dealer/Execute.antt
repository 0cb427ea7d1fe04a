-- ===== src/Dealer/Execute.antt =====
-- `execute` and the queries of contracts/snip721-dealer/src/contract.rs.
pub mod Terms
pub mod Stranger
pub mod Queries
pub mod Refines
use snip721_migratable.Exec.{Outcome, StdError, generic_err, Exec, and_then, fail}
use snip721_migratable.Cosmwasm.{
  ContractInfo, MessageInfo, Env, MigratableExecuteMsg, subscribe_to_migration_complete_event,
  migration_complete_notification,
}
use snip721_migratable.Dealer.Msg.{
  DealerExecuteMsg, purchase_mint, ExecuteMsg, dealer, migrate, migrate_listener, QueryMsg,
  get_prices, get_child_snip721, prices_answer, contract_info,
}
use snip721_migratable.Dealer.State
use snip721_migratable.Dealer.Purchase.{purchase_and_mint}
use snip721_migratable.Dealer.Child.{update_child_snip721}
use snip721_migratable.Platform.{Platform}

abbrev pub unsupported_migrate_message : StdError
unsupported_migrate_message = generic_err "Unsupported Migrate message"

module _ (p : Platform) where
  open p use {
    Storage, Binary, Response, Circumstance, addr_humanize, query_answer_json,
    register_to_notify_on_migration_complete,
  }

  -- `match migrate_msg { … }`
  abbrev pub execute_migrate : MigratableExecuteMsg → Exec Storage Response
  execute_migrate (subscribe_to_migration_complete_event address code_hash) =
      register_to_notify_on_migration_complete address code_hash
  execute_migrate (MigratableExecuteMsg.other _) = fail unsupported_migrate_message

  unfoldable pub execute :
      Env Circumstance → MessageInfo → ExecuteMsg Binary → Exec Storage Response
  execute env info (dealer purchase_mint) = purchase_and_mint p info
  execute env info (migrate migrate_msg) = execute_migrate migrate_msg
  execute env info (migrate_listener (migration_complete_notification to _)) =
      update_child_snip721 p info to

  unfoldable pub query_child_snip721 : Storage → Outcome Binary
  query_child_snip721 s = and_then ((State.child_snip721_address p).load s) λ raw_address.
      and_then (addr_humanize raw_address) λ address.
        and_then ((State.child_snip721_code_hash p).load s) λ code_hash.
          query_answer_json.encode
            (contract_info (record { address = address; code_hash = code_hash }))

  unfoldable pub query_prices : Storage → Outcome Binary
  query_prices s =
      and_then ((State.purchase_prices p).load s)
        λ prices. query_answer_json.encode (prices_answer prices)

  unfoldable pub query : Storage → Env Circumstance → QueryMsg → Outcome Binary
  query s env get_prices = query_prices s
  query s env get_child_snip721 = query_child_snip721 s
