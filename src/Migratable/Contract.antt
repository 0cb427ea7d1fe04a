-- ===== src/Migratable/Contract.antt =====
-- `instantiate`, `execute`, `update_migrated_dependency` and `query` of
-- contracts/snip721-migratable/src/contract.rs.
pub mod Notified
pub mod Limits
pub mod Bounded
use snip721_migratable.Exec.{Outcome, StdError, generic_err, Exec, pure, fail, lift, ◌>>=◌, ◌>>◌}
use snip721_migratable.Cosmwasm.{
  ContractInfo, MessageInfo, Env, MigratableExecuteMsg, subscribe_to_migration_complete_event,
  migration_complete_notification,
}
use snip721_migratable.Migratable.Msg.{InstantiateMsg, ExecuteMsg, base, migrate, migrate_listener}
use snip721_migratable.Platform.{Platform, remaining_sub_slots}

abbrev pub unsupported_migrate_message : StdError
unsupported_migrate_message = generic_err "Unsupported Migrate message"

module _ (p : Platform) where
  open p use {
    types, Storage, Binary, Response, Circumstance, Snip721QueryMsg, addr_canonicalize,
    response_new, canonicalize, update_migrated_subscriber,
    register_to_notify_on_migration_complete, snip721_instantiate, snip721_execute, snip721_query,
  }

  unfoldable pub instantiate :
      Env Circumstance → MessageInfo → InstantiateMsg types → Exec Storage Response
  instantiate env info msg = do
    (remaining_sub_slots p).save msg.max_migration_complete_event_subscribers
    snip721_instantiate env info msg.instantiate

  unfoldable pub update_migrated_dependency : MessageInfo → ContractInfo → Exec Storage Response
  update_migrated_dependency info migrated_to = do
    from_raw ← lift (addr_canonicalize info.sender)
    migrated_to_raw ← lift (canonicalize migrated_to)
    update_migrated_subscriber from_raw migrated_to_raw
    pure response_new

  -- `match ext_msg { … }`
  abbrev pub execute_migrate : MigratableExecuteMsg → Exec Storage Response
  execute_migrate (subscribe_to_migration_complete_event address code_hash) =
      register_to_notify_on_migration_complete address code_hash
  execute_migrate (MigratableExecuteMsg.other _) = fail unsupported_migrate_message

  unfoldable pub execute :
      Env Circumstance → MessageInfo → ExecuteMsg types Binary → Exec Storage Response
  execute env info (base base_msg) = snip721_execute env info base_msg
  execute env info (migrate ext_msg) = execute_migrate ext_msg
  execute env info (migrate_listener (migration_complete_notification to _)) =
      update_migrated_dependency info to

  unfoldable pub query : Storage → Env Circumstance → Snip721QueryMsg → Outcome Binary
  query s env msg = snip721_query s env msg
