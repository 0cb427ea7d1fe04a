-- ===== src/Migratable/Migrate.antt =====
-- `migrate` of contracts/snip721-migratable/src/contract_migrate.rs.
pub mod Notifies
use snip721_migratable.Base.{none, []}
use snip721_migratable.Exec.{Exec, unwrap_or, collect, pure, lift, reads, ◌>>=◌}
use snip721_migratable.Cosmwasm.{Env, never}
use snip721_migratable.Platform.{Platform, subscribers}

module _ (p : Platform) where
  open p use {
    Storage, Response, Circumstance, add_submessages, response_new, into_humanized,
    create_broadcast_migration_complete_notification_msgs,
  }

  unfoldable pub migrate : Env Circumstance → Exec Storage Response
  migrate env = do
    subscribed ← reads (λ s. unwrap_or [] ((subscribers p).load s))
    contracts_to_notify ← lift (collect into_humanized subscribed)
    msgs ← reads (λ s.
        create_broadcast_migration_complete_notification_msgs s never 0 env.contract
          contracts_to_notify none)
    pure (add_submessages response_new msgs)
