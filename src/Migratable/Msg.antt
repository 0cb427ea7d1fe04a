-- ===== src/Migratable/Msg.antt =====
-- The token contract's messages: msg.rs in contracts/snip721-migratable/src.
use snip721_migratable.Base.{ℕ}
use snip721_migratable.Cosmwasm.{MigratableExecuteMsg, MigrationListenerExecuteMsg}
use snip721_migratable.Snip721.{Snip721Types, Snip721InstantiateMsg, Snip721ExecuteMsg}

module _ (types : Snip721Types) where
  pub record InstantiateMsg : Type 0 where
    pub instantiate : Snip721InstantiateMsg types
    pub max_migration_complete_event_subscribers : ℕ

  pub data ExecuteMsg (Binary : Type 0) : Type 0 where
    base : Snip721ExecuteMsg types → ExecuteMsg Binary
    migrate : MigratableExecuteMsg → ExecuteMsg Binary
    migrate_listener : MigrationListenerExecuteMsg Binary → ExecuteMsg Binary
