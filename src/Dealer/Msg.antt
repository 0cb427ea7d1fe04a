-- ===== src/Dealer/Msg.antt =====
-- The dealer's messages and stored records: msg.rs, msg_types.rs, msg_external.rs, and the struct
-- of state.rs, in contracts/snip721-dealer/src.
use snip721_migratable.Base.{ℕ, String, Option, List}
use snip721_migratable.Cosmwasm.{
  Addr, Coin, ContractInfo, MigratableExecuteMsg, MigrationListenerExecuteMsg,
}
use snip721_migratable.Snip721.{Snip721Types, Snip721InstantiateMsg}

pub data DealerExecuteMsg : Type 0 where
  purchase_mint : DealerExecuteMsg

pub data ExecuteMsg (Binary : Type 0) : Type 0 where
  dealer : DealerExecuteMsg → ExecuteMsg Binary
  migrate : MigratableExecuteMsg → ExecuteMsg Binary
  migrate_listener : MigrationListenerExecuteMsg Binary → ExecuteMsg Binary

pub data QueryMsg : Type 0 where
  get_prices get_child_snip721 : QueryMsg

pub data QueryAnswer : Type 0 where
  prices_answer : (prices : List Coin) → QueryAnswer
  contract_info : ContractInfo → QueryAnswer

module _ (types : Snip721Types) where
  open types use {Metadata, RoyaltyInfo}

  pub record InstantiateMsg : Type 0 where
    pub snip721_code_hash : String
    pub snip721_code_id : ℕ
    pub snip721_label : String
    pub prices : List Coin
    pub public_metadata : Option Metadata
    pub private_metadata : Option Metadata
    pub admin : Option String
    pub entropy : String
    pub royalty_info : Option RoyaltyInfo

  pub record DealerState : Type 0 where
    pub admin : Addr
    pub prices : List Coin
    pub public_metadata : Option Metadata
    pub private_metadata : Option Metadata
    pub child_snip721_code_hash : String
    pub child_snip721_address : Addr

  pub record PurchasableMetadata : Type 0 where
    pub public_metadata : Option Metadata
    pub private_metadata : Option Metadata

  pub record MigratableSnip721InstantiateMsg : Type 0 where
    pub instantiate : Snip721InstantiateMsg types
    pub max_migration_complete_event_subscribers : ℕ
