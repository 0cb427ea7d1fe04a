-- ===== src/Cosmwasm.antt =====
-- The data of cosmwasm_std, secret_toolkit and cw_migratable_contract_std that the contracts build
-- or take apart, with the constructors and fields that they name.
use snip721_migratable.Base.{ℕ, String, Option, List}
use snip721_migratable.Exec.{Outcome, Exec}

-- `Addr` is a checked text; `as_str` and `to_string` give that text.
abbrev pub Addr : Type 0
Addr = String

-- `CanonicalAddr` is a byte string.
abbrev pub CanonicalAddr : Type 0
CanonicalAddr = List ℕ

-- `amount` is a `Uint128`, which the contracts compare and print only.
pub record Coin : Type 0 where
  pub denom : String
  pub amount : ℕ

pub record ContractInfo : Type 0 where
  pub address : Addr
  pub code_hash : String

-- `cw_migratable_contract_std::state::CanonicalContractInfo`
pub record CanonicalContractInfo : Type 0 where
  pub address : CanonicalAddr
  pub code_hash : String

pub record MessageInfo : Type 0 where
  pub sender : Addr
  pub funds : List Coin

-- `block` and `transaction` are passed on unread, together.
pub record Env (Circumstance : Type 0) : Type 0 where
  pub circumstance : Circumstance
  pub contract : ContractInfo

pub data ReplyOn : Type 0 where
  always error success never : ReplyOn

pub data BankMsg : Type 0 where
  send : (to_address : String) (amount : List Coin) → BankMsg

pub record Attribute : Type 0 where
  pub key : String
  pub value : String

pub record Event : Type 0 where
  pub ty : String
  pub attributes : List Attribute

module _ (Binary : Type 0) where
  pub data WasmMsg : Type 0 where
    execute :
        (contract_addr : String) (code_hash : String) (msg : Binary) (funds : List Coin) → WasmMsg
    instantiate :
        (admin : Option String) (code_id : ℕ) (code_hash : String) (msg : Binary)
        (funds : List Coin) (label : String)
        → WasmMsg

  pub data CosmosMsg : Type 0 where
    bank : BankMsg → CosmosMsg
    wasm : WasmMsg → CosmosMsg

  pub record SubMsg : Type 0 where
    pub id : ℕ
    pub msg : CosmosMsg
    pub reply_on : ReplyOn

  pub record SubMsgResponse : Type 0 where
    pub events : List Event
    pub bytes : Option Binary

  pub data SubMsgResult : Type 0 where
    succeeded : SubMsgResponse → SubMsgResult
    failed : String → SubMsgResult

  pub record Reply : Type 0 where
    pub id : ℕ
    pub result : SubMsgResult

  -- `cw_migratable_contract_std::msg::MigrationListenerExecuteMsg`
  pub data MigrationListenerExecuteMsg : Type 0 where
    migration_complete_notification :
        (to : ContractInfo) (bytes : Option Binary) → MigrationListenerExecuteMsg

-- `cw_migratable_contract_std::msg::MigratableExecuteMsg`; `other` is any variant that the
-- contracts do not name.
pub data MigratableExecuteMsg : Type 0 where
  subscribe_to_migration_complete_event :
      (address : String) (code_hash : String) → MigratableExecuteMsg
  other : String → MigratableExecuteMsg

-- Serialisation of a type by serde, in one format.
pub record Codec (Binary : Type 0) (A : Type 0) : Type 0 where
  pub encode : A → Outcome Binary
  pub decode : Binary → Outcome A

-- `secret_toolkit::storage::Item`
pub record Item (Storage : Type 0) (A : Type 0) : Type 0 where
  pub save : A → Exec Storage (Unit {0})
  pub load : Storage → Outcome A
