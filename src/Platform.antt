-- ===== src/Platform.antt =====
-- What the contracts call and do not implement: cosmwasm_std, secret_toolkit, serde,
-- cw_migratable_contract_std and snip721_reference_impl, as one parameter of the development.
pub mod Laws
pub mod Payloads
pub mod Mock
pub mod History
use snip721_migratable.Base.{ℕ, String, Option, List}
use snip721_migratable.Exec.{Outcome, Exec}
use snip721_migratable.Cosmwasm.{
  Addr, CanonicalAddr, Coin, ContractInfo, CanonicalContractInfo, MessageInfo, Env, ReplyOn,
  CosmosMsg, SubMsg, MigrationListenerExecuteMsg, MigratableExecuteMsg, Codec, Item,
}
use snip721_migratable.Snip721.{Snip721Types, Snip721InstantiateMsg, Snip721ExecuteMsg}
use snip721_migratable.Dealer.Msg.{
  DealerExecuteMsg, QueryAnswer, PurchasableMetadata, MigratableSnip721InstantiateMsg,
}

pub record Platform : Type 1 where
  pub types : Snip721Types
  pub Storage : Type 0
  pub Binary : Type 0
  pub Response : Type 0
  pub Circumstance : Type 0
  pub Snip721QueryMsg : Type 0
  -- `cosmwasm_std::Api`
  pub addr_validate : String → Outcome Addr
  pub addr_canonicalize : String → Outcome CanonicalAddr
  pub addr_humanize : CanonicalAddr → Outcome Addr
  -- `Response::new`, `Response::add_submessages` and the field `messages`
  pub response_new : Response
  pub add_submessages : Response → List (SubMsg Binary) → Response
  pub messages : Response → List (SubMsg Binary)
  -- `SubMsg::new` and `SubMsg::reply_on_success`
  pub sub_msg_new : CosmosMsg Binary → SubMsg Binary
  pub reply_on_success : CosmosMsg Binary → ℕ → SubMsg Binary
  -- `Display` of `Coin` and of `Uint128`
  pub coin_to_string : Coin → String
  pub uint128_to_string : ℕ → String
  -- `to_binary` and `from_slice` at each type of message
  pub dealer_execute_json : Codec Binary DealerExecuteMsg
  pub migratable_execute_json : Codec Binary MigratableExecuteMsg
  pub migration_listener_json : Codec Binary (MigrationListenerExecuteMsg Binary)
  pub snip721_execute_json : Codec Binary (Snip721ExecuteMsg types)
  pub child_instantiate_json : Codec Binary (MigratableSnip721InstantiateMsg types)
  pub query_answer_json : Codec Binary QueryAnswer
  -- `Item::new`, and the format of the stored values
  pub item_new : {A : Type 0} → Codec Binary A → String → Item Storage A
  pub addr_bincode : Codec Binary CanonicalAddr
  pub text_bincode : Codec Binary String
  pub coins_bincode : Codec Binary (List Coin)
  pub metadata_bincode : Codec Binary (PurchasableMetadata types)
  pub subscribers_bincode : Codec Binary (List CanonicalContractInfo)
  pub byte_bincode : Codec Binary ℕ
  -- cw_migratable_contract_std: the keys of `MIGRATION_COMPLETE_EVENT_SUBSCRIBERS` and
  -- `REMAINING_MIGRATION_COMPLETE_EVENT_SUB_SLOTS`, and its functions
  pub subscribers_key : String
  pub slots_key : String
  pub canonicalize : ContractInfo → Outcome CanonicalContractInfo
  pub into_humanized : CanonicalContractInfo → Outcome ContractInfo
  pub register_to_notify_on_migration_complete : String → String → Exec Storage Response
  pub add_migration_complete_event_subscriber : CanonicalAddr → String → Exec Storage (Unit {0})
  pub update_migrated_subscriber : CanonicalAddr → CanonicalContractInfo → Exec Storage (Unit {0})
  pub create_broadcast_migration_complete_notification_msgs :
      Storage
      → ReplyOn
      → ℕ
      → ContractInfo
      → List ContractInfo
      → Option Binary
      → Outcome (List (SubMsg Binary))
  -- snip721_reference_impl::contract
  pub snip721_instantiate :
      Env Circumstance → MessageInfo → Snip721InstantiateMsg types → Exec Storage Response
  pub snip721_execute :
      Env Circumstance → MessageInfo → Snip721ExecuteMsg types → Exec Storage Response
  pub snip721_query : Storage → Env Circumstance → Snip721QueryMsg → Outcome Binary

module _ (p : Platform) where
  open p use {Storage, item_new, subscribers_bincode, subscribers_key, byte_bincode, slots_key}

  -- `MIGRATION_COMPLETE_EVENT_SUBSCRIBERS`
  abbrev pub subscribers : Item Storage (List CanonicalContractInfo)
  subscribers = item_new subscribers_bincode subscribers_key

  -- `REMAINING_MIGRATION_COMPLETE_EVENT_SUB_SLOTS`
  abbrev pub remaining_sub_slots : Item Storage ℕ
  remaining_sub_slots = item_new byte_bincode slots_key
