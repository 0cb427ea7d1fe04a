-- ===== src/Dealer/Child.antt =====
-- The dealer's dealings with its child token contract: `reply`, `on_instantiated_snip721_reply` and
-- `update_child_snip721` of contracts/snip721-dealer/src/contract.rs.
pub mod Replies
pub mod Updates
pub mod Announces
pub mod UpdateRefusal
pub mod ReplyRefusal
use snip721_migratable.Base.{
  ℕ, String, true, false, none, List, [], ◌∷◌, find, str_eq, bytes_eq, ◌==◌, ◌<>◌, decimal,
  if◌then◌else◌,
}
use snip721_migratable.Exec.{
  Outcome, ok, panic, StdError, generic_err, Exec, or_panic, and_then, unwrap, pure, fail, lift,
  reads, reject_if, ◌>>=◌, ◌>>◌,
}
use snip721_migratable.Cosmwasm.{
  Attribute, Event, SubMsgResult, succeeded, failed, SubMsgResponse, Reply, ContractInfo,
  MessageInfo, Env, CosmosMsg, WasmMsg, subscribe_to_migration_complete_event,
}
use snip721_migratable.Snip721.{Snip721ExecuteMsg}
use snip721_migratable.Dealer.Instantiate.{instantiate_snip721_reply_id}
use snip721_migratable.Dealer.State
use snip721_migratable.Platform.{Platform}

abbrev pub only_the_child : StdError
only_the_child = generic_err "Only the migrated child snip721 is allowed to trigger an update"

abbrev pub unknown_reply_id : ℕ → StdError
unknown_reply_id id = generic_err ("Unknown reply id: " <> decimal id)

-- The value of attribute `contract_address` of the first event `instantiate`.
abbrev pub contract_address : List Event → Outcome String
contract_address events =
    and_then (or_panic (find (λ (e : Event). str_eq e.ty "instantiate") events)) λ e.
      and_then (or_panic (find (λ (a : Attribute). str_eq a.key "contract_address") e.attributes))
        λ a. ok a.value

-- `SubMsgResult::unwrap`
abbrev pub unwrap_result : {Binary : Type 0} → SubMsgResult Binary → Outcome (SubMsgResponse Binary)
unwrap_result (succeeded response) = ok response
unwrap_result (failed message) = panic

module _ (p : Platform) where
  open p use {
    Storage, Binary, Response, Circumstance, addr_validate, addr_canonicalize, addr_humanize,
    add_submessages, response_new, sub_msg_new, migratable_execute_json, snip721_execute_json,
    add_migration_complete_event_subscriber, update_migrated_subscriber, canonicalize,
  }

  unfoldable pub on_instantiated_snip721_reply :
      Env Circumstance → Reply Binary → Exec Storage Response
  on_instantiated_snip721_reply env reply = do
    result ← lift (unwrap_result reply.result)
    contract_address ← lift (contract_address result.events)
    child_snip721_address ← lift (addr_validate contract_address)
    raw_child_snip721_address ← lift (addr_canonicalize child_snip721_address)
    (State.child_snip721_address p).save raw_child_snip721_address
    child_snip721_code_hash ← reads (State.child_snip721_code_hash p).load
    raw_admin ← reads (State.admin p).load
    admin ← lift (addr_humanize raw_admin)
    add_migration_complete_event_subscriber raw_child_snip721_address child_snip721_code_hash
    subscribe_bytes ← lift (
        migratable_execute_json.encode
          (subscribe_to_migration_complete_event env.contract.address env.contract.code_hash))
    change_admin_bytes ←
        lift (unwrap (snip721_execute_json.encode (Snip721ExecuteMsg.change_admin admin none)))
    let subscribe_msg =
        WasmMsg.execute child_snip721_address child_snip721_code_hash subscribe_bytes []
    let change_admin_msg =
        WasmMsg.execute child_snip721_address child_snip721_code_hash change_admin_bytes []
    pure (
        add_submessages response_new (
          sub_msg_new (CosmosMsg.wasm subscribe_msg)
          ∷ sub_msg_new (CosmosMsg.wasm change_admin_msg)
          ∷ []))

  unfoldable pub reply : Env Circumstance → Reply Binary → Exec Storage Response
  reply env msg =
      if msg.id == instantiate_snip721_reply_id
      then on_instantiated_snip721_reply env msg
      else fail (unknown_reply_id msg.id)

  unfoldable pub update_child_snip721 : MessageInfo → ContractInfo → Exec Storage Response
  update_child_snip721 info migrated_to = do
    current_child_snip721_address ← reads (State.child_snip721_address p).load
    raw_sender ← lift (addr_canonicalize info.sender)
    reject_if (if bytes_eq raw_sender current_child_snip721_address then false else true)
        only_the_child
    raw_migrated_to ← lift (canonicalize migrated_to)
    (State.child_snip721_address p).save raw_migrated_to.address
    (State.child_snip721_code_hash p).save raw_migrated_to.code_hash
    update_migrated_subscriber raw_sender raw_migrated_to
    pure response_new
