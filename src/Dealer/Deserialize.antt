-- ===== src/Dealer/Deserialize.antt =====
-- The untagged `ExecuteMsg` of the dealer: its derived `Serialize` (msg.rs) and its hand-written
-- `Deserialize` (msg_untagged_deserializer.rs), in contracts/snip721-dealer/src.
pub mod RoundTrip
pub mod Refuses
use snip721_migratable.Exec.{Outcome, ok, err, panic, StdError, generic_err}
use snip721_migratable.Dealer.Msg.{ExecuteMsg, dealer, migrate, migrate_listener}
use snip721_migratable.Platform.{Platform}
use snip721_migratable.Serde.{Visitor, Deserializer}

-- `if let Ok(a) = first { return Ok(f(a)) }`, then the rest.
abbrev pub or_else {ℓ κ} : {A : Type ℓ} {B : Type κ} → Outcome A → (A → B) → Outcome B → Outcome B
or_else (ok a) f rest = ok (f a)
or_else (err e) f rest = rest
or_else panic f rest = panic

abbrev pub unsupported_execute_message : StdError
unsupported_execute_message = generic_err "Unsupported Execute message"

module _ (p : Platform) where
  open p use {Binary, dealer_execute_json, migratable_execute_json, migration_listener_json}

  -- `#[serde(untagged)]` writes the payload alone.
  unfoldable pub serialize : ExecuteMsg Binary → Outcome Binary
  serialize (dealer msg) = dealer_execute_json.encode msg
  serialize (migrate msg) = migratable_execute_json.encode msg
  serialize (migrate_listener msg) = migration_listener_json.encode msg

  -- `ExecuteMsgVisitor::visit_bytes`
  unfoldable pub visit_bytes : Binary → Outcome (ExecuteMsg Binary)
  visit_bytes v = or_else (dealer_execute_json.decode v) dealer (
      or_else (migratable_execute_json.decode v) migrate (
        or_else (migration_listener_json.decode v) migrate_listener
          (err unsupported_execute_message)))

  -- `ExecuteMsgVisitor`, with the text of its `expecting`
  abbrev pub execute_msg_visitor : Visitor Binary (ExecuteMsg Binary)
  execute_msg_visitor = record {
    expecting = "a valid ExecuteMsg variant";
    visit_bytes = visit_bytes;
  }

  -- `ExecuteMsg::deserialize`
  unfoldable pub deserialize : Deserializer Binary → Outcome (ExecuteMsg Binary)
  deserialize deserializer = deserializer.deserialize_bytes execute_msg_visitor
