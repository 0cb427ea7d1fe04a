-- ===== src/Migratable/Deserialize.antt =====
-- The untagged `ExecuteMsg` of the token contract: its derived `Serialize` (msg.rs) and its
-- hand-written `Deserialize` (msg_untagged_deserializer.rs), in contracts/snip721-migratable/src.
pub mod RoundTrip
pub mod Refuses
use snip721_migratable.Exec.{Outcome, err}
use snip721_migratable.Dealer.Deserialize.{or_else, unsupported_execute_message}
use snip721_migratable.Migratable.Msg.{ExecuteMsg, base, migrate, migrate_listener}
use snip721_migratable.Platform.{Platform}
use snip721_migratable.Serde.{Visitor, Deserializer}

module _ (p : Platform) where
  open p use {types, Binary, snip721_execute_json, migratable_execute_json, migration_listener_json}

  -- `#[serde(untagged)]` writes the payload alone.
  unfoldable pub serialize : ExecuteMsg types Binary → Outcome Binary
  serialize (base msg) = snip721_execute_json.encode msg
  serialize (migrate msg) = migratable_execute_json.encode msg
  serialize (migrate_listener msg) = migration_listener_json.encode msg

  -- `ExecuteMsgVisitor::visit_bytes`
  unfoldable pub visit_bytes : Binary → Outcome (ExecuteMsg types Binary)
  visit_bytes v = or_else (snip721_execute_json.decode v) base (
      or_else (migratable_execute_json.decode v) migrate (
        or_else (migration_listener_json.decode v) migrate_listener
          (err unsupported_execute_message)))

  -- `ExecuteMsgVisitor`, with the text of its `expecting`
  abbrev pub execute_msg_visitor : Visitor Binary (ExecuteMsg types Binary)
  execute_msg_visitor = record {
    expecting = "a valid ExecuteMsg variant";
    visit_bytes = visit_bytes;
  }

  -- `ExecuteMsg::deserialize`
  unfoldable pub deserialize : Deserializer Binary → Outcome (ExecuteMsg types Binary)
  deserialize deserializer = deserializer.deserialize_bytes execute_msg_visitor
