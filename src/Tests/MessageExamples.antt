-- ===== src/Tests/MessageExamples.antt =====
-- Both `deserialize`, run on a deserializer that hands its bytes over when it is asked for borrowed
-- bytes, and fails when it is asked for anything else.
use snip721_migratable.Base.{◌≡◌, refl, none}
use snip721_migratable.Exec.{ok, err}
use snip721_migratable.Cosmwasm.{ContractInfo, migration_complete_notification}
use snip721_migratable.Dealer.Msg as DealerMsg
use snip721_migratable.Dealer.Deserialize
use snip721_migratable.Migratable.Msg
use snip721_migratable.Migratable.Deserialize as ChildDeserialize
use snip721_migratable.Serde.{Deserializer}
use snip721_migratable.Platform.Mock.{mock, Payload, unreadable}

abbrev moved : ContractInfo
moved = record { address = "dealer"; code_hash = "moved_code_hash" }

abbrev holding : Payload → Deserializer Payload
holding b = record {
  deserialize_any = λ v. err unreadable;
  deserialize_str = λ v. err unreadable;
  deserialize_string = λ v. err unreadable;
  deserialize_bytes = λ v. v.visit_bytes b;
  deserialize_byte_buf = λ v. err unreadable;
}

dealer_reads :
    Deserialize.deserialize mock (holding (Payload.notify moved))
    ≡ ok (DealerMsg.migrate_listener (migration_complete_notification moved none))
unfolding Deserialize.deserialize Deserialize.visit_bytes
dealer_reads = refl

child_reads :
    ChildDeserialize.deserialize mock (holding (Payload.notify moved))
    ≡ ok (Msg.migrate_listener (migration_complete_notification moved none))
unfolding ChildDeserialize.deserialize ChildDeserialize.visit_bytes
child_reads = refl
