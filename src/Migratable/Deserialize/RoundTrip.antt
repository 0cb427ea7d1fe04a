-- ===== src/Migratable/Deserialize/RoundTrip.antt =====
-- The untagged messages of the token contract, written and read back.
use snip721_migratable.Base.{◌≡◌}
use snip721_migratable.Exec.{ok}
use snip721_migratable.Migratable.Msg.{ExecuteMsg, base, migrate, migrate_listener}
use snip721_migratable.Migratable.Deserialize.{serialize, visit_bytes}
use snip721_migratable.Platform.{Platform}
use snip721_migratable.Platform.Laws.{Laws}

module _ (p : Platform) (laws : Laws p) where
  open p use {types, Binary}

  -- Under the laws of the libraries, every message of the token contract is encoded, and its bytes
  -- are read as the same variant with the same payload, though the encoding has no tag and the
  -- variants are tried in turn.
  pub child_visit_bytes-serialize :
      (msg : ExecuteMsg types Binary)
      → (b : Binary) × (serialize p msg ≡ ok b) × (visit_bytes p b ≡ ok msg)
  unfolding serialize visit_bytes
  child_visit_bytes-serialize (base m) =
      let (b, he, hd) = laws.message.snip721_execute_faithful.round_trip m in (b, he, rw hd)
  child_visit_bytes-serialize (migrate m) =
      let (b, he, hd) = laws.message.migratable_execute_faithful.round_trip m in
      (b, he, rw ((laws.message.migratable_not_snip721 m b he).1, hd))
  child_visit_bytes-serialize (migrate_listener m) =
      let (b, he, hd) = laws.message.migration_listener_faithful.round_trip m in
      (
        b,
        he,
        rw (
          (laws.message.listener_not_snip721 m b he).1,
          (laws.message.listener_not_migratable m b he).1,
          hd,
        ),
      )
