-- ===== src/Dealer/Deserialize/RoundTrip.antt =====
-- The untagged messages of the dealer, written and read back.
use snip721_migratable.Base.{◌≡◌}
use snip721_migratable.Exec.{ok}
use snip721_migratable.Dealer.Msg.{ExecuteMsg, dealer, migrate, migrate_listener}
use snip721_migratable.Dealer.Deserialize.{serialize, visit_bytes}
use snip721_migratable.Platform.{Platform}
use snip721_migratable.Platform.Laws.{Laws}

module _ (p : Platform) (laws : Laws p) where
  open p use {Binary}

  -- Under the laws of the libraries, every message of the dealer is encoded, and its bytes are
  -- read as the same variant with the same payload, though the encoding has no tag and the
  -- variants are tried in turn.
  pub visit_bytes-serialize :
      (msg : ExecuteMsg Binary)
      → (b : Binary) × (serialize p msg ≡ ok b) × (visit_bytes p b ≡ ok msg)
  unfolding serialize visit_bytes
  visit_bytes-serialize (dealer m) =
      let (b, he, hd) = laws.message.dealer_execute_faithful.round_trip m in (b, he, rw hd)
  visit_bytes-serialize (migrate m) =
      let (b, he, hd) = laws.message.migratable_execute_faithful.round_trip m in
      (b, he, rw ((laws.message.migratable_not_dealer m b he).1, hd))
  visit_bytes-serialize (migrate_listener m) =
      let (b, he, hd) = laws.message.migration_listener_faithful.round_trip m in
      (
        b,
        he,
        rw (
          (laws.message.listener_not_dealer m b he).1,
          (laws.message.listener_not_migratable m b he).1,
          hd,
        ),
      )
