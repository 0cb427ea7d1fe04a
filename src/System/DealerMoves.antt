-- ===== src/System/DealerMoves.antt =====
-- A migration of the dealer, and what it changes in its child.
use snip721_migratable.Base.{String, ◌≡◌, none, [], ◌∷◌, ◌++◌, map}
use snip721_migratable.Exec.{ok, continue, lift, ◌>>=◌}
use snip721_migratable.Cosmwasm.{
  CanonicalContractInfo, never, ContractInfo, MessageInfo, migration_complete_notification,
}
use snip721_migratable.Dealer.Msg.{DealerState}
use snip721_migratable.Dealer.Migrate.Notifies.{migrate_notifies}
use snip721_migratable.Dealer.State.View.{load_rules}
use snip721_migratable.Migratable.Msg as ChildMsg
use snip721_migratable.Migratable.Deserialize as ChildDeserialize
use snip721_migratable.Migratable.Contract
use snip721_migratable.Migratable.Contract.{update_migrated_dependency}
use snip721_migratable.Migratable.Contract.Notified.{update_dependency_stores}
use snip721_migratable.Platform.{Platform, subscribers}
use snip721_migratable.Platform.Laws.{Laws, Sends, replace}
use snip721_migratable.System.{Pair, migrate_dealer, enter_child, env_of}
use snip721_migratable.System.Knows.{humanized, Knows-replace}
use snip721_migratable.System.Delivers.{deliver_among}
use snip721_migratable.System.Linked.{Linked}

module _ (p : Platform) (d : DealerState p.types) (laws : Laws p) where
  open p use {Storage, Binary, Circumstance, into_humanized}

  -- The token contract reads a notification as such.
  child_reads :
      (to : ContractInfo) (b : Binary)
      → p.migration_listener_json.encode (migration_complete_notification to none) ≡ ok b
      → p.migration_listener_json.decode b ≡ ok (migration_complete_notification to none)
      → ChildDeserialize.visit_bytes p b
        ≡ ok (ChildMsg.migrate_listener (migration_complete_notification to none))
  unfolding ChildDeserialize.visit_bytes
  child_reads to b he hd = rw (
    (laws.message.listener_not_snip721 _ b he).1,
    (laws.message.listener_not_migratable _ b he).1,
    hd,
  )

  module _ (c : Circumstance) (h : String) (w : Pair p) (linked : Linked p d w) where
    abbrev pub moved_dealer : ContractInfo
    moved_dealer = record { address = w.dealer.address; code_hash = h }

    abbrev pub dealer_info : MessageInfo
    dealer_info = record { sender = w.dealer.address; funds = [] }

    abbrev pub dealer_moved : Pair p
    dealer_moved = record w {
      dealer = moved_dealer;
      child_storage = (update_migrated_dependency p dealer_info moved_dealer w.child_storage).1;
    }

    abbrev new_dealer : CanonicalContractInfo
    new_dealer = record { address = linked.raw_dealer; code_hash = h }

    dealer_updates :
        Sends p (update_migrated_dependency p dealer_info moved_dealer w.child_storage).0 []
        × ((subscribers p).load dealer_moved.child_storage
            ≡ ok (map (replace linked.raw_dealer new_dealer) linked.child_subscribers))
    dealer_updates =
        let raw = linked.raw_dealer in
        update_dependency_stores p laws dealer_info moved_dealer w.child_storage raw raw
          linked.child_subscribers linked.dealer_form.canonicalized linked.dealer_form.canonicalized
          linked.child_lists

    child_enters :
        (b : Binary)
        → ChildDeserialize.visit_bytes p b
          ≡ ok (ChildMsg.migrate_listener (migration_complete_notification moved_dealer none))
        → enter_child p
            (env_of p c w.child.address w.child.code_hash)
            w.dealer.address
            b
            w.child_storage
          ≡ update_migrated_dependency p dealer_info moved_dealer w.child_storage
    unfolding enter_child Contract.execute
    child_enters b hb = rw (hb, continue, ◌>>=◌, lift)

    pub migrate_dealer_eq : migrate_dealer p c h w ≡ ok dealer_moved
    unfolding migrate_dealer
    migrate_dealer_eq =
        let (before, after, told, hb, ha) =
          humanized p laws w.child.address linked.rep.raw_child linked.rep.child_form
            linked.dealer_subscribers w.child.code_hash linked.knows_child in
        let (b, he, hd, sends, _) =
          migrate_notifies p laws (env_of p c w.dealer.address h) w.dealer_storage
            linked.dealer_subscribers (simp load_rules (rw linked.dealer_lists))
            (before ++ w.child ∷ after) told in
        let enters = child_enters b (child_reads moved_dealer b he hd) in
        let updated = dealer_updates.0.1 in
        let delivered =
          deliver_among p w.child
            (enter_child p (env_of p c w.child.address w.child.code_hash) w.dealer.address) never 0
            b before after dealer_updates.0.0 w.child_storage hb ha (rw enters updated) in
        simp (sends.1, sends.2, delivered, enters)

    pub dealer_moved-Linked : Linked p d dealer_moved
    dealer_moved-Linked = record {
      raw_dealer = linked.raw_dealer;
      dealer_form = linked.dealer_form;
      rep = linked.rep;
      dealer_subscribers = linked.dealer_subscribers;
      dealer_lists = linked.dealer_lists;
      knows_child = linked.knows_child;
      child_subscribers = map (replace linked.raw_dealer new_dealer) linked.child_subscribers;
      child_lists = dealer_updates.1;
      knows_dealer =
          Knows-replace p linked.child_subscribers linked.raw_dealer w.dealer.code_hash h
            linked.knows_dealer;
    }
