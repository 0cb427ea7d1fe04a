-- ===== src/System/ChildMoves.antt =====
-- A migration of the child, and what it changes in its dealer.
use snip721_migratable.Base.{String, ◌≡◌, none, [], ◌∷◌, ◌++◌, map}
use snip721_migratable.Exec.{ok, continue, lift, ◌>>=◌}
use snip721_migratable.Cosmwasm.{
  CanonicalContractInfo, never, ContractInfo, MessageInfo, migration_complete_notification,
}
use snip721_migratable.Dealer.Msg.{DealerState, migrate_listener}
use snip721_migratable.Dealer.Deserialize.{visit_bytes}
use snip721_migratable.Dealer.Execute.{execute}
use snip721_migratable.Dealer.Child.{update_child_snip721}
use snip721_migratable.Dealer.Child.Updates.{update_child_stores}
use snip721_migratable.Dealer.State.View.{view}
use snip721_migratable.Migratable.Migrate.Notifies.{migrate_tells}
use snip721_migratable.Platform.{Platform}
use snip721_migratable.Platform.Laws.{Laws, Sends, replace}
use snip721_migratable.System.{Pair, migrate_child, enter_dealer, env_of}
use snip721_migratable.System.Knows.{humanized, Knows-replace}
use snip721_migratable.System.Delivers.{deliver_among}
use snip721_migratable.System.Linked.{Linked}

module _ (p : Platform) (d : DealerState p.types) (laws : Laws p) where
  open p use {Storage, Binary, Circumstance, into_humanized}

  -- The dealer reads a notification as such.
  dealer_reads :
      (to : ContractInfo) (b : Binary)
      → p.migration_listener_json.encode (migration_complete_notification to none) ≡ ok b
      → p.migration_listener_json.decode b ≡ ok (migration_complete_notification to none)
      → visit_bytes p b ≡ ok (migrate_listener (migration_complete_notification to none))
  unfolding visit_bytes
  dealer_reads to b he hd = rw (
    (laws.message.listener_not_dealer _ b he).1,
    (laws.message.listener_not_migratable _ b he).1,
    hd,
  )

  module _ (c : Circumstance) (h : String) (w : Pair p) (linked : Linked p d w) where
    abbrev pub moved_child : ContractInfo
    moved_child = record { address = w.child.address; code_hash = h }

    abbrev pub child_info : MessageInfo
    child_info = record { sender = w.child.address; funds = [] }

    abbrev pub child_moved : Pair p
    child_moved = record w {
      child = moved_child;
      dealer_storage = (update_child_snip721 p child_info moved_child w.dealer_storage).1;
    }

    abbrev new_child : CanonicalContractInfo
    new_child = record { address = linked.rep.raw_child; code_hash = h }

    child_updates :
        Sends p (update_child_snip721 p child_info moved_child w.dealer_storage).0 []
        × (view p child_moved.dealer_storage ≡ record (view p w.dealer_storage) {
          address = ok linked.rep.raw_child;
          code_hash = ok h;
          subscribed = ok (map (replace linked.rep.raw_child new_child) linked.dealer_subscribers);
        })
    child_updates =
        let raw = linked.rep.raw_child in
        update_child_stores p laws child_info moved_child w.dealer_storage raw raw
          linked.dealer_subscribers linked.rep.address linked.rep.child_form.canonicalized
          linked.rep.child_form.canonicalized linked.dealer_lists

    dealer_enters :
        (b : Binary)
        → visit_bytes p b ≡ ok (migrate_listener (migration_complete_notification moved_child none))
        → enter_dealer p
            (env_of p c w.dealer.address w.dealer.code_hash)
            w.child.address
            b
            w.dealer_storage
          ≡ update_child_snip721 p child_info moved_child w.dealer_storage
    unfolding enter_dealer execute
    dealer_enters b hb = rw (hb, continue, ◌>>=◌, lift)

    pub migrate_child_eq : migrate_child p c h w ≡ ok child_moved
    unfolding migrate_child
    migrate_child_eq =
        let (before, after, told, hb, ha) =
          humanized p laws w.dealer.address linked.raw_dealer linked.dealer_form
            linked.child_subscribers w.dealer.code_hash linked.knows_dealer in
        let (b, he, hd, sends, _) =
          migrate_tells p laws (env_of p c w.child.address h) w.child_storage
            linked.child_subscribers (before ++ w.dealer ∷ after) (rw linked.child_lists) told in
        let enters = dealer_enters b (dealer_reads moved_child b he hd) in
        let updated = child_updates.0.1 in
        let delivered =
          deliver_among p w.dealer
            (enter_dealer p (env_of p c w.dealer.address w.dealer.code_hash) w.child.address) never
            0 b before after child_updates.0.0 w.dealer_storage hb ha (rw enters updated) in
        simp (sends.1, sends.2, delivered, enters)

    pub child_moved-Linked : Linked p d child_moved
    child_moved-Linked = record {
      raw_dealer = linked.raw_dealer;
      dealer_form = linked.dealer_form;
      rep = record {
        raw_admin = linked.rep.raw_admin;
        raw_child = linked.rep.raw_child;
        admin_form = linked.rep.admin_form;
        child_form = linked.rep.child_form;
        admin = rw child_updates.1 linked.rep.admin;
        address = rw child_updates.1;
        code_hash = rw child_updates.1;
        prices = rw child_updates.1 linked.rep.prices;
        metadata = rw child_updates.1 linked.rep.metadata;
      };
      dealer_subscribers = map (replace linked.rep.raw_child new_child) linked.dealer_subscribers;
      dealer_lists = rw child_updates.1;
      knows_child =
          Knows-replace p linked.dealer_subscribers linked.rep.raw_child w.child.code_hash h
            linked.knows_child;
      child_subscribers = linked.child_subscribers;
      child_lists = linked.child_lists;
      knows_dealer = linked.knows_dealer;
    }
