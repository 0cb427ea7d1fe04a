-- ===== src/System/ChildCalled.antt =====
-- The child called by others than its dealer.
use snip721_migratable.Base.{◌≡◌, sym, ◌∙◌, List, map}
use snip721_migratable.Exec.{ok, commit, commit_keeps}
use snip721_migratable.Cosmwasm.{
  CanonicalContractInfo, ContractInfo, MessageInfo, Env, MigratableExecuteMsg,
  subscribe_to_migration_complete_event, migration_complete_notification,
}
use snip721_migratable.Dealer.Msg.{DealerState}
use snip721_migratable.Migratable.Msg
use snip721_migratable.Migratable.Contract
use snip721_migratable.Migratable.Contract.{update_migrated_dependency}
use snip721_migratable.Migratable.Contract.Notified.{update_dependency_stores}
use snip721_migratable.Platform.{Platform, subscribers}
use snip721_migratable.Platform.Laws.{Laws, replace}
use snip721_migratable.Platform.History.{SubscriptionLaws, CollectionLaws}
use snip721_migratable.System.{Pair}
use snip721_migratable.System.Knows.{Knows, Knows-others}
use snip721_migratable.System.Linked.{Linked}
use snip721_migratable.System.Events.{Other, ChildAllows}
use snip721_migratable.System.Accounts.{apart_raw, subscribe-Knows}

module _ (p : Platform) (d : DealerState p.types) (laws : Laws p) (subs : SubscriptionLaws p)
    (collection : CollectionLaws p) where
  open p use {types, Storage, Binary, Circumstance}

  module _ (w : Pair p) (linked : Linked p d w) where
    pub child_writes :
        (t : Storage) (l : List CanonicalContractInfo)
        → (subscribers p).load t ≡ ok l
        → Knows p l linked.raw_dealer w.dealer.code_hash
        → Linked p d (record w { child_storage = t })
    child_writes t l lists k = record {
      raw_dealer = linked.raw_dealer;
      dealer_form = linked.dealer_form;
      rep = linked.rep;
      dealer_subscribers = linked.dealer_subscribers;
      dealer_lists = linked.dealer_lists;
      knows_child = linked.knows_child;
      child_subscribers = l;
      child_lists = lists;
      knows_dealer = k;
    }

    moved_other :
        (info : MessageInfo) (to : ContractInfo)
        → Other p w.dealer.address info.sender
        → Other p w.dealer.address to.address
        → Linked p d
            (record w { child_storage = (update_migrated_dependency p info to w.child_storage).1 })
    moved_other info to (from, from_form, from_apart) (raw, form, apart) =
        let new : CanonicalContractInfo = record { address = raw; code_hash = to.code_hash } in
        let updated =
          update_dependency_stores p laws info to w.child_storage from raw linked.child_subscribers
            from_form.canonicalized form.canonicalized linked.child_lists in
        child_writes _ (map (replace from new) linked.child_subscribers) updated.1 (
          Knows-others p linked.child_subscribers linked.raw_dealer w.dealer.code_hash from new
            (λ e.
              apart_raw p info.sender w.dealer.address from linked.raw_dealer from_form
                linked.dealer_form from_apart (sym e))
            (apart_raw p to.address w.dealer.address raw linked.raw_dealer form linked.dealer_form
              apart)
            (to.address, form) linked.knows_dealer)

    pub child_called-Linked :
        (env : Env Circumstance) (info : MessageInfo) (msg : Msg.ExecuteMsg types Binary)
        → ChildAllows p w info msg
        → Linked p d (record w {
          child_storage = commit (Contract.execute p env info msg w.child_storage) w.child_storage;
        })
    unfolding Contract.execute
    child_called-Linked env info (Msg.base msg) allowed =
        let (same, _) = collection.execute_keeps env info msg w.child_storage in
        commit_keeps (λ t. Linked p d (record w { child_storage = t }))
          (p.snip721_execute env info msg w.child_storage) w.child_storage linked
          (λ r done.
            child_writes _ linked.child_subscribers (same ∙ linked.child_lists) linked.knows_dealer)
    child_called-Linked env info (Msg.migrate (subscribe_to_migration_complete_event a h)) allowed =
        commit_keeps (λ t. Linked p d (record w { child_storage = t }))
          (p.register_to_notify_on_migration_complete a h w.child_storage) w.child_storage linked
          (λ r done.
            let (l, lists, k) =
              subscribe-Knows p subs a h w.child_storage linked.child_subscribers linked.raw_dealer
                w.dealer.code_hash r linked.child_lists allowed linked.knows_dealer done in
            child_writes _ l lists k)
    child_called-Linked env info (Msg.migrate (MigratableExecuteMsg.other x)) allowed = linked
    child_called-Linked env info (Msg.migrate_listener (migration_complete_notification to x))
          allowed =
        commit_keeps (λ t. Linked p d (record w { child_storage = t }))
          (update_migrated_dependency p info to w.child_storage) w.child_storage linked
          (λ r done. moved_other info to allowed.0 allowed.1)
