-- ===== src/System/DealerCalled.antt =====
-- The dealer called by others than its child.
use mathlib.Core.Path.{subst}
use snip721_migratable.Base.{◌≡◌, sym, List}
use snip721_migratable.Exec.{ok, commit, commit_keeps, commit_reads}
use snip721_migratable.Cosmwasm.{
  CanonicalContractInfo, MessageInfo, Env, MigratableExecuteMsg,
  subscribe_to_migration_complete_event, migration_complete_notification,
}
use snip721_migratable.Dealer.Msg as DealerMsg
use snip721_migratable.Dealer.Msg.{DealerState}
use snip721_migratable.Dealer.Execute
use snip721_migratable.Dealer.Child.Updates.{update_child_stranger}
use snip721_migratable.Dealer.Purchase.{purchase_and_mint}
use snip721_migratable.Dealer.Purchase.Accepts.{purchase_reads_only}
use snip721_migratable.Dealer.State.View.{view, load_rules, load_subscribed, view-register}
use snip721_migratable.Platform.{Platform}
use snip721_migratable.Platform.Laws.{Laws}
use snip721_migratable.Platform.History.{SubscriptionLaws}
use snip721_migratable.System.{Pair}
use snip721_migratable.System.Knows.{Knows}
use snip721_migratable.System.Linked.{Linked}
use snip721_migratable.System.Events.{DealerAllows}
use snip721_migratable.System.Accounts.{apart_raw, subscribe-Knows}

module _ (p : Platform) (d : DealerState p.types) (laws : Laws p) (subs : SubscriptionLaws p) where
  open p use {types, Storage, Binary, Circumstance}

  module _ (w : Pair p) (linked : Linked p d w) where
    dealer_writes :
        (t : Storage) (l : List CanonicalContractInfo)
        → view p t ≡ record (view p w.dealer_storage) {
          subscribed = (view p t).subscribed;
          slots = (view p t).slots;
        }
        → (view p t).subscribed ≡ ok l
        → Knows p l linked.rep.raw_child w.child.code_hash
        → Linked p d (record w { dealer_storage = t })
    dealer_writes t l same lists k = record {
      raw_dealer = linked.raw_dealer;
      dealer_form = linked.dealer_form;
      rep = record {
        raw_admin = linked.rep.raw_admin;
        raw_child = linked.rep.raw_child;
        admin_form = linked.rep.admin_form;
        child_form = linked.rep.child_form;
        admin = rw same linked.rep.admin;
        address = rw same linked.rep.address;
        code_hash = rw same linked.rep.code_hash;
        prices = rw same linked.rep.prices;
        metadata = rw same linked.rep.metadata;
      };
      dealer_subscribers = l;
      dealer_lists = lists;
      knows_child = k;
      child_subscribers = linked.child_subscribers;
      child_lists = linked.child_lists;
      knows_dealer = linked.knows_dealer;
    }

    pub dealer_called-Linked :
        (env : Env Circumstance) (info : MessageInfo) (msg : DealerMsg.ExecuteMsg Binary)
        → DealerAllows p w info msg
        → Linked p d (record w {
          dealer_storage =
              commit (Execute.execute p env info msg w.dealer_storage) w.dealer_storage;
        })
    unfolding Execute.execute
    dealer_called-Linked env info (DealerMsg.dealer DealerMsg.purchase_mint) allowed =
        let reads = purchase_reads_only p info w.dealer_storage in
        subst (λ t. Linked p d (record w { dealer_storage = t }))
          (sym (commit_reads (purchase_and_mint p info w.dealer_storage) w.dealer_storage reads))
          linked
    dealer_called-Linked env info (DealerMsg.migrate (subscribe_to_migration_complete_event a h))
          allowed =
        commit_keeps (λ t. Linked p d (record w { dealer_storage = t }))
          (p.register_to_notify_on_migration_complete a h w.dealer_storage) w.dealer_storage linked
          (λ r done.
            let (l, lists, k) =
              subscribe-Knows p subs a h w.dealer_storage linked.dealer_subscribers
                linked.rep.raw_child w.child.code_hash r (simp load_rules linked.dealer_lists)
                allowed linked.knows_child done in
            dealer_writes _ l (view-register p laws a h w.dealer_storage)
              (simp (← load_subscribed) lists) k)
    dealer_called-Linked env info (DealerMsg.migrate (MigratableExecuteMsg.other x)) allowed =
        linked
    dealer_called-Linked env info
          (DealerMsg.migrate_listener (migration_complete_notification to x)) allowed =
        let (raw, form, apart) = allowed in
        let refused =
          update_child_stranger p info to w.dealer_storage raw linked.rep.raw_child
            (simp load_rules linked.rep.address) form.canonicalized
            (apart_raw p info.sender w.child.address raw linked.rep.raw_child form
              linked.rep.child_form apart) in
        subst (λ e. Linked p d (record w { dealer_storage = commit e w.dealer_storage }))
          (sym refused) linked
