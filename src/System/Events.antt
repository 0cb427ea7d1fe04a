-- ===== src/System/Events.antt =====
-- What may happen to a dealer and its child: migrations, and messages from any other account.
use snip721_migratable.Base.{String, ◌≡◌, ◌≢◌, List}
use snip721_migratable.Exec.{ok, commit}
use snip721_migratable.Cosmwasm.{
  Addr, CanonicalAddr, CanonicalContractInfo, MessageInfo, Env, MigratableExecuteMsg,
  subscribe_to_migration_complete_event, migration_complete_notification,
}
use snip721_migratable.Dealer.Msg as DealerMsg
use snip721_migratable.Dealer.Execute
use snip721_migratable.Migratable.Msg
use snip721_migratable.Migratable.Contract
use snip721_migratable.Migratable.Contract.Notified.{Lacks}
use snip721_migratable.Platform.{Platform, subscribers}
use snip721_migratable.Platform.Laws.{Canonical}
use snip721_migratable.System.{Pair, migrate_dealer, migrate_child, buy}

module _ (p : Platform) where
  open p use {types, Storage, Binary, Circumstance}

  -- An address of another account than `peer`.
  abbrev pub Other : Addr → Addr → Type 0
  Other peer a = (raw : CanonicalAddr) × Canonical p a raw × (a ≢ peer)

  -- An address that is no subscriber.
  abbrev pub Fresh : Storage → String → Type 0
  Fresh s a =
      (raw : CanonicalAddr) × Canonical p a raw
      × (l : List CanonicalContractInfo) × ((subscribers p).load s ≡ ok l)
      × Lacks raw l

  abbrev pub MigrateAllows : Storage → MigratableExecuteMsg → Type 0
  MigrateAllows s (subscribe_to_migration_complete_event address _) = Fresh s address
  MigrateAllows s (MigratableExecuteMsg.other _) = Unit

  -- The dealer is called by anyone, but notified by another account than its child.
  abbrev pub DealerAllows : Pair p → MessageInfo → DealerMsg.ExecuteMsg Binary → Type 0
  DealerAllows w info (DealerMsg.dealer _) = Unit
  DealerAllows w info (DealerMsg.migrate msg) = MigrateAllows w.dealer_storage msg
  DealerAllows w info (DealerMsg.migrate_listener _) = Other w.child.address info.sender

  -- The child is called by anyone, but notified by another account than its dealer, that did not
  -- move to the dealer's address.
  abbrev pub ChildAllows : Pair p → MessageInfo → Msg.ExecuteMsg types Binary → Type 0
  ChildAllows w info (Msg.base _) = Unit
  ChildAllows w info (Msg.migrate msg) = MigrateAllows w.child_storage msg
  ChildAllows w info (Msg.migrate_listener (migration_complete_notification to _)) =
      Other w.dealer.address info.sender × Other w.dealer.address to.address

  -- One transaction; the writes of a call that fails are dropped.
  pub data Event (w : Pair p) : Pair p → Type 0 where
    dealer_moves :
        (c : Circumstance) (h : String) {w' : Pair p} → migrate_dealer p c h w ≡ ok w' → Event w w'
    child_moves :
        (c : Circumstance) (h : String) {w' : Pair p} → migrate_child p c h w ≡ ok w' → Event w w'
    bought :
        (c : Circumstance) (info : MessageInfo) {w' : Pair p} → buy p c info w ≡ ok w' → Event w w'
    dealer_called :
        (env : Env Circumstance) (info : MessageInfo) (msg : DealerMsg.ExecuteMsg Binary)
        → DealerAllows w info msg
        → Event w (record w {
          dealer_storage =
              commit (Execute.execute p env info msg w.dealer_storage) w.dealer_storage;
        })
    child_called :
        (env : Env Circumstance) (info : MessageInfo) (msg : Msg.ExecuteMsg types Binary)
        → ChildAllows w info msg
        → Event w (record w {
          child_storage = commit (Contract.execute p env info msg w.child_storage) w.child_storage;
        })

  pub data History (w : Pair p) : Pair p → Type 0 where
    here : History w w
    next : {w' w'' : Pair p} → History w w' → Event w' w'' → History w w''
