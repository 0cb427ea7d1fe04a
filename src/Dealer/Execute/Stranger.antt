-- ===== src/Dealer/Execute/Stranger.antt =====
-- The dealer's storage after a message from any other contract than its child.
use snip721_migratable.Base.{◌≡◌, ◌≢◌, refl}
use snip721_migratable.Exec.{ok}
use snip721_migratable.Cosmwasm.{
  CanonicalAddr, MessageInfo, Env, MigratableExecuteMsg, subscribe_to_migration_complete_event,
  migration_complete_notification,
}
use snip721_migratable.Dealer.Msg.{ExecuteMsg, dealer, migrate, migrate_listener, purchase_mint}
use snip721_migratable.Dealer.State.View.{view, load_rules, view-register}
use snip721_migratable.Dealer.Purchase.Accepts.{purchase_reads_only}
use snip721_migratable.Dealer.Child.Updates.{update_child_stranger}
use snip721_migratable.Dealer.Execute.{execute}
use snip721_migratable.Platform.{Platform}
use snip721_migratable.Platform.Laws.{Laws}

module _ (p : Platform) where
  open p use {Storage, Binary, Circumstance, addr_canonicalize}

  -- Under the laws of the libraries, with a child stored, no message of a sender whose canonical
  -- address is not that of the child changes the five items of the dealer, the child's address and
  -- code hash among them; at most the subscribers and their slots change.
  pub execute_stranger :
      (laws : Laws p) (env : Env Circumstance) (info : MessageInfo) (msg : ExecuteMsg Binary)
      (s : Storage) (sender child : CanonicalAddr)
      → (view p s).address ≡ ok child
      → addr_canonicalize info.sender ≡ ok sender
      → sender ≢ child
      → let s' = (execute p env info msg s).1 in
        view p s'
        ≡ record (view p s) { subscribed = (view p s').subscribed; slots = (view p s').slots }
  unfolding execute
  execute_stranger laws env info (dealer purchase_mint) s sender child hc hs ne =
      rw (purchase_reads_only p info s)
  execute_stranger laws env info (migrate (subscribe_to_migration_complete_event a x)) s _ _ _ _ _ =
      view-register p laws a x s
  execute_stranger laws env info (migrate (MigratableExecuteMsg.other x)) s _ _ _ _ _ = refl
  execute_stranger laws env info (migrate_listener (migration_complete_notification to x)) s sender
        child hc hs ne =
      rw (update_child_stranger p info to s sender child (simp load_rules hc) hs ne)
