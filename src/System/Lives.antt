-- ===== src/System/Lives.antt =====
-- The dealer and its child through any history.
use mathlib.Core.Path.{subst}
use snip721_migratable.Base.{◌≡◌, ◌↔◌, refl, [], ◌∷◌, ap, sym, ◌∙◌}
use snip721_migratable.Dealer.Msg.{DealerState, dealer, purchase_mint}
use snip721_migratable.Platform.{Platform}
use snip721_migratable.Platform.Laws.{Laws, Sends}
use snip721_migratable.Platform.History.{SubscriptionLaws, CollectionLaws}
use snip721_migratable.System.{Pair}
use snip721_migratable.System.Mints.{purchase_mints}
use snip721_migratable.System.Sales.{sale}
use snip721_migratable.Dealer.Execute
use snip721_migratable.Dealer.Purchase.Terms.{FirstPrice}
use snip721_migratable.Dealer.Purchase.Accepts.{purchase_iff}
use snip721_migratable.Exec.{ok}
use snip721_migratable.Cosmwasm.{Coin, Env, MessageInfo}
use snip721_migratable.System.Linked.{Linked}
use snip721_migratable.System.Events.{
  Event, dealer_moves, child_moves, bought, dealer_called, child_called, History, here, next,
}
use snip721_migratable.System.ChildMoves.{child_moved, migrate_child_eq, child_moved-Linked}
use snip721_migratable.System.DealerMoves.{dealer_moved, migrate_dealer_eq, dealer_moved-Linked}
use snip721_migratable.System.DealerCalled.{dealer_called-Linked}
use snip721_migratable.System.ChildCalled.{child_called-Linked, child_writes}
use snip721_migratable.System.Buys.{minted, buy_iff}

module _ (p : Platform) (d : DealerState p.types) (laws : Laws p) (subs : SubscriptionLaws p)
    (collection : CollectionLaws p) where
  minted-Linked :
      (c : p.Circumstance) (info : MessageInfo) (w : Pair p) (linked : Linked p d w)
      → Linked p d (record w { child_storage = (minted p d laws c info w linked).1 })
  minted-Linked c info w linked =
      let (kept, _) = collection.execute_keeps _ _ _ w.child_storage in
      child_writes p d laws subs collection w linked (minted p d laws c info w linked).1
        linked.child_subscribers (kept ∙ linked.child_lists) linked.knows_dealer

  Event-Linked :
      {w w' : Pair p}
      → Event p w w'
      → Linked p d w
      → Linked p d w'
        × (w'.dealer.address ≡ w.dealer.address)
        × (w'.child.address ≡ w.child.address)
  Event-Linked {w} (dealer_moves c h {w'} run) linked =
      let moved : dealer_moved p d laws c h w linked ≡ w' =
        cc (run, migrate_dealer_eq p d laws c h w linked) in
      (
        subst (Linked p d) moved (dealer_moved-Linked p d laws c h w linked),
        ap (λ (v : Pair p). v.dealer.address) (sym moved),
        ap (λ (v : Pair p). v.child.address) (sym moved),
      )
  Event-Linked {w} (child_moves c h {w'} run) linked =
      let moved : child_moved p d laws c h w linked ≡ w' =
        cc (run, migrate_child_eq p d laws c h w linked) in
      (
        subst (Linked p d) moved (child_moved-Linked p d laws c h w linked),
        ap (λ (v : Pair p). v.dealer.address) (sym moved),
        ap (λ (v : Pair p). v.child.address) (sym moved),
      )
  Event-Linked {w} (bought c info {w'} run) linked =
      let (_, _, _, _, _, same) = (buy_iff p d laws c info w linked w').0 run in
      (
        subst (Linked p d) (sym same) (minted-Linked c info w linked),
        ap (λ (v : Pair p). v.dealer.address) same,
        ap (λ (v : Pair p). v.child.address) same,
      )
  Event-Linked {w} (dealer_called env info msg allowed) linked =
      (dealer_called-Linked p d laws subs w linked env info msg allowed, refl, refl)
  Event-Linked {w} (child_called env info msg allowed) linked =
      (child_called-Linked p d laws subs collection w linked env info msg allowed, refl, refl)

  -- Under the laws of the libraries, linked contracts stay linked, on the same terms of sale and
  -- at their old addresses, through any history: migrations of either of them with every
  -- notification delivered, and messages from any account to either of them, failing or not, such
  -- as purchases (alone, or as one transaction with the mint), messages to the collection,
  -- subscriptions of accounts that are no subscribers yet, notifications to the dealer from others
  -- than its child, and notifications to the child from others than its dealer that do not claim
  -- the dealer's address. Each contract keeps knowing the other, by its present code hash, among
  -- any number of other subscribers.
  pub History-Linked :
      {w w' : Pair p}
      → History p w w'
      → Linked p d w
      → Linked p d w'
        × (w'.dealer.address ≡ w.dealer.address)
        × (w'.child.address ≡ w.child.address)
  History-Linked here linked = (linked, refl, refl)
  History-Linked (next past event) linked =
      let (linked', dealer_is, child_is) = History-Linked past linked in
      let (linked'', dealer_stays, child_stays) = Event-Linked event linked' in
      (linked'', dealer_stays ∙ dealer_is, child_stays ∙ child_is)

  -- Under the laws of the libraries, after any such history of linked contracts a purchase with
  -- the first listed price of a denom as its only funds succeeds: the coin goes to the dealer's
  -- admin, and some bytes to the child at its old address and its present code hash.
  pub purchase_after-History :
      {w w' : Pair p}
      → History p w w'
      → Linked p d w
      → (env : Env p.Circumstance) (info : MessageInfo) (c : Coin) → info.funds ≡ c ∷ []
      → FirstPrice d.prices c
      → (w'.child.address ≡ w.child.address)
        × (bytes : p.Binary) × Sends p
            (Execute.execute p env info (dealer purchase_mint) w'.dealer_storage).0
            (sale p d w'.child c bytes)
  purchase_after-History {w} {w'} past linked env info c hf hp =
      let (linked', _, child_is) = History-Linked past linked in
      let (bytes, sends, _) = purchase_mints p laws d w' linked' env info c hf hp in
      (child_is, bytes, sends)

  -- Under the laws of the libraries, after any such history of linked contracts a purchase goes
  -- through exactly when one coin is sent and the coin is the first listed price of its denom, in
  -- the prices that the dealer started with: nothing that happened in between lowers a price or
  -- stops the sales.
  pub purchase_iff_after-History :
      {w w' : Pair p}
      → History p w w'
      → Linked p d w
      → (env : Env p.Circumstance) (info : MessageInfo)
      → ((r : p.Response) × ((Execute.execute p env info (dealer purchase_mint) w'.dealer_storage).0
            ≡ ok r))
        ↔ ((c : Coin) × (info.funds ≡ c ∷ []) × FirstPrice d.prices c)
  unfolding Execute.execute
  purchase_iff_after-History {w} {w'} past linked env info =
      let (linked', _, _) = History-Linked past linked in
      purchase_iff p laws info w'.dealer_storage
        (record d {
          child_snip721_address = w'.child.address;
          child_snip721_code_hash = w'.child.code_hash;
        })
        linked'.rep
