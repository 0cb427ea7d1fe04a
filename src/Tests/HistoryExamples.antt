-- ===== src/Tests/HistoryExamples.antt =====
-- The theorems on long histories at a concrete history.
use snip721_migratable.Base.{◌≡◌, ◌≢◌, ◌↔◌, refl, inl, none, [], ◌∷◌, arith, eq_iff}
use snip721_migratable.Cosmwasm.{
  Coin, ContractInfo, MessageInfo, subscribe_to_migration_complete_event,
  migration_complete_notification,
}
use snip721_migratable.Dealer.Msg as DealerMsg
use snip721_migratable.Dealer.Execute
use snip721_migratable.Dealer.Instantiate.Owner.{by_default}
use snip721_migratable.Migratable.Msg
use snip721_migratable.Migratable.Contract
use snip721_migratable.Dealer.Purchase.Terms.{FirstPrice}
use snip721_migratable.Exec.{ok, commit}
use snip721_migratable.Platform.Laws.{Canonical, Sends}
use snip721_migratable.Platform.Mock.{mock, Payload}
use snip721_migratable.Platform.Mock.Lawful.{
  mock_laws, mock_minty, mock_admin, mock_child, mock_dealer,
}
use snip721_migratable.Platform.Mock.Remembering.{mock_subscription, mock_collection}
use snip721_migratable.System.{Pair, buy}
use snip721_migratable.System.Buys.{minted, buy_iff}
use snip721_migratable.System.DealerMoves.{dealer_moved, migrate_dealer_eq}
use snip721_migratable.System.Events.{
  History, here, next, dealer_moves, bought, dealer_called, child_called,
}
use snip721_migratable.System.Linked.{Linked}
use snip721_migratable.System.Lives.{
  History-Linked, purchase_after-History, purchase_iff_after-History,
}
use snip721_migratable.System.Sales.{sale}
use snip721_migratable.System.Handshake.{met, sells_for_life}
use snip721_migratable.Tests.Fixtures.{
  mock_info, scrt_price, dealer_env, child_env, terms_here, met_pair, met_linked, child_storage,
  admin_msg_info, priced_msg, successful_child_snip721_instantiate_response, child_snip721_address,
  some_price, fresh_lists, fresh_room,
}

mock_creator : Canonical mock "creator" (5 ∷ [])
mock_creator = record { canonicalized = refl; humanized = refl }

abbrev paying : MessageInfo
paying = mock_info "minty" (scrt_price ∷ [])

abbrev moved : ContractInfo
moved = record { address = "creator"; code_hash = "v2" }

minty_ne_dealer : (mock_info "minty" []).sender ≢ "dealer"
minty_ne_dealer = λ e. ground (arith, eq_iff "minty" "dealer")

creator_ne_dealer : moved.address ≢ "dealer"
creator_ne_dealer = λ e. ground (arith, eq_iff "creator" "dealer")

-- Another contract subscribes to the child's migrations, and moves.
abbrev subscription : Msg.ExecuteMsg mock.types mock.Binary
subscription = Msg.migrate (subscribe_to_migration_complete_event "minty" "v1")

abbrev notice : Msg.ExecuteMsg mock.types mock.Binary
notice = Msg.migrate_listener (migration_complete_notification moved none)

abbrev with_minty : Pair mock
with_minty = record met_pair {
  child_storage =
      commit (Contract.execute mock child_env paying subscription child_storage) child_storage;
}

abbrev with_creator : Pair mock
with_creator = record with_minty {
  child_storage =
      commit
        (Contract.execute mock child_env (mock_info "minty" []) notice with_minty.child_storage)
        with_minty.child_storage;
}

till_moved : History mock met_pair with_creator
till_moved =
    next
      (next here (
        child_called child_env paying subscription
          (4 ∷ [], mock_minty, _, refl, (λ e. ground arith, tt))))
      (child_called child_env (mock_info "minty" []) notice
        ((4 ∷ [], mock_minty, minty_ne_dealer), (5 ∷ [], mock_creator, creator_ne_dealer)))

linked_till_moved : Linked mock terms_here with_creator
linked_till_moved =
    (History-Linked mock terms_here mock_laws mock_subscription mock_collection till_moved
      met_linked).0

-- A mint is sold.
abbrev after_sale : Pair mock
after_sale = record with_creator {
  child_storage = (minted mock terms_here mock_laws 0 paying with_creator linked_till_moved).1;
}

buy_iff_example : (buy mock 0 paying with_creator ≡ ok after_sale) ↔ (
    (c : Coin) × (paying.funds ≡ c ∷ [])
    × FirstPrice terms_here.prices c
    × (r : mock.Response) × ((minted mock terms_here mock_laws 0 paying with_creator
          linked_till_moved).0
        ≡ ok r)
    × (after_sale ≡ after_sale))
buy_iff_example =
    buy_iff mock terms_here mock_laws 0 paying with_creator linked_till_moved after_sale

sold : buy mock 0 paying with_creator ≡ ok after_sale
sold =
    (buy_iff mock terms_here mock_laws 0 paying with_creator linked_till_moved after_sale).1
      (scrt_price, refl, inl refl, [], refl, refl)

till_sale : History mock met_pair after_sale
till_sale = next till_moved (bought 0 paying sold)

-- The dealer moves at last.
linked_till_sale : Linked mock terms_here after_sale
linked_till_sale =
    (History-Linked mock terms_here mock_laws mock_subscription mock_collection till_sale
      met_linked).0

abbrev at_last : Pair mock
at_last = dealer_moved mock terms_here mock_laws 0 "v3" after_sale linked_till_sale

till_last : History mock met_pair at_last
till_last = next till_sale (
    dealer_moves 0 "v3"
      (migrate_dealer_eq mock terms_here mock_laws 0 "v3" after_sale linked_till_sale))

History-Linked_example :
    Linked mock terms_here at_last
    × (at_last.dealer.address ≡ "dealer")
    × (at_last.child.address ≡ "child_snip721_addr")
History-Linked_example =
    History-Linked mock terms_here mock_laws mock_subscription mock_collection till_last met_linked

purchase_after-History_example :
    (at_last.child.address ≡ "child_snip721_addr")
    × (bytes : Payload) × Sends mock
        (Execute.execute mock dealer_env paying
          (DealerMsg.dealer DealerMsg.purchase_mint)
          at_last.dealer_storage).0
        (sale mock terms_here at_last.child scrt_price bytes)
purchase_after-History_example =
    purchase_after-History mock terms_here mock_laws mock_subscription mock_collection till_last
      met_linked dealer_env paying scrt_price refl (inl refl)

purchase_iff_after-History_example :
    ((r : mock.Response) × ((Execute.execute mock dealer_env paying
          (DealerMsg.dealer DealerMsg.purchase_mint)
          at_last.dealer_storage).0
        ≡ ok r))
    ↔ ((c : Coin) × (paying.funds ≡ c ∷ []) × FirstPrice terms_here.prices c)
purchase_iff_after-History_example =
    purchase_iff_after-History mock terms_here mock_laws mock_subscription mock_collection till_last
      met_linked dealer_env paying

-- A new dealer that met its child: a stranger claims that the child moved, and a mint is sold.
abbrev subscribe_here : Payload
subscribe_here =
    Payload.migratable (subscribe_to_migration_complete_event "dealer" "dealer_code_hash")

abbrev newly_met : Pair mock
newly_met =
    met mock mock_laws dealer_env dealer_env admin_msg_info priced_msg
      (successful_child_snip721_instantiate_response child_snip721_address) [] "admin"
      child_snip721_address (3 ∷ []) (2 ∷ []) some_price (by_default refl refl) mock_admin
      fresh_lists fresh_room refl refl mock_child child_env [] (1 ∷ []) refl mock_dealer refl tt
      subscribe_here

abbrev claim : DealerMsg.ExecuteMsg mock.Binary
claim = DealerMsg.migrate_listener (migration_complete_notification moved none)

abbrev after_claim : Pair mock
after_claim = record newly_met {
  dealer_storage =
      commit (Execute.execute mock dealer_env (mock_info "minty" []) claim newly_met.dealer_storage)
        newly_met.dealer_storage;
}

minty_ne_child : (mock_info "minty" []).sender ≢ child_snip721_address
minty_ne_child = λ e. ground (arith, eq_iff "minty" "child_snip721_addr")

till_claim : History mock newly_met after_claim
till_claim =
    next here
      (dealer_called dealer_env (mock_info "minty" []) claim (4 ∷ [], mock_minty, minty_ne_child))

sells_for_life_example :
    (after_claim.child.address ≡ child_snip721_address)
    × (bytes : Payload) × Sends mock
        (Execute.execute mock dealer_env paying
          (DealerMsg.dealer DealerMsg.purchase_mint)
          after_claim.dealer_storage).0
        (sale mock terms_here after_claim.child scrt_price bytes)
sells_for_life_example =
    sells_for_life mock mock_laws dealer_env dealer_env admin_msg_info priced_msg
      (successful_child_snip721_instantiate_response child_snip721_address) [] "admin"
      child_snip721_address (3 ∷ []) (2 ∷ []) some_price (by_default refl refl) mock_admin
      fresh_lists fresh_room refl refl mock_child child_env [] (1 ∷ []) refl mock_dealer refl tt
      mock_subscription mock_collection subscribe_here refl till_claim dealer_env paying scrt_price
      refl (inl refl)
