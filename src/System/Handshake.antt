-- ===== src/System/Handshake.antt =====
-- How a new dealer and its child get to know each other.
use snip721_migratable.Base.{◌≡◌, ◌≢◌, refl, ap, none, [], ◌∷◌}
use snip721_migratable.Exec.{ok, unwrap_or}
use snip721_migratable.Cosmwasm.{
  CanonicalAddr, Addr, Coin, Env, MessageInfo, SubMsgResponse,
  subscribe_to_migration_complete_event,
}
use snip721_migratable.Snip721.{Snip721ExecuteMsg}
use snip721_migratable.Dealer.Msg.{InstantiateMsg, dealer, purchase_mint}
use snip721_migratable.Dealer.State.View.{view}
use snip721_migratable.Dealer.Instantiate.Owner.{Owns}
use snip721_migratable.Dealer.Child.{contract_address}
use snip721_migratable.Dealer.Child.Replies.{call}
use snip721_migratable.Dealer.Lifecycle.{running, terms, running_stores, running-Represents}
use snip721_migratable.Migratable.Contract
use snip721_migratable.Migratable.Deserialize
use snip721_migratable.Platform.{Platform, subscribers, remaining_sub_slots}
use snip721_migratable.Platform.Laws.{Laws, Sends, Canonical, HasSlot}
use snip721_migratable.System.{Pair, enter_child}
use snip721_migratable.System.Events.{History}
use snip721_migratable.System.Lives.{purchase_after-History}
use snip721_migratable.System.Sales.{sale}
use snip721_migratable.Dealer.Execute
use snip721_migratable.Dealer.Purchase.Terms.{FirstPrice}
use snip721_migratable.Platform.History.{SubscriptionLaws, CollectionLaws}
use snip721_migratable.System.Knows.{Knows-alone}
use snip721_migratable.System.Linked.{Linked}

module _ (p : Platform) (laws : Laws p) (env_i env : Env p.Circumstance) (info : MessageInfo)
    (msg : InstantiateMsg p.types) (response : SubMsgResponse p.Binary) (s : p.Storage)
    (owner child : Addr) (raw_owner raw_child : CanonicalAddr) (some_price : msg.prices ≢ [])
    (owned : Owns p msg.admin info.sender owner) (owner_form : Canonical p owner raw_owner)
    (listed : unwrap_or [] (view p s).subscribed ≡ ok []) (room : HasSlot (view p s).slots)
    (told : contract_address response.events ≡ ok child) (valid : p.addr_validate child ≡ ok child)
    (child_form : Canonical p child raw_child) (child_env : Env p.Circumstance)
    (child_storage : p.Storage) (raw_dealer : CanonicalAddr)
    (dealer_valid : p.addr_validate env.contract.address ≡ ok env.contract.address)
    (dealer_form : Canonical p env.contract.address raw_dealer)
    (child_lists : unwrap_or [] ((subscribers p).load child_storage) ≡ ok [])
    (child_room : HasSlot ((remaining_sub_slots p).load child_storage)) where
  -- The dealer after the reply, and the child entered by it with some bytes.
  abbrev pub met : p.Binary → Pair p
  met bytes = record {
    dealer = env.contract;
    child = record { address = child; code_hash = msg.snip721_code_hash };
    dealer_storage =
        (running p laws env_i env info msg response s owner child raw_owner raw_child some_price
          owned owner_form listed room told valid child_form).1;
    child_storage = (enter_child p child_env env.contract.address bytes child_storage).1;
  }

  accepts :
      (bytes : p.Binary)
      → p.migratable_execute_json.encode
          (subscribe_to_migration_complete_event env.contract.address env.contract.code_hash)
        ≡ ok bytes
      → ((r : p.Response) × ((enter_child p child_env env.contract.address bytes child_storage).0
            ≡ ok r))
        × ((subscribers p).load (met bytes).child_storage
            ≡ ok (record { address = raw_dealer; code_hash = env.contract.code_hash } ∷ []))
  unfolding enter_child Deserialize.visit_bytes Contract.execute
  accepts bytes he =
      let (bytes', he', hd') =
        laws.message.migratable_execute_faithful.round_trip
          (subscribe_to_migration_complete_event env.contract.address env.contract.code_hash) in
      let same : bytes' ≡ bytes = cc in
      let hd : p.migratable_execute_json.decode bytes
          ≡ ok (subscribe_to_migration_complete_event env.contract.address env.contract.code_hash) =
        rw (← same) hd' in
      let (r, done, lists) =
        laws.migration.register_lem env.contract.address env.contract.code_hash raw_dealer
          child_storage [] dealer_valid dealer_form.canonicalized child_lists child_room tt in
      (
        (r, simp (hd, (laws.message.migratable_not_snip721 _ bytes he).1, done)),
        simp (hd, (laws.message.migratable_not_snip721 _ bytes he).1, lists),
      )

  met-Linked :
      (bytes : p.Binary)
      → p.migratable_execute_json.encode
          (subscribe_to_migration_complete_event env.contract.address env.contract.code_hash)
        ≡ ok bytes
      → (linked : Linked p
          (terms p laws env_i env info msg response s owner child raw_owner raw_child some_price
            owned owner_form listed room told valid child_form)
          (met bytes))
        × (linked.dealer_subscribers
            ≡ record { address = raw_child; code_hash = msg.snip721_code_hash } ∷ [])
        × (linked.child_subscribers
            ≡ record { address = raw_dealer; code_hash = env.contract.code_hash } ∷ [])
  met-Linked bytes he =
      let (rep, dealer_lists) =
        running-Represents p laws env_i env info msg response s owner child raw_owner raw_child
          some_price owned owner_form listed room told valid child_form in
      let same : rep.raw_child ≡ raw_child =
        cc (rep.child_form.canonicalized, child_form.canonicalized) in
      (
        record {
          raw_dealer = raw_dealer;
          dealer_form = dealer_form;
          rep = rep;
          dealer_subscribers =
              record { address = rep.raw_child; code_hash = msg.snip721_code_hash } ∷ [];
          dealer_lists = dealer_lists;
          knows_child = Knows-alone p rep.raw_child msg.snip721_code_hash;
          child_subscribers =
              record { address = raw_dealer; code_hash = env.contract.code_hash } ∷ [];
          child_lists = (accepts bytes he).1;
          knows_dealer = Knows-alone p raw_dealer env.contract.code_hash;
        },
        ap (λ a. record { address = a; code_hash = msg.snip721_code_hash } ∷ []) same,
        refl,
      )

  -- Under the laws of the libraries, with a price listed, an owner (the admin whom the message
  -- names and whose address is valid, or else the sender), addresses of the dealer and of the
  -- child that are valid, and no subscriber but room for one in either storage: a dealer that was
  -- instantiated and then told of its child by the reply sends the child two messages; the child,
  -- entered by the dealer with the first, accepts it; and then the contracts are linked, each
  -- having the other as its one subscriber under its present address and code hash.
  pub handshake :
      (subscribe_bytes change_admin_bytes : p.Binary) × Sends p
        (running p laws env_i env info msg response s owner child raw_owner raw_child some_price
          owned owner_form listed room told valid child_form).0
        (call p child msg.snip721_code_hash subscribe_bytes
          ∷ call p child msg.snip721_code_hash change_admin_bytes
          ∷ [])
      × ((r : p.Response) × ((enter_child p child_env env.contract.address subscribe_bytes
              child_storage).0
            ≡ ok r))
      × ((linked : Linked p
            (terms p laws env_i env info msg response s owner child raw_owner raw_child some_price
              owned owner_form listed room told valid child_form)
            (met subscribe_bytes))
          × (linked.dealer_subscribers
              ≡ record { address = raw_child; code_hash = msg.snip721_code_hash } ∷ [])
          × (linked.child_subscribers
              ≡ record { address = raw_dealer; code_hash = env.contract.code_hash } ∷ []))
  handshake =
      let (bytes, he, _) =
        laws.message.migratable_execute_faithful.round_trip
          (subscribe_to_migration_complete_event env.contract.address env.contract.code_hash) in
      let (change_admin_bytes, hm, _) =
        laws.message.snip721_execute_faithful.round_trip
          (Snip721ExecuteMsg.change_admin owner none) in
      let (sends, _) =
        running_stores p laws env_i env info msg response s owner child raw_owner raw_child
          some_price owned owner_form listed room told valid child_form bytes change_admin_bytes he
          hm in
      (bytes, change_admin_bytes, sends, (accepts bytes he).0, met-Linked bytes he)

  -- The whole life of a dealer. Under the laws of the libraries, with a price listed, an owner
  -- (the admin whom the message names and whose address is valid, or else the sender), addresses
  -- of the dealer and of the child that are valid, and no subscriber but room for one in either
  -- storage: a dealer is instantiated, is told of its child by the reply, and its child is entered
  -- with the dealer's subscription. Then, after any history of the two (migrations of either,
  -- purchases with their mints, and messages from any account, with the conditions on
  -- subscriptions and notifications that `DealerAllows` and `ChildAllows` state), a purchase with
  -- the first price of a denom that `instantiate` was given as its only funds succeeds: the coin
  -- goes to the owner, and some bytes to the child at its old address and its present code hash.
  pub sells_for_life :
      (subs : SubscriptionLaws p) (collection : CollectionLaws p) (bytes : p.Binary)
      → p.migratable_execute_json.encode
          (subscribe_to_migration_complete_event env.contract.address env.contract.code_hash)
        ≡ ok bytes
      → {w : Pair p} → History p (met bytes) w
      → (env' : Env p.Circumstance) (buyer : MessageInfo) (c : Coin) → buyer.funds ≡ c ∷ []
      → FirstPrice msg.prices c
      → (w.child.address ≡ child)
        × (mint_bytes : p.Binary) × Sends p
            (Execute.execute p env' buyer (dealer purchase_mint) w.dealer_storage).0
            (sale p
              (terms p laws env_i env info msg response s owner child raw_owner raw_child some_price
                owned owner_form listed room told valid child_form)
              w.child
              c
              mint_bytes)
  sells_for_life subs collection bytes he past env' buyer c hf hp =
      purchase_after-History p
        (terms p laws env_i env info msg response s owner child raw_owner raw_child some_price owned
          owner_form listed room told valid child_form)
        laws subs collection past (met-Linked bytes he).0 env' buyer c hf hp
