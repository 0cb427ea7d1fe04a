-- ===== src/Tests/SystemExamples.antt =====
-- The life of a dealer and its child at concrete inputs.
use snip721_migratable.Base.{◌≡◌, ◌↔◌, List, refl, none, some, inl, [], ◌∷◌}
use snip721_migratable.Exec.{Outcome, ok, panic}
use snip721_migratable.Cosmwasm.{
  Event, succeeded, Env, MessageInfo, subscribe_to_migration_complete_event,
}
use snip721_migratable.Snip721.{Snip721ExecuteMsg}
use snip721_migratable.Dealer.Msg.{dealer, purchase_mint}
use snip721_migratable.Dealer.State.View.{view}
use snip721_migratable.Dealer.State.Represents.{Represents}
use snip721_migratable.Dealer.Instantiate.{instantiate, instantiate_snip721_reply_id}
use snip721_migratable.Dealer.Instantiate.Saves.{
  instantiate_stores, child_instantiation, collection_msg,
}
use snip721_migratable.Dealer.Instantiate.Owner.{Owns, by_default}
use snip721_migratable.Dealer.Child.{reply, contract_address}
use snip721_migratable.Dealer.Child.Replies.{reply_stores, call}
use snip721_migratable.Dealer.Execute.{execute}
use snip721_migratable.Dealer.Purchase.Accepts.{payout, mint, minting}
use snip721_migratable.Dealer.Lifecycle.{running-Represents}
use snip721_migratable.Platform.Laws.{Sends}
use snip721_migratable.Platform.Mock.{mock, Payload}
use snip721_migratable.Platform.Mock.Lawful.{mock_laws, mock_dealer, mock_child, mock_admin}
use snip721_migratable.System.{Pair, of_dealer, of_child, migrate_all, enter_child}
use snip721_migratable.System.Linked.{Linked}
use snip721_migratable.System.Handshake.{handshake}
use snip721_migratable.System.Links.{migrate_all-Linked}
use snip721_migratable.Dealer.Child.Announces.{Announces, contract_address_iff, reply_panics}
use snip721_migratable.System.Mints.{purchase_mints}
use snip721_migratable.Tests.NewDealer.{
  without_child, stored_hash, stored_admin, stored_lists, stored_room,
}
use snip721_migratable.Tests.Fixtures.{
  mock_info, admin_msg_info, child_snip721_address, child_snip721_code_hash,
  successful_child_snip721_instantiate_response, successful_child_snip721_instantiate_reply,
  priced_msg, scrt_price, dealer_env, child_env, terms_here, met_pair, met_linked, fresh_lists,
  fresh_room, some_price, dealer_storage,
}

-- The dealer's storage after `instantiate` by the admin.
abbrev instantiated : mock.Storage
instantiated = (instantiate mock dealer_env admin_msg_info priced_msg []).1

owned : Owns mock priced_msg.admin admin_msg_info.sender "admin"
owned = by_default refl refl

instantiate_stores_example :
    (b : Payload) × (mock.child_instantiate_json.decode b
      ≡ ok (collection_msg mock dealer_env admin_msg_info priced_msg []))
    × Sends mock
        (instantiate mock dealer_env admin_msg_info priced_msg []).0
        (child_instantiation mock dealer_env admin_msg_info priced_msg [] "admin" b ∷ [])
    × (view mock instantiated ≡ record (view mock []) {
      admin = ok (3 ∷ []);
      prices = ok priced_msg.prices;
      code_hash = ok child_snip721_code_hash;
      metadata = ok (record { public_metadata = some "art"; private_metadata = none });
    })
instantiate_stores_example =
    instantiate_stores mock dealer_env admin_msg_info priced_msg [] mock_laws "admin" (3 ∷ [])
      some_price owned refl

-- What the dealer then makes of the reply that its child is instantiated.
abbrev replied : Outcome mock.Response × mock.Storage
replied =
    reply mock dealer_env (successful_child_snip721_instantiate_reply child_snip721_address)
      instantiated

abbrev replied_without : Outcome mock.Response × mock.Storage
replied_without =
    reply mock dealer_env (successful_child_snip721_instantiate_reply child_snip721_address)
      without_child

-- The encodings of the two messages to the child.
abbrev subscribe_here : Payload
subscribe_here =
    Payload.migratable (subscribe_to_migration_complete_event "dealer" "dealer_code_hash")

abbrev change_admin_here : Payload
change_admin_here = Payload.snip721 (Snip721ExecuteMsg.change_admin "admin" none)

reply_stores_example :
    Sends mock replied_without.0 (
      call mock child_snip721_address child_snip721_code_hash subscribe_here
      ∷ call mock child_snip721_address child_snip721_code_hash change_admin_here
      ∷ [])
    × (view mock replied_without.1 ≡ record (view mock without_child) {
      address = ok (2 ∷ []);
      subscribed = ok (record { address = 2 ∷ []; code_hash = child_snip721_code_hash } ∷ []);
      slots = (view mock replied_without.1).slots;
    })
reply_stores_example =
    reply_stores mock mock_laws dealer_env
      (successful_child_snip721_instantiate_response child_snip721_address) without_child
      child_snip721_address "admin" (2 ∷ []) (3 ∷ []) child_snip721_code_hash [] subscribe_here
      change_admin_here refl refl refl stored_hash stored_admin mock_admin stored_lists stored_room
      tt refl refl

running-Represents_example :
    (rep : Represents mock replied.1 terms_here) × ((view mock replied.1).subscribed
      ≡ ok (record { address = rep.raw_child; code_hash = child_snip721_code_hash } ∷ []))
running-Represents_example =
    running-Represents mock mock_laws dealer_env dealer_env admin_msg_info priced_msg
      (successful_child_snip721_instantiate_response child_snip721_address) [] "admin"
      child_snip721_address (3 ∷ []) (2 ∷ []) some_price owned mock_admin fresh_lists fresh_room
      refl refl mock_child

-- The dealer and the child after the child was entered with some bytes.
abbrev met : Payload → Pair mock
met bytes = record {
  dealer = dealer_env.contract;
  child = child_env.contract;
  dealer_storage = replied.1;
  child_storage = (enter_child mock child_env "dealer" bytes []).1;
}

handshake_example :
    (subscribe_bytes change_admin_bytes : Payload) × Sends mock replied.0 (
      call mock child_snip721_address child_snip721_code_hash subscribe_bytes
      ∷ call mock child_snip721_address child_snip721_code_hash change_admin_bytes
      ∷ [])
    × ((r : mock.Response) × ((enter_child mock child_env "dealer" subscribe_bytes []).0 ≡ ok r))
    × ((linked : Linked mock terms_here (met subscribe_bytes)) × (linked.dealer_subscribers
          ≡ record { address = 2 ∷ []; code_hash = child_snip721_code_hash } ∷ [])
        × (linked.child_subscribers
            ≡ record { address = 1 ∷ []; code_hash = "dealer_code_hash" } ∷ []))
handshake_example =
    handshake mock mock_laws dealer_env dealer_env admin_msg_info priced_msg
      (successful_child_snip721_instantiate_response child_snip721_address) [] "admin"
      child_snip721_address (3 ∷ []) (2 ∷ []) some_price owned mock_admin fresh_lists fresh_room
      refl refl mock_child child_env [] (1 ∷ []) refl mock_dealer refl tt

migrate_all-Linked_example :
    (w' : Pair mock) × (migrate_all mock 0
        (of_dealer "v2" ∷ of_child "v3" ∷ of_dealer "v4" ∷ [])
        met_pair
      ≡ ok w')
    × Linked mock terms_here w'
    × (w'.dealer ≡ record { address = "dealer"; code_hash = "v4" })
    × (w'.child ≡ record { address = child_snip721_address; code_hash = "v3" })
migrate_all-Linked_example =
    migrate_all-Linked mock terms_here mock_laws 0
      (of_dealer "v2" ∷ of_child "v3" ∷ of_dealer "v4" ∷ []) met_pair met_linked

abbrev paying : MessageInfo
paying = mock_info "minty" (scrt_price ∷ [])

purchase_mints_example :
    (bytes : Payload) × Sends mock
      (execute mock dealer_env paying (dealer purchase_mint) dealer_storage).0
      (payout mock mock_laws paying dealer_storage terms_here met_linked.rep scrt_price
        ∷ mint mock mock_laws paying dealer_storage terms_here met_linked.rep bytes
        ∷ [])
    × ((env' : Env mock.Circumstance) (s : mock.Storage)
        → enter_child mock env' "dealer" bytes s
          ≡ mock.snip721_execute env'
              (mock_info "dealer" [])
              (minting mock mock_laws paying dealer_storage terms_here met_linked.rep)
              s)
purchase_mints_example =
    purchase_mints mock mock_laws terms_here met_pair met_linked dealer_env paying scrt_price refl
      (inl refl)

-- An event before the instantiation, and the address among other attributes.
abbrev events : List Event
events =
    record { ty = "wasm"; attributes = [] }
    ∷ record {
      ty = "instantiate";
      attributes =
          record { key = "code_id"; value = "10" }
          ∷ record { key = "contract_address"; value = child_snip721_address }
          ∷ [];
    }
    ∷ []

contract_address_iff_example :
    (contract_address events ≡ ok child_snip721_address) ↔ Announces events child_snip721_address
contract_address_iff_example = contract_address_iff events child_snip721_address

reply_panics_example :
    reply mock dealer_env
      (record {
        id = instantiate_snip721_reply_id;
        result = succeeded (record { events = []; bytes = none });
      })
      without_child
    ≡ (panic, without_child)
reply_panics_example =
    reply_panics mock dealer_env (succeeded (record { events = []; bytes = none })) without_child
      (λ a found. found)
