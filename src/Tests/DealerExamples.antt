-- ===== src/Tests/DealerExamples.antt =====
-- The dealer's theorems at concrete inputs.
use snip721_migratable.Base.{◌≡◌, ◌≢◌, ◌↔◌, inl, refl, none, List, [], ◌∷◌, arith}
use snip721_migratable.Exec.{ok, err, StdError}
use snip721_migratable.Cosmwasm.{
  CanonicalAddr, Coin, ContractInfo, MessageInfo, migration_complete_notification, never,
}
use snip721_migratable.Dealer.Msg.{
  dealer, migrate_listener, purchase_mint, get_prices, get_child_snip721, prices_answer,
  contract_info,
}
use snip721_migratable.Dealer.State.View.{view}
use snip721_migratable.Dealer.Child.{update_child_snip721}
use snip721_migratable.Dealer.Child.Updates.{update_child_stores}
use snip721_migratable.Dealer.Purchase.{purchase_and_mint, wrong_amount}
use snip721_migratable.Dealer.Purchase.Terms.{FirstPrice}
use snip721_migratable.Dealer.Purchase.Refuses.{Refusal}
use snip721_migratable.Dealer.Purchase.Accepts.{
  purchase_iff, purchase_err_iff, purchase_accepted, payout, mint, minting,
}
use snip721_migratable.Dealer.Execute.{execute, query}
use snip721_migratable.Dealer.Execute.Stranger.{execute_stranger}
use snip721_migratable.Dealer.Execute.Terms.{
  SameTerms, Reach-SameTerms, here, next, executed, migrated,
}
use snip721_migratable.Dealer.Execute.Queries.{queries_answer}
use snip721_migratable.Dealer.Migrate
use snip721_migratable.Dealer.Migrate.Notifies.{migrate_notifies, migrate_fails}
use snip721_migratable.Dealer.Deserialize.{serialize, visit_bytes, unsupported_execute_message}
use snip721_migratable.Dealer.Deserialize.RoundTrip.{visit_bytes-serialize}
use snip721_migratable.Dealer.Deserialize.Refuses.{visit_bytes_err_iff}
use snip721_migratable.Dealer.Execute.Refines.{Call, HasList, execute_all, execute_all-Represents}
use snip721_migratable.Dealer.State.Represents.{Represents}
use snip721_migratable.Platform.Laws.{Rejects, Sends, notification}
use snip721_migratable.Platform.Mock.{
  mock, Payload, unreadable, decode_snip721, decode_answer, encode_listener, decode_listener,
}
use snip721_migratable.Platform.Mock.Remembering.{mock_registration}
use snip721_migratable.Platform.Mock.Lawful.{mock_laws, mock_child, mock_minty}
use snip721_migratable.Tests.Fixtures.{
  mock_info, admin_msg_info, child_snip721_address, child_snip721_code_hash, scrt_price, dealer_env,
  child_env, terms_here, dealer_storage, dealer_represents, dealer_lists, stored_child,
}

-- A buyer who pays the listed price in uscrt.
abbrev paying : MessageInfo
paying = mock_info "minty" (scrt_price ∷ [])

purchase_iff_example :
    ((r : mock.Response) × ((purchase_and_mint mock paying dealer_storage).0 ≡ ok r))
    ↔ ((c : Coin) × (paying.funds ≡ c ∷ []) × FirstPrice terms_here.prices c)
purchase_iff_example =
    purchase_iff mock mock_laws paying dealer_storage terms_here dealer_represents

-- A buyer who pays too little.
abbrev short : MessageInfo
short = mock_info "minty" (record { denom = "uscrt"; amount = 99 } ∷ [])

abbrev short_error : StdError
short_error = wrong_amount mock scrt_price (record { denom = "uscrt"; amount = 99 })

purchase_err_iff_example :
    ((purchase_and_mint mock short dealer_storage).0 ≡ err short_error)
    ↔ Refusal mock terms_here.prices short.funds short_error
purchase_err_iff_example =
    purchase_err_iff mock mock_laws short dealer_storage terms_here dealer_represents short_error

purchase_accepted_example :
    (bytes : Payload) × (decode_snip721 bytes
      ≡ ok (minting mock mock_laws paying dealer_storage terms_here dealer_represents))
    × Sends mock (purchase_and_mint mock paying dealer_storage).0 (
        payout mock mock_laws paying dealer_storage terms_here dealer_represents scrt_price
        ∷ mint mock mock_laws paying dealer_storage terms_here dealer_represents bytes
        ∷ [])
purchase_accepted_example =
    purchase_accepted mock mock_laws paying dealer_storage terms_here dealer_represents scrt_price
      refl (inl refl)

-- A notification that the child moved.
abbrev moved : ContractInfo
moved = record { address = "minty"; code_hash = "moved_code_hash" }

abbrev stranger_storage : mock.Storage
stranger_storage =
    (execute mock dealer_env admin_msg_info
      (migrate_listener (migration_complete_notification moved none)) dealer_storage).1

abbrev raw_admin : CanonicalAddr
raw_admin = 3 ∷ []

abbrev raw_child : CanonicalAddr
raw_child = 2 ∷ []

admin_ne_child : raw_admin ≢ raw_child
admin_ne_child = λ e. ground arith

execute_stranger_example : view mock stranger_storage ≡ record (view mock dealer_storage) {
  subscribed = (view mock stranger_storage).subscribed;
  slots = (view mock stranger_storage).slots;
}
execute_stranger_example =
    execute_stranger mock mock_laws dealer_env admin_msg_info
      (migrate_listener (migration_complete_notification moved none)) dealer_storage raw_admin
      raw_child stored_child refl admin_ne_child

-- A purchase, and a migration after it.
abbrev bought : mock.Storage
bought = (execute mock dealer_env paying (dealer purchase_mint) dealer_storage).1

abbrev bought_and_migrated : mock.Storage
bought_and_migrated = (Migrate.migrate mock dealer_env bought).1

Reach-SameTerms_example : SameTerms mock (view mock dealer_storage) (view mock bought_and_migrated)
Reach-SameTerms_example =
    Reach-SameTerms mock mock_laws
      (next (next here (executed dealer_env paying (dealer purchase_mint))) (migrated dealer_env))

update_child_stores_example :
    Sends mock
      (update_child_snip721 mock (mock_info child_snip721_address []) moved dealer_storage).0
      []
    × (view mock
          (update_child_snip721 mock (mock_info child_snip721_address []) moved dealer_storage).1
        ≡ record (view mock dealer_storage) {
          address = ok (4 ∷ []);
          code_hash = ok "moved_code_hash";
          subscribed = ok (record { address = 4 ∷ []; code_hash = "moved_code_hash" } ∷ []);
        })
update_child_stores_example =
    update_child_stores mock mock_laws (mock_info child_snip721_address []) moved dealer_storage
      (2 ∷ []) (4 ∷ []) (record { address = 2 ∷ []; code_hash = child_snip721_code_hash } ∷ [])
      stored_child refl refl dealer_lists

queries_answer_example :
    ((b : Payload) × (query mock dealer_storage dealer_env get_prices ≡ ok b)
      × (decode_answer b ≡ ok (prices_answer terms_here.prices)))
    × ((b : Payload) × (query mock dealer_storage dealer_env get_child_snip721 ≡ ok b)
        × (decode_answer b ≡ ok (contract_info child_env.contract)))
queries_answer_example =
    queries_answer mock mock_laws dealer_env dealer_storage terms_here dealer_represents

migrate_notifies_example :
    (b : Payload) × (encode_listener (migration_complete_notification dealer_env.contract none)
      ≡ ok b)
    × (decode_listener b ≡ ok (migration_complete_notification dealer_env.contract none))
    × Sends mock
        (Migrate.migrate mock dealer_env dealer_storage).0
        (notification mock never 0 b child_env.contract ∷ [])
    × ((Migrate.migrate mock dealer_env dealer_storage).1 ≡ dealer_storage)
migrate_notifies_example =
    migrate_notifies mock mock_laws dealer_env dealer_storage
      (record { address = 2 ∷ []; code_hash = child_snip721_code_hash } ∷ []) refl
      (child_env.contract ∷ []) refl

-- The child and a subscriber whose address has no readable form.
abbrev unreadable_storage : mock.Storage
unreadable_storage =
    (
      "subscribers",
      Payload.subscribed (
          record { address = 2 ∷ []; code_hash = child_snip721_code_hash }
          ∷ record { address = 9 ∷ []; code_hash = "" }
          ∷ []),
    )
    ∷ []

migrate_fails_example :
    Migrate.migrate mock dealer_env unreadable_storage ≡ (err unreadable, unreadable_storage)
migrate_fails_example =
    migrate_fails mock dealer_env unreadable_storage
      (record { address = 2 ∷ []; code_hash = child_snip721_code_hash } ∷ []) []
      (record { address = 9 ∷ []; code_hash = "" }) (child_env.contract ∷ []) unreadable refl refl
      refl

visit_bytes-serialize_example :
    (b : Payload) × (serialize mock (migrate_listener (migration_complete_notification moved none))
      ≡ ok b)
    × (visit_bytes mock b ≡ ok (migrate_listener (migration_complete_notification moved none)))
visit_bytes-serialize_example =
    visit_bytes-serialize mock mock_laws
      (migrate_listener (migration_complete_notification moved none))

-- The child tells that it moved; then a contract that is no longer the child tells so again.
abbrev moves : List (Call mock)
moves =
    record {
      env = dealer_env;
      info = mock_info child_snip721_address [];
      msg = migrate_listener (migration_complete_notification moved none);
    }
    ∷ record {
      env = dealer_env;
      info = mock_info child_snip721_address [];
      msg = migrate_listener (migration_complete_notification child_env.contract none);
    }
    ∷ []

execute_all-Represents_example :
    Represents mock (execute_all mock moves dealer_storage) (record terms_here {
      child_snip721_address = "minty";
      child_snip721_code_hash = "moved_code_hash";
    })
    × HasList mock (execute_all mock moves dealer_storage)
execute_all-Represents_example =
    execute_all-Represents mock mock_laws mock_registration moves dealer_storage terms_here
      (
        ((raw_child, mock_child), (4 ∷ [], mock_minty)),
        (((raw_child, mock_child), (raw_child, mock_child)), tt),
      )
      dealer_represents (_, dealer_lists)

visit_bytes_err_iff_example :
    (visit_bytes mock (Payload.text "") ≡ err unsupported_execute_message) ↔ (
      Rejects mock mock.dealer_execute_json (Payload.text "")
      × Rejects mock mock.migratable_execute_json (Payload.text "")
      × Rejects mock mock.migration_listener_json (Payload.text "")
      × (unsupported_execute_message ≡ unsupported_execute_message))
visit_bytes_err_iff_example = visit_bytes_err_iff mock (Payload.text "") unsupported_execute_message
