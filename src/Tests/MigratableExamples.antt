-- ===== src/Tests/MigratableExamples.antt =====
-- The token contract's theorems at concrete inputs.
use snip721_migratable.Base.{◌≡◌, ◌≢◌, ◌↔◌, refl, none, List, [], ◌∷◌, ◌≤◌, length, arith}
use snip721_migratable.Exec.{ok, err}
use snip721_migratable.Cosmwasm.{
  CanonicalAddr, CanonicalContractInfo, ContractInfo, migration_complete_notification, never,
  subscribe_to_migration_complete_event,
}
use snip721_migratable.Migratable.Msg.{migrate, migrate_listener}
use snip721_migratable.Migratable.Contract.{instantiate, update_migrated_dependency}
use snip721_migratable.Migratable.Contract.Notified.{
  update_dependency_stranger, update_dependency_replaces,
}
use snip721_migratable.Migratable.Contract.Limits.{instantiate_limits}
use snip721_migratable.Migratable.Migrate
use snip721_migratable.Migratable.Migrate.Notifies.{migrate_tells}
use snip721_migratable.Migratable.Deserialize.{serialize, visit_bytes}
use snip721_migratable.Migratable.Deserialize.RoundTrip.{child_visit_bytes-serialize}
use snip721_migratable.Platform.{subscribers, remaining_sub_slots}
use snip721_migratable.Dealer.Deserialize.{unsupported_execute_message}
use snip721_migratable.Migratable.Deserialize.Refuses.{child_visit_bytes_err_iff}
use snip721_migratable.Platform.Laws.{Rejects, Sends, notification}
use snip721_migratable.Platform.Mock.{mock, Payload, encode_listener, decode_listener}
use snip721_migratable.Platform.Mock.Lawful.{mock_laws}
use snip721_migratable.Platform.Mock.Remembering.{mock_subscription, mock_collection}
use snip721_migratable.Platform.History.{Subscribed}
use snip721_migratable.Migratable.Contract.Bounded.{
  Call, executed, migrated, keep_all, subscribers_bounded,
}
use snip721_migratable.Tests.Fixtures.{
  mock_info, admin_msg_info, instantiate_msg, child_env, dealer_env, child_storage,
}

abbrev raw_admin : CanonicalAddr
raw_admin = 3 ∷ []

abbrev raw_dealer : CanonicalAddr
raw_dealer = 1 ∷ []

-- The dealer as a subscriber, and in new code.
abbrev subscribed_dealer : CanonicalContractInfo
subscribed_dealer = record { address = raw_dealer; code_hash = "dealer_code_hash" }

abbrev moved_dealer : ContractInfo
moved_dealer = record { address = "dealer"; code_hash = "moved_code_hash" }

dealer_ne_admin : raw_dealer ≢ raw_admin
dealer_ne_admin = λ e. ground arith

update_dependency_stranger_example :
    Sends mock (update_migrated_dependency mock admin_msg_info moved_dealer child_storage).0 []
    × ((subscribers mock).load
          (update_migrated_dependency mock admin_msg_info moved_dealer child_storage).1
        ≡ ok (subscribed_dealer ∷ []))
update_dependency_stranger_example =
    update_dependency_stranger mock mock_laws admin_msg_info moved_dealer child_storage raw_admin
      raw_dealer (subscribed_dealer ∷ []) refl refl refl (dealer_ne_admin, tt)

update_dependency_replaces_example :
    Sends mock
      (update_migrated_dependency mock (mock_info "dealer" []) moved_dealer child_storage).0
      []
    × ((subscribers mock).load
          (update_migrated_dependency mock (mock_info "dealer" []) moved_dealer child_storage).1
        ≡ ok (record { address = raw_dealer; code_hash = "moved_code_hash" } ∷ []))
update_dependency_replaces_example =
    update_dependency_replaces mock mock_laws (mock_info "dealer" []) moved_dealer child_storage
      raw_dealer raw_dealer (subscribed_dealer ∷ []) refl refl refl subscribed_dealer [] [] refl
      refl tt tt

instantiate_limits_example :
    (s' : mock.Storage) × (instantiate mock child_env admin_msg_info
        (instantiate_msg admin_msg_info)
        []
      ≡ mock.snip721_instantiate child_env admin_msg_info
          (instantiate_msg admin_msg_info).instantiate
          s')
    × ((remaining_sub_slots mock).load s' ≡ ok 1)
    × ((subscribers mock).load s' ≡ (subscribers mock).load [])
instantiate_limits_example =
    instantiate_limits mock mock_laws child_env admin_msg_info (instantiate_msg admin_msg_info) []

migrate_tells_example :
    (b : Payload) × (encode_listener (migration_complete_notification child_env.contract none)
      ≡ ok b)
    × (decode_listener b ≡ ok (migration_complete_notification child_env.contract none))
    × Sends mock
        (Migrate.migrate mock child_env child_storage).0
        (notification mock never 0 b dealer_env.contract ∷ [])
    × ((Migrate.migrate mock child_env child_storage).1 ≡ child_storage)
migrate_tells_example =
    migrate_tells mock mock_laws child_env child_storage (subscribed_dealer ∷ [])
      (dealer_env.contract ∷ []) refl refl

child_visit_bytes-serialize_example :
    (b : Payload) × (serialize mock
        (migrate_listener (migration_complete_notification moved_dealer none))
      ≡ ok b)
    × (visit_bytes mock b
        ≡ ok (migrate_listener (migration_complete_notification moved_dealer none)))
child_visit_bytes-serialize_example =
    child_visit_bytes-serialize mock mock_laws
      (migrate_listener (migration_complete_notification moved_dealer none))

child_visit_bytes_err_iff_example :
    (visit_bytes mock (Payload.text "") ≡ err unsupported_execute_message) ↔ (
      Rejects mock mock.snip721_execute_json (Payload.text "")
      × Rejects mock mock.migratable_execute_json (Payload.text "")
      × Rejects mock mock.migration_listener_json (Payload.text "")
      × (unsupported_execute_message ≡ unsupported_execute_message))
child_visit_bytes_err_iff_example =
    child_visit_bytes_err_iff mock (Payload.text "") unsupported_execute_message

-- Two contracts subscribe, with room for one of them, and the first one moves.
abbrev calls : List (Call mock)
calls =
    executed child_env admin_msg_info (migrate (subscribe_to_migration_complete_event "dealer" "h"))
    ∷ executed child_env admin_msg_info
        (migrate (subscribe_to_migration_complete_event "minty" "h"))
    ∷ executed child_env (mock_info "dealer" [])
        (migrate_listener (migration_complete_notification moved_dealer none))
    ∷ migrated child_env
    ∷ []

subscribers_bounded_example :
    (l : List CanonicalContractInfo) × Subscribed mock
      (keep_all mock calls
        (instantiate mock child_env admin_msg_info (instantiate_msg admin_msg_info) []).1)
      l
    × (length l ≤ 1)
subscribers_bounded_example =
    subscribers_bounded mock mock_laws mock_subscription mock_collection child_env admin_msg_info
      (instantiate_msg admin_msg_info) [] refl calls
