-- ===== src/Tests/MigrationScenarios.antt =====
-- Tests of test_migrate.rs in contracts/snip721-dealer/src and contracts/snip721-migratable/src, run
-- on the model: each is the proposition that its assertions hold. The addresses of the tests are
-- those of the concrete platform.
use snip721_migratable.Base.{String, ◌≡◌, refl, some, [], ◌∷◌, map}
use snip721_migratable.Exec.{ok}
use snip721_migratable.Cosmwasm.{
  CanonicalContractInfo, ContractInfo, Env, subscribe_to_migration_complete_event, never,
}
use snip721_migratable.Dealer.Msg as DealerMsg
use snip721_migratable.Dealer.Instantiate
use snip721_migratable.Dealer.Child.{reply, on_instantiated_snip721_reply}
use snip721_migratable.Dealer.Execute
use snip721_migratable.Dealer.Migrate as DealerMigrate
use snip721_migratable.Migratable.Msg
use snip721_migratable.Migratable.Contract
use snip721_migratable.Migratable.Contract.{update_migrated_dependency}
use snip721_migratable.Migratable.Migrate as ChildMigrate
use snip721_migratable.Platform.{subscribers}
use snip721_migratable.Platform.Laws.{Sends, notification}
use snip721_migratable.Platform.Mock.{mock, Payload}
use snip721_migratable.Tests.Fixtures.{
  mock_info, admin_msg_info, child_snip721_address, child_snip721_code_hash, scrt_price,
  successful_child_snip721_instantiate_reply, default_instantiate_msg, instantiate_msg, dealer_env,
}

-- `custom_mock_env_0_migrated`: the same address, and new code.
abbrev migrated_env : Env mock.Circumstance
migrated_env = record {
  circumstance = 0;
  contract = record { address = "dealer"; code_hash = "code_hash_1" };
}

abbrev notify_0 : ContractInfo
notify_0 = record { address = "minty"; code_hash = "notify_0_code_hash" }

abbrev notify_1 : ContractInfo
notify_1 = record { address = "creator"; code_hash = "notify_1_code_hash" }

abbrev raw_notify_0 : CanonicalContractInfo
raw_notify_0 = record { address = 4 ∷ []; code_hash = "notify_0_code_hash" }

abbrev raw_notify_1 : CanonicalContractInfo
raw_notify_1 = record { address = 5 ∷ []; code_hash = "notify_1_code_hash" }

-- The message that every subscriber of the migrated contract is sent.
abbrev told : Payload
told = Payload.notify migrated_env.contract

-- The dealer after `instantiate` with a code hash of its child, and after the reply.
abbrev dealer_instantiated : String → mock.Storage
dealer_instantiated code_hash =
    (Instantiate.instantiate mock dealer_env admin_msg_info
      (record default_instantiate_msg {
        prices = scrt_price ∷ [];
        admin = some "admin";
        snip721_code_hash = code_hash;
        private_metadata = some "private_metadata_uri";
        public_metadata = some "public_metadata_uri";
      })
      []).1

abbrev dealer_replied : String → mock.Storage
dealer_replied code_hash =
    (reply mock dealer_env (successful_child_snip721_instantiate_reply child_snip721_address)
      (dealer_instantiated code_hash)).1

abbrev child_info : String → ContractInfo
child_info code_hash = record { address = child_snip721_address; code_hash = code_hash }

abbrev MigrateNotifiesChildSnip721OfMigration : Type 0
MigrateNotifiesChildSnip721OfMigration =
    Sends mock (DealerMigrate.migrate mock migrated_env (dealer_replied child_snip721_code_hash)).0
      (notification mock never 0 told (child_info child_snip721_code_hash) ∷ [])

notifies_child : MigrateNotifiesChildSnip721OfMigration
unfolding Instantiate.instantiate reply on_instantiated_snip721_reply DealerMigrate.migrate
notifies_child = (_, refl, refl)

-- The test gives the child's address as its code hash. Two more contracts subscribe.
abbrev with_0 : mock.Storage
with_0 =
    (mock.register_to_notify_on_migration_complete notify_0.address notify_0.code_hash
      (dealer_replied child_snip721_address)).1

abbrev with_1 : mock.Storage
with_1 =
    (mock.register_to_notify_on_migration_complete notify_1.address notify_1.code_hash with_0).1

abbrev RegisteredContractsAreNotifiedIncludingChildSnip721 : Type 0
RegisteredContractsAreNotifiedIncludingChildSnip721 =
    Sends mock (DealerMigrate.migrate mock migrated_env with_1).0 (
      map (notification mock never 0 told)
        (child_info child_snip721_address ∷ notify_0 ∷ notify_1 ∷ []))

notifies_all : RegisteredContractsAreNotifiedIncludingChildSnip721
unfolding Instantiate.instantiate reply on_instantiated_snip721_reply DealerMigrate.migrate
notifies_all = (_, refl, refl)

abbrev RegisterToNotifyOnMigrationCompleteSavesContract : Type 0
RegisterToNotifyOnMigrationCompleteSavesContract =
    (subscribers mock).load
      (Execute.execute mock dealer_env admin_msg_info
        (DealerMsg.migrate
          (subscribe_to_migration_complete_event notify_0.address notify_0.code_hash))
        (dealer_instantiated child_snip721_code_hash)).1
    ≡ ok (raw_notify_0 ∷ [])

dealer_saves : RegisterToNotifyOnMigrationCompleteSavesContract
unfolding Instantiate.instantiate Execute.execute
dealer_saves = refl

abbrev child_instantiated : mock.Storage
child_instantiated =
    (Contract.instantiate mock dealer_env admin_msg_info (instantiate_msg admin_msg_info) []).1

abbrev RegisterOnMigrationCompleteNotifyReceiverSavesContract : Type 0
RegisterOnMigrationCompleteNotifyReceiverSavesContract =
    (subscribers mock).load
      (Contract.execute mock dealer_env admin_msg_info
        (Msg.migrate (subscribe_to_migration_complete_event notify_0.address notify_0.code_hash))
        child_instantiated).1
    ≡ ok (raw_notify_0 ∷ [])

child_saves : RegisterOnMigrationCompleteNotifyReceiverSavesContract
unfolding Contract.instantiate Contract.execute
child_saves = refl

abbrev SetsSubmsgsToNotifyOtherRegisteredContracts : Type 0
SetsSubmsgsToNotifyOtherRegisteredContracts =
    Sends mock
      (ChildMigrate.migrate mock migrated_env
        ((subscribers mock).save (raw_notify_0 ∷ raw_notify_1 ∷ []) child_instantiated).1).0
      (map (notification mock never 0 told) (notify_0 ∷ notify_1 ∷ []))

child_notifies : SetsSubmsgsToNotifyOtherRegisteredContracts
unfolding Contract.instantiate ChildMigrate.migrate
child_notifies = (_, refl, refl)

-- The contract at "minty" moves to "creator".
abbrev UpdateMigratedSubscriberSucceeds : Type 0
UpdateMigratedSubscriberSucceeds =
    (subscribers mock).load
      (update_migrated_dependency mock (mock_info "minty" []) notify_1
        (mock.add_migration_complete_event_subscriber (4 ∷ []) "migrated_from_code_hash" []).1).1
    ≡ ok (raw_notify_1 ∷ [])

subscriber_moves : UpdateMigratedSubscriberSucceeds
unfolding update_migrated_dependency
subscriber_moves = refl
