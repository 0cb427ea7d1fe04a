-- ===== src/Tests/MessageScenarios.antt =====
-- The tests of test_instantiate.rs in contracts/snip721-dealer/src that look at the messages sent, and
-- the one in contracts/snip721-migratable/src, run on the model: each is the proposition that its
-- assertions hold.
use snip721_migratable.Base.{
  Option, String, ℕ, ◌≡◌, ◌≢◌, refl, none, some, [], ◌∷◌, get_elem?, arith, eq_iff, false, true,
}
use snip721_migratable.Exec.{ok}
use snip721_migratable.Cosmwasm.{
  Coin, CosmosMsg, WasmMsg, never, success, subscribe_to_migration_complete_event,
}
use snip721_migratable.Snip721.{Snip721ExecuteMsg}
use snip721_migratable.Dealer.Msg.{InstantiateMsg}
use snip721_migratable.Dealer.Instantiate.{instantiate}
use snip721_migratable.Dealer.Child.{reply, on_instantiated_snip721_reply}
use snip721_migratable.Migratable.Contract
use snip721_migratable.Platform.Mock.{mock, mock_types, Payload}
use snip721_migratable.Tests.Fixtures.{
  admin_msg_info, child_snip721_address, child_snip721_code_hash, child_env, dealer_env,
  successful_child_snip721_instantiate_reply, default_instantiate_msg, instantiate_msg,
}

abbrev price : Coin
price = record { denom = "`uscrt`"; amount = 100 }

abbrev admin_msg : InstantiateMsg mock_types
admin_msg = record default_instantiate_msg { prices = price ∷ []; admin = some "admin" }

-- The message at a position of the reply's response.
abbrev ReplySends : ℕ → Payload → Type 0
ReplySends i bytes =
    (r : mock.Response) × ((reply mock dealer_env
        (successful_child_snip721_instantiate_reply child_snip721_address)
        (instantiate mock dealer_env admin_msg_info admin_msg []).1).0
      ≡ ok r)
    × (get_elem? (mock.messages r) i
        ≡ some (record {
          id = 0;
          msg =
              CosmosMsg.wasm
                (WasmMsg.execute child_snip721_address child_snip721_code_hash bytes []);
          reply_on = never;
        }))

abbrev ReplyRegOnMigrationCompleteNotifyReceiverSubMsgAdded : Type 0
ReplyRegOnMigrationCompleteNotifyReceiverSubMsgAdded =
    ReplySends 0
      (Payload.migratable (subscribe_to_migration_complete_event "dealer" "dealer_code_hash"))

subscribes : ReplyRegOnMigrationCompleteNotifyReceiverSubMsgAdded
unfolding instantiate reply on_instantiated_snip721_reply
subscribes = (_, refl, refl)

abbrev ReplyChildSnip721ChangeAdminSubMsgAdded : Type 0
ReplyChildSnip721ChangeAdminSubMsgAdded =
    ReplySends 1 (Payload.snip721 (Snip721ExecuteMsg.change_admin "admin" none))

changes_admin : ReplyChildSnip721ChangeAdminSubMsgAdded
unfolding instantiate reply on_instantiated_snip721_reply
changes_admin = (_, refl, refl)

-- `expected_snip721_instantiate_msg`
abbrev expected_bytes : Payload
expected_bytes = Payload.child_instantiate (record {
  instantiate = record {
    name = "PurchasableSnip721";
    symbol = "PUR721";
    admin = some dealer_env.contract.address;
    entropy = default_instantiate_msg.entropy;
    royalty_info = default_instantiate_msg.royalty_info;
    config = some (record {
      public_token_supply = some true;
      public_owner = some true;
      enable_sealed_metadata = none;
      unwrapped_metadata_is_private = none;
      minter_may_update_metadata = none;
      owner_may_update_metadata = none;
      enable_burn = some false;
    });
    post_init_callback = none;
    post_init_data = none;
  };
  max_migration_complete_event_subscribers = 1;
})

abbrev InstantiateNewAddsSubmessageToInstantiateChildSnip721 : Type 0
InstantiateNewAddsSubmessageToInstantiateChildSnip721 =
    (code_admin : Option String) × ((instantiate mock dealer_env admin_msg_info
        (record default_instantiate_msg { prices = price ∷ [] }) []).0
      ≡ ok (
          record {
            id = 1;
            msg = CosmosMsg.wasm (
                WasmMsg.instantiate code_admin 10 child_snip721_code_hash expected_bytes []
                  "test_snip721_label");
            reply_on = success;
          }
          ∷ []))
    × (dealer_env.contract.address ≢ admin_msg_info.sender)

instantiates_child : InstantiateNewAddsSubmessageToInstantiateChildSnip721
unfolding instantiate
instantiates_child = (_, refl, λ e. ground (arith, eq_iff "dealer" "admin"))

abbrev InstantiateWithValidMsgSucceeds : Type 0
InstantiateWithValidMsgSucceeds =
    (r : mock.Response) × ((Contract.instantiate mock child_env admin_msg_info
        (instantiate_msg admin_msg_info) []).0
      ≡ ok r)

child_instantiates : InstantiateWithValidMsgSucceeds
unfolding Contract.instantiate
child_instantiates = (_, refl)
