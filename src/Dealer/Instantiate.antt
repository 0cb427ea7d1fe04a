-- ===== src/Dealer/Instantiate.antt =====
-- `instantiate` of contracts/snip721-dealer/src/contract.rs.
pub mod Owner
pub mod Saves
pub mod Refuses
use snip721_migratable.Base.{ℕ, String, Bool, true, false, Option, none, some, List, [], ◌∷◌}
use snip721_migratable.Exec.{
  Outcome, ok, generic_err, Exec, unwrap, pure, lift, reject_if, ◌>>=◌, ◌>>◌,
}
use snip721_migratable.Cosmwasm.{Addr, MessageInfo, Env, CosmosMsg, WasmMsg}
use snip721_migratable.Snip721.{InstantiateConfig}
use snip721_migratable.Dealer.Msg.{InstantiateMsg, MigratableSnip721InstantiateMsg}
use snip721_migratable.Dealer.State
use snip721_migratable.Platform.{Platform}

abbrev pub instantiate_snip721_reply_id : ℕ
instantiate_snip721_reply_id = 1

-- `prices.is_empty()`
abbrev pub is_empty {ℓ} : {A : Type ℓ} → List A → Bool
is_empty [] = true
is_empty (x ∷ xs) = false

module _ (p : Platform) where
  open p use {
    types, Storage, Binary, Response, Circumstance, addr_validate, addr_canonicalize,
    add_submessages, response_new, reply_on_success, child_instantiate_json,
  }

  -- The configuration of the child collection.
  abbrev pub child_config : InstantiateConfig
  child_config = record {
    public_token_supply = some true;
    public_owner = some true;
    enable_sealed_metadata = none;
    unwrapped_metadata_is_private = none;
    minter_may_update_metadata = none;
    owner_may_update_metadata = none;
    enable_burn = some false;
  }

  -- `instantiate_msg`: the child's admin is the dealer for the time being.
  abbrev pub child_instantiate_msg :
      Addr → InstantiateMsg types → MigratableSnip721InstantiateMsg types
  child_instantiate_msg temp_snip721_admin msg = record {
    instantiate = record {
      name = "PurchasableSnip721";
      symbol = "PUR721";
      admin = some temp_snip721_admin;
      entropy = msg.entropy;
      royalty_info = msg.royalty_info;
      config = some child_config;
      post_init_callback = none;
      post_init_data = none;
    };
    max_migration_complete_event_subscribers = 1;
  }

  -- `match msg.admin { Some(admin) => addr_validate(admin)?, None => info.sender }`
  abbrev pub true_admin : Option String → Addr → Outcome Addr
  true_admin (some admin) sender = addr_validate admin
  true_admin none sender = ok sender

  unfoldable pub instantiate :
      Env Circumstance → MessageInfo → InstantiateMsg types → Exec Storage Response
  instantiate env info msg = do
    reject_if (is_empty msg.prices) (generic_err "No purchase prices were specified")
    let temp_snip721_admin = env.contract.address
    true_admin ← lift (true_admin msg.admin info.sender)
    raw_admin ← lift (addr_canonicalize true_admin)
    (State.admin p).save raw_admin
    (State.purchase_prices p).save msg.prices
    (State.child_snip721_code_hash p).save msg.snip721_code_hash
    (State.purchasable_metadata p).save
        (record { public_metadata = msg.public_metadata; private_metadata = msg.private_metadata })
    instantiate_bytes ←
        lift (unwrap (child_instantiate_json.encode (child_instantiate_msg temp_snip721_admin msg)))
    let instantiate_wasm_msg =
        WasmMsg.instantiate (some true_admin) msg.snip721_code_id msg.snip721_code_hash
          instantiate_bytes [] msg.snip721_label
    pure (
        add_submessages response_new (
          reply_on_success (CosmosMsg.wasm instantiate_wasm_msg) instantiate_snip721_reply_id ∷ []))
