-- ===== src/Dealer/Instantiate/Saves.antt =====
-- What `instantiate` of the dealer stores and sends, and when it refuses.
use snip721_migratable.Base.{◌≡◌, ◌≢◌, refl, true, false, none, some, List, [], ◌∷◌}
use snip721_migratable.Exec.{ok, err, generic_err}
use snip721_migratable.Cosmwasm.{
  CanonicalAddr, Addr, MessageInfo, Env, CosmosMsg, WasmMsg, SubMsg, success,
}
use snip721_migratable.Dealer.Msg.{InstantiateMsg, MigratableSnip721InstantiateMsg}
use snip721_migratable.Dealer.State.View.{view, save_rules}
use snip721_migratable.Dealer.Instantiate.{instantiate, is_empty}
use snip721_migratable.Dealer.Instantiate.Owner.{Owns, true_admin-Owns}
use snip721_migratable.Platform.{Platform}
use snip721_migratable.Platform.Laws.{Laws, Sends, messages-response}

pub is_empty_ne {ℓ} : {A : Type ℓ} (xs : List A) → xs ≢ [] → is_empty xs ≡ false
is_empty_ne [] h = absurd (h refl)
is_empty_ne (x ∷ xs) h = refl

module _ (p : Platform) where
  open p use {
    types, Storage, Binary, Response, Circumstance, addr_validate, addr_canonicalize,
    add_submessages, response_new, reply_on_success, child_instantiate_json,
  }

  module _ (env : Env Circumstance) (info : MessageInfo) (msg : InstantiateMsg types)
      (s : Storage) where
    -- With no prices nothing is stored, and the call is refused.
    pub instantiate_no_prices :
        msg.prices ≡ []
        → instantiate p env info msg s ≡ (err (generic_err "No purchase prices were specified"), s)
    unfolding instantiate
    instantiate_no_prices h = rw h

    -- The sub-message that instantiates the child, to be answered by the reply with the id 1.
    abbrev pub child_instantiation : Addr → Binary → SubMsg Binary
    child_instantiation a b = record {
      id = 1;
      msg = CosmosMsg.wasm (
          WasmMsg.instantiate (some a) msg.snip721_code_id msg.snip721_code_hash b []
            msg.snip721_label);
      reply_on = success;
    }

    -- The collection that is asked for: the dealer is its admin, the supply and the owners are
    -- public, nothing can be burnt, and one contract can subscribe to its migrations.
    abbrev pub collection_msg : MigratableSnip721InstantiateMsg types
    collection_msg = record {
      instantiate = record {
        name = "PurchasableSnip721";
        symbol = "PUR721";
        admin = some env.contract.address;
        entropy = msg.entropy;
        royalty_info = msg.royalty_info;
        config = some (record {
          public_token_supply = some true;
          public_owner = some true;
          enable_sealed_metadata = none;
          unwrapped_metadata_is_private = none;
          minter_may_update_metadata = none;
          owner_may_update_metadata = none;
          enable_burn = some false;
        });
        post_init_callback = none;
        post_init_data = none;
      };
      max_migration_complete_event_subscribers = 1;
    }

    module _ (laws : Laws p) (a : Addr) (c : CanonicalAddr) (some_price : msg.prices ≢ [])
        (owns : Owns p msg.admin info.sender a) (hc : addr_canonicalize a ≡ ok c) where
      runs_with :
          (b : Binary)
          → child_instantiate_json.encode collection_msg ≡ ok b
          → Sends p (instantiate p env info msg s).0 (child_instantiation a b ∷ [])
            × (view p (instantiate p env info msg s).1 ≡ record (view p s) {
              admin = ok c;
              prices = ok msg.prices;
              code_hash = ok msg.snip721_code_hash;
              metadata = ok (record {
                public_metadata = msg.public_metadata;
                private_metadata = msg.private_metadata;
              });
            })
      unfolding instantiate
      runs_with b hb = rw (is_empty_ne msg.prices some_price) (
          simp (true_admin-Owns p owns, hc, hb, save_rules, laws)
            ((_, refl, simp (messages-response, laws.response.reply_on_success_lem, laws)), refl))

      -- Under the laws of the libraries, with a price, and an owner `a` with a canonical form,
      -- that is the admin whom the message names and whose address is valid, or the sender if it
      -- names none: the call stores admin, prices, code hash and metadata, and leaves the other
      -- items as they were. It sends one message, to be answered by the reply with the id 1 if it
      -- succeeds: it instantiates the child, with `a` as the chain's admin of the code, and with
      -- bytes that are read as the message for a collection with the dealer itself as its admin, a
      -- public supply and public owners, no burning, and room for one subscriber.
      pub instantiate_stores :
          (b : Binary) × (child_instantiate_json.decode b ≡ ok collection_msg)
          × Sends p (instantiate p env info msg s).0 (child_instantiation a b ∷ [])
          × (view p (instantiate p env info msg s).1 ≡ record (view p s) {
            admin = ok c;
            prices = ok msg.prices;
            code_hash = ok msg.snip721_code_hash;
            metadata = ok (record {
              public_metadata = msg.public_metadata;
              private_metadata = msg.private_metadata;
            });
          })
      instantiate_stores =
          let (b, he, hd) = laws.message.child_instantiate_faithful.round_trip collection_msg in
          let (sends, stores) = runs_with b he in (b, hd, sends, stores)
