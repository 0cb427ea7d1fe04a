-- ===== src/Dealer/Lifecycle.antt =====
-- A dealer from its instantiation to the reply that tells it the address of its child.
use snip721_migratable.Base.{◌≡◌, ◌≢◌, none, [], ◌∷◌, ap}
use snip721_migratable.Exec.{Outcome, ok, unwrap_or}
use snip721_migratable.Cosmwasm.{
  CanonicalAddr, Addr, Env, MessageInfo, SubMsgResponse, succeeded,
  subscribe_to_migration_complete_event,
}
use snip721_migratable.Snip721.{Snip721ExecuteMsg}
use snip721_migratable.Dealer.Msg.{InstantiateMsg, DealerState}
use snip721_migratable.Dealer.State.View.{View, view}
use snip721_migratable.Dealer.State.Represents.{Represents}
use snip721_migratable.Dealer.Instantiate.{instantiate, instantiate_snip721_reply_id}
use snip721_migratable.Dealer.Instantiate.Owner.{Owns}
use snip721_migratable.Dealer.Instantiate.Saves.{instantiate_stores}
use snip721_migratable.Dealer.Child.{reply, contract_address}
use snip721_migratable.Dealer.Child.Replies.{reply_stores, call}
use snip721_migratable.Platform.{Platform}
use snip721_migratable.Platform.Laws.{Laws, Sends, Canonical, HasSlot}

module _ (p : Platform) (laws : Laws p) (env env' : Env p.Circumstance) (info : MessageInfo)
    (msg : InstantiateMsg p.types) (response : SubMsgResponse p.Binary) (s : p.Storage)
    (owner child : Addr) (raw_owner raw_child : CanonicalAddr) (some_price : msg.prices ≢ [])
    (owned : Owns p msg.admin info.sender owner) (owner_form : Canonical p owner raw_owner)
    (listed : unwrap_or [] (view p s).subscribed ≡ ok []) (room : HasSlot (view p s).slots)
    (told : contract_address response.events ≡ ok child) (valid : p.addr_validate child ≡ ok child)
    (child_form : Canonical p child raw_child) where
  abbrev pub instantiated : p.Storage
  instantiated = (instantiate p env info msg s).1

  abbrev pub running : Outcome p.Response × p.Storage
  running =
      reply p env' (record { id = instantiate_snip721_reply_id; result = succeeded response })
        instantiated

  abbrev pub terms : DealerState p.types
  terms = record {
    admin = owner;
    prices = msg.prices;
    public_metadata = msg.public_metadata;
    private_metadata = msg.private_metadata;
    child_snip721_code_hash = msg.snip721_code_hash;
    child_snip721_address = child;
  }

  instantiated-view : view p instantiated ≡ record (view p s) {
    admin = ok raw_owner;
    prices = ok msg.prices;
    code_hash = ok msg.snip721_code_hash;
    metadata =
        ok (record {
          public_metadata = msg.public_metadata;
          private_metadata = msg.private_metadata;
        });
  }
  instantiated-view =
      let (_, _, _, stores) =
        instantiate_stores p env info msg s laws owner raw_owner some_price owned
          owner_form.canonicalized in
      stores

  -- What the reply sends and stores, at the encodings of its two messages.
  pub running_stores :
      (subscribe_bytes change_admin_bytes : p.Binary)
      → p.migratable_execute_json.encode
          (subscribe_to_migration_complete_event env'.contract.address env'.contract.code_hash)
        ≡ ok subscribe_bytes
      → p.snip721_execute_json.encode (Snip721ExecuteMsg.change_admin owner none)
        ≡ ok change_admin_bytes
      → Sends p running.0 (
          call p child msg.snip721_code_hash subscribe_bytes
          ∷ call p child msg.snip721_code_hash change_admin_bytes
          ∷ [])
        × (view p running.1 ≡ record (view p instantiated) {
          address = ok raw_child;
          subscribed = ok (record { address = raw_child; code_hash = msg.snip721_code_hash } ∷ []);
          slots = (view p running.1).slots;
        })
  running_stores subscribe_bytes change_admin_bytes hs hm =
      reply_stores p laws env' response instantiated child owner raw_child raw_owner
        msg.snip721_code_hash [] subscribe_bytes change_admin_bytes told valid
        child_form.canonicalized (ap (λ (v : View p). v.code_hash) instantiated-view)
        (ap (λ (v : View p). v.admin) instantiated-view) owner_form (rw instantiated-view listed)
        (rw instantiated-view room) tt hs hm

  running_view : view p running.1 ≡ record (view p instantiated) {
    address = ok raw_child;
    subscribed = ok (record { address = raw_child; code_hash = msg.snip721_code_hash } ∷ []);
    slots = (view p running.1).slots;
  }
  running_view =
      let (subscribe_bytes, hs, _) =
        laws.message.migratable_execute_faithful.round_trip
          (subscribe_to_migration_complete_event env'.contract.address env'.contract.code_hash) in
      let (change_admin_bytes, hm, _) =
        laws.message.snip721_execute_faithful.round_trip
          (Snip721ExecuteMsg.change_admin owner none) in
      (running_stores subscribe_bytes change_admin_bytes hs hm).1

  -- Under the laws of the libraries, with a price listed, an owner (the admin whom the message
  -- names and whose address is valid, or else the sender), a valid child, and no subscriber but
  -- room for one: a dealer that was instantiated with these terms, and then told of its child by
  -- the reply, runs on exactly these terms, with that child, and has that child as its one
  -- subscriber.
  pub running-Represents :
      (rep : Represents p running.1 terms) × ((view p running.1).subscribed
        ≡ ok (record { address = rep.raw_child; code_hash = msg.snip721_code_hash } ∷ []))
  running-Represents = (
    record {
      raw_admin = raw_owner;
      raw_child = raw_child;
      admin_form = owner_form;
      child_form = child_form;
      admin = simp (running_view, instantiated-view);
      address = simp running_view;
      code_hash = simp (running_view, instantiated-view);
      prices = simp (running_view, instantiated-view);
      metadata = simp (running_view, instantiated-view);
    },
    simp running_view,
  )
