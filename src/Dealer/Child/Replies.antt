-- ===== src/Dealer/Child/Replies.antt =====
-- What the dealer does once its child contract was instantiated.
use snip721_migratable.Base.{String, ◌≡◌, ◌≢◌, refl, ◌∙◌, none, List, [], ◌∷◌, ◌++◌, arith}
use snip721_migratable.Exec.{Outcome, ok, err, unwrap_or, continue, reads, lift, ◌>>=◌}
use snip721_migratable.Cosmwasm.{
  CanonicalAddr, Addr, CanonicalContractInfo, Env, CosmosMsg, WasmMsg, SubMsg, SubMsgResponse,
  Reply, succeeded, never, subscribe_to_migration_complete_event,
}
use snip721_migratable.Snip721.{Snip721ExecuteMsg}
use snip721_migratable.Dealer.Instantiate.{instantiate_snip721_reply_id}
use snip721_migratable.Dealer.State.View.{
  view, save_rules, load_rules, view-save_address, view-add, add_ok,
}
use snip721_migratable.Dealer.State
use snip721_migratable.Dealer.Child.{
  reply, on_instantiated_snip721_reply, contract_address, unknown_reply_id,
}
use snip721_migratable.Platform.{Platform}
use snip721_migratable.Platform.Laws.{Laws, Sends, Canonical, HasSlot, All, messages-response}

module _ (p : Platform) where
  open p use {
    types, Storage, Binary, Response, Circumstance, addr_validate, addr_canonicalize,
    migratable_execute_json, snip721_execute_json,
  }

  -- A message to the contract at `a` with code hash `h`, for which no reply is asked.
  abbrev pub call : Addr → String → Binary → SubMsg Binary
  call a h bytes = record {
    id = 0;
    msg = CosmosMsg.wasm (WasmMsg.execute a h bytes []);
    reply_on = never;
  }

  -- A reply with any other id is refused, and nothing is stored.
  pub reply_unknown :
      (env : Env Circumstance) (msg : Reply Binary) (s : Storage)
      → msg.id ≢ instantiate_snip721_reply_id
      → reply p env msg s ≡ (err (unknown_reply_id msg.id), s)
  unfolding reply
  reply_unknown env msg s h = ground arith

  module _ (laws : Laws p) (env : Env Circumstance) (response : SubMsgResponse Binary) (s : Storage)
      (child owner : Addr) (raw_child raw_owner : CanonicalAddr) (h : String)
      (l : List CanonicalContractInfo) (subscribe_bytes change_admin_bytes : Binary)
      (hc : contract_address response.events ≡ ok child) (hv : addr_validate child ≡ ok child)
      (ha : addr_canonicalize child ≡ ok raw_child) (hh : (view p s).code_hash ≡ ok h)
      (ho : (view p s).admin ≡ ok raw_owner) (canonical : Canonical p owner raw_owner)
      (listed : unwrap_or [] (view p s).subscribed ≡ ok l) (room : HasSlot (view p s).slots)
      (fresh : All (λ (c : CanonicalContractInfo). c.address ≢ raw_child) l)
      (hs : migratable_execute_json.encode
          (subscribe_to_migration_complete_event env.contract.address env.contract.code_hash)
        ≡ ok subscribe_bytes)
      (hm : snip721_execute_json.encode (Snip721ExecuteMsg.change_admin owner none)
        ≡ ok change_admin_bytes) where
    -- The storage once the child's address is saved.
    abbrev with_address : Storage
    with_address = ((State.child_snip721_address p).save raw_child s).1

    -- The storage once the child is subscribed too.
    abbrev with_child : Storage
    with_child = (p.add_migration_complete_event_subscriber raw_child h with_address).1

    listed_here : unwrap_or [] (view p with_address).subscribed ≡ ok l
    listed_here = simp (view-save_address, laws) listed

    room_here : HasSlot (view p with_address).slots
    room_here = simp (view-save_address, laws) room

    code_hash_here : (State.child_snip721_code_hash p).load with_address ≡ ok h
    code_hash_here = simp (load_rules, view-save_address, laws) hh

    admin_here : (State.admin p).load with_address ≡ ok raw_owner
    admin_here = simp (load_rules, view-save_address, laws) ho

    abbrev replied : Outcome Response × Storage
    replied =
        reply p env (record { id = instantiate_snip721_reply_id; result = succeeded response }) s

    reply_eq : replied ≡ (
      ok (
          p.add_submessages p.response_new (
            p.sub_msg_new (CosmosMsg.wasm (WasmMsg.execute child h subscribe_bytes []))
            ∷ p.sub_msg_new (CosmosMsg.wasm (WasmMsg.execute child h change_admin_bytes []))
            ∷ [])),
      with_child,
    )
    unfolding reply on_instantiated_snip721_reply
    reply_eq =
        let added = add_ok p laws raw_child h with_address l listed_here room_here fresh in
        simp (hc, hv, ha, save_rules, laws)
          (rw (
            code_hash_here, admin_here, canonical.humanized, added, hs, hm, continue, ◌>>=◌, reads,
            lift,
          ))

    -- Under the laws of the libraries, with the code hash and an admin stored, room for a
    -- subscriber, and a child that is valid and no subscriber yet, the reply to a successful
    -- instantiation stores the child's address and appends the child to the subscribers; no other
    -- item of the dealer but the slots changes. It sends two messages to the child: subscribe the
    -- dealer to the child's migrations, then make the stored admin its admin.
    pub reply_stores :
        Sends p replied.0 (call child h subscribe_bytes ∷ call child h change_admin_bytes ∷ [])
        × (view p replied.1 ≡ record (view p s) {
          address = ok raw_child;
          subscribed = ok (l ++ record { address = raw_child; code_hash = h } ∷ []);
          slots = (view p replied.1).slots;
        })
    reply_stores = rw reply_eq (
      (_, refl, simp (messages-response, laws.response.sub_msg_new_lem, laws)),
      view-add p laws raw_child h with_address l listed_here room_here fresh
          ∙ simp (view-save_address, laws),
    )
