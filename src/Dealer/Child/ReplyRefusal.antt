-- ===== src/Dealer/Child/ReplyRefusal.antt =====
-- When the dealer refuses a reply, and with which error.
use mathlib.Core.Path.{subst}
use snip721_migratable.Base.{
  ℕ, ◌==◌, Bool-cases, String, ◌≡◌, ◌≢◌, ◌↔◌, inl, inr, refl, sym, ap, none, [], arith,
}
use snip721_migratable.Exec.{
  Outcome, Outcome-cases, StdError, ok, err, panic, unwrap_or, continue, lift, ◌>>=◌,
}
use snip721_migratable.Cosmwasm.{
  Addr, CanonicalAddr, Env, SubMsgResult, SubMsgResponse, Reply, succeeded, failed,
  subscribe_to_migration_complete_event,
}
use snip721_migratable.Snip721.{Snip721ExecuteMsg}
use snip721_migratable.Dealer.Instantiate.{instantiate_snip721_reply_id}
use snip721_migratable.Dealer.State.View.{view}
use snip721_migratable.Dealer.Child.{
  reply, on_instantiated_snip721_reply, contract_address, unknown_reply_id,
}
use snip721_migratable.Dealer.Child.Announces.{
  Announces, contract_address_iff, contract_address_total,
}
use snip721_migratable.Dealer.Child.Replies.{reply_unknown, reply_stores}
use snip721_migratable.Platform.{Platform}
use snip721_migratable.Platform.Laws.{Laws, Canonical, HasSlot}

module _ (p : Platform) (laws : Laws p) (env : Env p.Circumstance) (s : p.Storage) (owner : Addr)
    (raw_owner : CanonicalAddr) (h : String) (hh : (view p s).code_hash ≡ ok h)
    (ho : (view p s).admin ≡ ok raw_owner) (canonical : Canonical p owner raw_owner)
    (listed : unwrap_or [] (view p s).subscribed ≡ ok []) (room : HasSlot (view p s).slots) where
  open p use {Binary, Response, addr_validate}

  -- Why a reply is refused: it is no reply to the instantiation, or the address announced is not
  -- valid.
  pub data ReplyRefusal (id : ℕ) (result : SubMsgResult Binary) (e : StdError) : Type 0 where
    unknown : id ≢ 1 → e ≡ unknown_reply_id id → ReplyRefusal id result e
    invalid :
        (response : SubMsgResponse Binary) (a : String)
        → id ≡ 1
        → result ≡ succeeded response
        → Announces response.events a
        → addr_validate a ≡ err e
        → ReplyRefusal id result e

  abbrev ended : Outcome Response × p.Storage → Outcome Response
  ended r = r.0

  abbrev replied : SubMsgResult Binary → Outcome Response
  replied result = (reply p env (record { id = instantiate_snip721_reply_id; result = result }) s).0

  module _ (response : SubMsgResponse Binary) (a : String)
      (found : contract_address response.events ≡ ok a) where
    valid_replies :
        (b : Addr) → addr_validate a ≡ ok b → (r : Response) × (replied (succeeded response) ≡ ok r)
    valid_replies b hv =
        let (raw, same, form) = laws.api.validate_lem hv in
        let (subscribe_bytes, hs, _) =
          laws.message.migratable_execute_faithful.round_trip
            (subscribe_to_migration_complete_event env.contract.address env.contract.code_hash) in
        let (change_admin_bytes, hm, _) =
          laws.message.snip721_execute_faithful.round_trip
            (Snip721ExecuteMsg.change_admin owner none) in
        let (sends, _) =
          reply_stores p laws env response s b owner raw raw_owner h [] subscribe_bytes
            change_admin_bytes (rw (same) found) (subst (λ x. addr_validate x ≡ ok b) (sym same) hv)
            form.canonicalized hh ho canonical listed room tt hs hm in
        (sends.0, sends.1)

    invalid_fails :
        (e : StdError)
        → addr_validate a ≡ err e
        → reply p env (record { id = instantiate_snip721_reply_id; result = succeeded response }) s
          ≡ (err e, s)
    unfolding reply on_instantiated_snip721_reply
    invalid_fails e hv = rw (found, hv, continue, ◌>>=◌, lift)

    invalid_panics :
        addr_validate a ≡ panic
        → reply p env (record { id = instantiate_snip721_reply_id; result = succeeded response }) s
          ≡ (panic, s)
    unfolding reply on_instantiated_snip721_reply
    invalid_panics hv = rw (found, hv, continue, ◌>>=◌, lift)

  silent_fails :
      (response : SubMsgResponse Binary)
      → contract_address response.events ≡ panic
      → reply p env (record { id = instantiate_snip721_reply_id; result = succeeded response }) s
        ≡ (panic, s)
  unfolding reply on_instantiated_snip721_reply
  silent_fails response none_found = rw (none_found, continue, ◌>>=◌, lift)

  failed_panics : (message : String) → replied (failed message) ≡ panic
  unfolding reply on_instantiated_snip721_reply
  failed_panics message = refl

  Refusal-of_result :
      (result : SubMsgResult Binary) {e : StdError}
      → replied result ≡ err e
      → ReplyRefusal 1 result e
  Refusal-of_result (failed message) hr = absurd (cc (hr, failed_panics message))
  Refusal-of_result (succeeded response) hr = elim (contract_address_total response.events) [
    | inl (a, found) ↦ elim (Outcome-cases (addr_validate a)) [
      | inl (b, hv) ↦ absurd (cc (hr, (valid_replies response a found b hv).1))
      | inr (inl (e', hv)) ↦
          invalid response a refl refl ((contract_address_iff response.events a).0 found)
            (cc (hr, hv, ap ended (invalid_fails response a found e' hv)))
      | inr (inr hv) ↦ absurd (cc (hr, ap ended (invalid_panics response a found hv)))
    ]
    | inr none_found ↦ absurd (cc (hr, ap ended (silent_fails response none_found)))
  ]

  ReplyRefusal-of_err :
      (id : ℕ) (result : SubMsgResult Binary) {e : StdError}
      → (reply p env (record { id = id; result = result }) s).0 ≡ err e
      → ReplyRefusal id result e
  ReplyRefusal-of_err id result {e} hr = elim (Bool-cases (id == 1)) [
    | inl same ↦
        let one : id ≡ 1 = ground arith in
        subst (λ n. ReplyRefusal n result e) (sym one)
          (Refusal-of_result result
            (subst (λ n. (reply p env (record { id = n; result = result }) s).0 ≡ err e) one hr))
    | inr differs ↦
        let other : id ≢ 1 = λ e. ground arith in
        let refused = reply_unknown p env (record { id = id; result = result }) s other in
        unknown other (cc (hr, ap ended refused))
  ]

  err_of_ReplyRefusal :
      (id : ℕ) (result : SubMsgResult Binary) {e : StdError}
      → ReplyRefusal id result e
      → (reply p env (record { id = id; result = result }) s).0 ≡ err e
  err_of_ReplyRefusal id result (unknown other he) =
      rw (reply_unknown p env (record { id = id; result = result }) s other, he)
  err_of_ReplyRefusal id result {e} (invalid response a one succeeds told hv) =
      rw (one, succeeds)
        (ap ended (invalid_fails response a ((contract_address_iff response.events a).1 told) e hv))

  -- Under the laws of the libraries, for an instantiated dealer (a code hash and a readable admin
  -- stored, no subscriber and room for one), a reply is refused with the error `e` exactly when
  -- its id is not 1 and `e` names the id, or its id is 1, the instantiation succeeded, the address
  -- that it announces is not valid and `e` is the error for that.
  pub reply_err_iff :
      (msg : Reply Binary) (e : StdError)
      → ((reply p env msg s).0 ≡ err e) ↔ ReplyRefusal msg.id msg.result e
  reply_err_iff msg e =
      (ReplyRefusal-of_err msg.id msg.result, err_of_ReplyRefusal msg.id msg.result)
