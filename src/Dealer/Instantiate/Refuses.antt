-- ===== src/Dealer/Instantiate/Refuses.antt =====
-- When `instantiate` of the dealer refuses, and with which error.
use mathlib.Core.Path.{subst}
use snip721_migratable.Base.{
  ◌≡◌, ◌≢◌, ◌⊎◌, ◌↔◌, inl, inr, refl, ap, Option, String, List, [], ◌∷◌, some, none,
}
use snip721_migratable.Exec.{
  Outcome, Outcome-cases, StdError, ok, err, panic, generic_err, continue, lift, ◌>>=◌, ◌>>◌,
}
use snip721_migratable.Cosmwasm.{CanonicalAddr, Addr, MessageInfo, Env}
use snip721_migratable.Dealer.Msg.{InstantiateMsg}
use snip721_migratable.Dealer.Instantiate.{instantiate, true_admin}
use snip721_migratable.Dealer.Instantiate.Owner.{Owns-of_true_admin}
use snip721_migratable.Dealer.Instantiate.Saves.{
  instantiate_no_prices, instantiate_stores, is_empty_ne,
}
use snip721_migratable.Platform.{Platform}
use snip721_migratable.Platform.Laws.{Laws, Canonical}

List-cases {ℓ} : {A : Type ℓ} (xs : List A) → (xs ≡ []) ⊎ (xs ≢ [])
List-cases [] = inl refl
List-cases (x ∷ xs) = inr (λ e. cc)

module _ (p : Platform) (laws : Laws p) (env : Env p.Circumstance) (info : MessageInfo)
    (msg : InstantiateMsg p.types) (s : p.Storage) (raw_sender : CanonicalAddr)
    (sender_form : Canonical p info.sender raw_sender) where
  -- Without prices, or with an admin that is no valid address.
  pub data Refusal (e : StdError) : Type 0 where
    no_prices : msg.prices ≡ [] → e ≡ generic_err "No purchase prices were specified" → Refusal e
    no_admin :
        (a : String) → msg.prices ≢ [] → msg.admin ≡ some a → p.addr_validate a ≡ err e → Refusal e

  owner_form :
      (admin : Option String) (owner : Addr)
      → true_admin p admin info.sender ≡ ok owner
      → (raw : CanonicalAddr) × Canonical p owner raw
  owner_form none owner h =
      let e : info.sender ≡ owner = cc in
      (raw_sender, subst (λ a. Canonical p a raw_sender) e sender_form)
  owner_form (some a) owner h = let (raw, _, form) = laws.api.validate_lem h in (raw, form)

  refused_by_admin :
      {e : StdError}
      → msg.prices ≢ []
      → true_admin p msg.admin info.sender ≡ err e
      → (instantiate p env info msg s).0 ≡ err e
  unfolding instantiate
  refused_by_admin priced h =
      rw (is_empty_ne msg.prices priced) (rw (h, continue, ◌>>=◌, ◌>>◌, lift))

  accepted :
      (owner : Addr)
      → msg.prices ≢ []
      → true_admin p msg.admin info.sender ≡ ok owner
      → (r : p.Response) × ((instantiate p env info msg s).0 ≡ ok r)
  accepted owner priced h =
      let (raw, form) = owner_form msg.admin owner h in
      let (_, _, sends, _) =
        instantiate_stores p env info msg s laws owner raw priced
          (Owns-of_true_admin p msg.admin info.sender owner h) form.canonicalized in
      (sends.0, sends.1)

  panics_by_admin :
      msg.prices ≢ []
      → true_admin p msg.admin info.sender ≡ panic
      → (instantiate p env info msg s).0 ≡ panic
  unfolding instantiate
  panics_by_admin priced h =
      rw (is_empty_ne msg.prices priced) (rw (h, continue, ◌>>=◌, ◌>>◌, lift))

  -- The sender itself is never refused.
  named_admin :
      {e : StdError} (named : Option String)
      → true_admin p named info.sender ≡ err e
      → (a : String) × (named ≡ some a) × (p.addr_validate a ≡ err e)
  named_admin none h = absurd (cc)
  named_admin (some a) h = (a, refl, h)

  Refusal-of_err : {e : StdError} → (instantiate p env info msg s).0 ≡ err e → Refusal e
  Refusal-of_err h = elim (List-cases msg.prices) [
    | inl none_listed ↦ no_prices none_listed (
        cc (
          h,
          ap (λ (r : Outcome p.Response × p.Storage). r.0)
              (instantiate_no_prices p env info msg s none_listed),
        ))
    | inr priced ↦ elim (Outcome-cases (true_admin p msg.admin info.sender)) [
      | inl (owner, valid) ↦ absurd (cc (h, (accepted owner priced valid).1))
      | inr (inl (e', invalid)) ↦
          let (a, names, refused) = named_admin msg.admin invalid in
          no_admin a priced names (cc (h, refused, refused_by_admin priced invalid))
      | inr (inr broken) ↦ absurd (cc (h, panics_by_admin priced broken))
    ]
  ]

  err_of_Refusal : {e : StdError} → Refusal e → (instantiate p env info msg s).0 ≡ err e
  err_of_Refusal (no_prices none_listed he) =
      rw (instantiate_no_prices p env info msg s none_listed, he)
  err_of_Refusal (no_admin a priced names h) = refused_by_admin priced (rw (names, h))

  -- Under the laws of the libraries, and from a sender whose address has a canonical form,
  -- `instantiate` of the dealer fails with the error `e` exactly when no price is listed and `e`
  -- says so, or a price is listed, the message names an admin, and `e` is the error of
  -- `addr_validate` for that name. Nothing else makes it fail with an error.
  pub instantiate_err_iff : (e : StdError) → ((instantiate p env info msg s).0 ≡ err e) ↔ Refusal e
  instantiate_err_iff e = (Refusal-of_err, err_of_Refusal)
