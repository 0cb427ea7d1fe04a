-- ===== src/Dealer/Deserialize/Refuses.antt =====
-- When the bytes of a message of the dealer are refused.
use snip721_migratable.Base.{◌≡◌, ◌↔◌, refl}
use snip721_migratable.Exec.{Outcome, StdError, ok, err, panic}
use snip721_migratable.Dealer.Deserialize.{visit_bytes, or_else, unsupported_execute_message}
use snip721_migratable.Dealer.Msg.{dealer, migrate, migrate_listener}
use snip721_migratable.Platform.{Platform}
use snip721_migratable.Platform.Laws.{Rejects}

-- An error comes from the last attempt, after an error of the first.
pub or_else_err_iff {ℓ κ} :
    {A : Type ℓ} {B : Type κ} (o : Outcome A) (f : A → B) (rest : Outcome B) {e : StdError}
    → (or_else o f rest ≡ err e) ↔ (((e' : StdError) × (o ≡ err e')) × (rest ≡ err e))
or_else_err_iff (ok a) f rest = (λ h. cc, λ (e', h). cc)
or_else_err_iff (err e') f rest = (λ h. ((e', refl), h), λ h. h.1)
or_else_err_iff panic f rest = (λ h. cc, λ (e', h). cc)

module _ (p : Platform) where
  -- Bytes are refused as a message of the dealer with the error `e` exactly when each of the three
  -- kinds of message is refused and `e` is the error for an unsupported message: no error of one
  -- reader stops the next, and none is reported.
  pub visit_bytes_err_iff :
      (b : p.Binary) (e : StdError)
      → (visit_bytes p b ≡ err e) ↔ (
          Rejects p p.dealer_execute_json b
          × Rejects p p.migratable_execute_json b
          × Rejects p p.migration_listener_json b
          × (e ≡ unsupported_execute_message))
  unfolding visit_bytes
  visit_bytes_err_iff b e =
      let third = or_else_err_iff (p.migration_listener_json.decode b) migrate_listener _ in
      let second = or_else_err_iff (p.migratable_execute_json.decode b) migrate _ in
      let first = or_else_err_iff (p.dealer_execute_json.decode b) dealer _ in
      (
        λ h.
            let (r1, h1) = first.0 h in
            let (r2, h2) = second.0 h1 in let (r3, h3) = third.0 h2 in (r1, r2, r3, cc),
        λ (r1, r2, r3, he). first.1 (r1, second.1 (r2, third.1 (r3, rw he))),
      )
