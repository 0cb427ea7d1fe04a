-- ===== src/Exec/Keeps.antt =====
-- Invariants of calls, one rule for each way to build a call.
use snip721_migratable.Base.{Bool, true, false, if◌then◌else◌}
use snip721_migratable.Exec.{
  Outcome, ok, err, panic, StdError, Exec, continue, pure, fail, lift, reads, reject_if, ◌>>=◌,
}

-- The call keeps `P`, however it ends.
pub record Keeps {ℓ κ} {S : Type ℓ} {A : Type κ} (P : S → Type ℓ) (m : Exec S A)
    : Type (ℓ ⊔ κ) where
  pub at : (s : S) → P s → P (m s).1

module _ {ℓ κ} {S : Type ℓ} {A : Type κ} {P : S → Type ℓ} where
  pub Keeps-pure : (a : A) → Keeps P (pure a)
  Keeps-pure a = record { at = λ s h. h }

  pub Keeps-fail : (e : StdError) → Keeps P (fail {A = A} e)
  Keeps-fail e = record { at = λ s h. h }

  pub Keeps-lift : (r : Outcome A) → Keeps P (lift r)
  Keeps-lift r = record { at = λ s h. h }

  pub Keeps-reads : (f : S → Outcome A) → Keeps P (reads f)
  Keeps-reads f = record { at = λ s h. h }

  pub Keeps-if : (b : Bool) (m n : Exec S A) → Keeps P m → Keeps P n → Keeps P (if b then m else n)
  Keeps-if true m n km kn = km
  Keeps-if false m n km kn = kn

module _ {ℓ} {S : Type ℓ} {P : S → Type ℓ} where
  pub Keeps-reject_if : (b : Bool) (e : StdError) → Keeps P (reject_if b e)
  Keeps-reject_if true e = record { at = λ s h. h }
  Keeps-reject_if false e = record { at = λ s h. h }

module _ {ℓ κ λ'} {S : Type ℓ} {A : Type κ} {B : Type λ'} {P : S → Type ℓ} where
  continue_keeps :
      (r : Outcome A) (s : S) (f : A → Exec S B)
      → ((a : A) → Keeps P (f a))
      → P s
      → P (continue r s f).1
  continue_keeps (ok a) s f kf h = (kf a).at s h
  continue_keeps (err e) s f kf h = h
  continue_keeps panic s f kf h = h

  pub Keeps-bind :
      (m : Exec S A) (f : A → Exec S B) → Keeps P m → ((a : A) → Keeps P (f a)) → Keeps P (m >>= f)
  Keeps-bind m f km kf = record { at = λ s h. continue_keeps (m s).0 (m s).1 f kf (km.at s h) }

pub ruleset keeps_rules =
    (Keeps-pure, Keeps-fail, Keeps-lift, Keeps-reads, Keeps-if, Keeps-reject_if, Keeps-bind)
