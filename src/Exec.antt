-- ===== src/Exec.antt =====
-- How a call ends, and calls that read and write a contract's storage.
pub mod Keeps
use snip721_migratable.Base.{
  ◌≡◌, ◌⊎◌, inl, inr, refl, String, Bool, true, false, Option, none, some, List, [], ◌∷◌,
}

-- `cosmwasm_std::StdError`. The contracts only build `GenericErr`; any other variant comes from a
-- library and is passed on unread.
pub data StdError : Type 0 where
  generic_err : String → StdError
  foreign : String → StdError

-- `StdResult<A>`, with one more end: `unwrap` on an error or on `None` panics, which aborts the
-- contract (the release profile has `panic = 'abort'`).
pub data Outcome {ℓ} (A : Type ℓ) : Type ℓ where
  ok : A → Outcome A
  err : StdError → Outcome A
  panic : Outcome A

-- A call on a storage. What was written before an error stays written here; to drop it is up to
-- the chain that runs the contract.
abbrev pub Exec {ℓ κ} : Type ℓ → Type κ → Type (ℓ ⊔ κ)
Exec S A = S → Outcome A × S

module _ {ℓ} {A : Type ℓ} where
  -- `Result::unwrap`
  abbrev pub unwrap : Outcome A → Outcome A
  unwrap (ok a) = ok a
  unwrap (err e) = panic
  unwrap panic = panic

  -- `Option::unwrap`, and an index that may be out of range
  abbrev pub or_panic : Option A → Outcome A
  or_panic none = panic
  or_panic (some a) = ok a

  -- `unwrap_or_default` at a default
  abbrev pub unwrap_or : A → Outcome A → Outcome A
  unwrap_or d (ok a) = ok a
  unwrap_or d (err e) = ok d
  unwrap_or d panic = panic

pub Outcome-cases {ℓ} :
    {A : Type ℓ} (o : Outcome A)
    → ((a : A) × (o ≡ ok a)) ⊎ ((e : StdError) × (o ≡ err e)) ⊎ (o ≡ panic)
Outcome-cases (ok a) = inl (a, refl)
Outcome-cases (err e) = inr (inl (e, refl))
Outcome-cases panic = inr (inr refl)

module _ {ℓ κ} {S : Type ℓ} {A : Type κ} where
  abbrev pub pure : A → Exec S A
  pure a s = (ok a, s)

  abbrev pub fail : StdError → Exec S A
  fail e s = (err e, s)

  -- A call that does not see the storage.
  abbrev pub lift : Outcome A → Exec S A
  lift r s = (r, s)

  -- A call that reads the storage.
  abbrev pub reads : (S → Outcome A) → Exec S A
  reads f s = (f s, s)

-- `if bad { return Err(e) }`
abbrev pub reject_if {ℓ} : {S : Type ℓ} → Bool → StdError → Exec S (Unit {0})
reject_if true e = fail e
reject_if false e = pure tt

abbrev pub continue {ℓ κ λ'} :
    {S : Type ℓ} {A : Type κ} {B : Type λ'} → Outcome A → S → (A → Exec S B) → Outcome B × S
continue (ok a) s f = f a s
continue (err e) s f = (err e, s)
continue panic s f = (panic, s)

infixl 10 ◌>>=◌ ◌>>◌
abbrev pub ◌>>=◌ {ℓ κ λ'} :
    {S : Type ℓ} {A : Type κ} {B : Type λ'} → Exec S A → (A → Exec S B) → Exec S B
◌>>=◌ m f s = continue (m s).0 (m s).1 f

abbrev pub ◌>>◌ {ℓ κ λ'} : {S : Type ℓ} {A : Type κ} {B : Type λ'} → Exec S A → Exec S B → Exec S B
m >> k = m >>= λ _. k

module _ {ℓ κ} {A : Type ℓ} {B : Type κ} where
  abbrev pub and_then : Outcome A → (A → Outcome B) → Outcome B
  and_then (ok a) f = f a
  and_then (err e) f = err e
  and_then panic f = panic

module _ {ℓ κ} {A : Type ℓ} {B : Type κ} where
  -- `iter().map(f).collect::<StdResult<Vec<_>>>()`: stops at the first error.
  abbrev pub collect : (A → Outcome B) → List A → Outcome (List B)
  collect f [] = ok []
  collect f (x ∷ xs) = and_then (f x) λ y. and_then (collect f xs) λ ys. ok (y ∷ ys)

  -- Inversion of a successful step.
  pub and_then-eq-ok :
      (o : Outcome A) (f : A → Outcome B) {b : B}
      → and_then o f ≡ ok b
      → (a : A) × (o ≡ ok a) × (f a ≡ ok b)
  and_then-eq-ok (ok a) f h = (a, refl, h)
  and_then-eq-ok (err e) f h = cc
  and_then-eq-ok panic f h = cc

-- What the chain keeps of a call: its writes if it succeeds, none of them otherwise.
abbrev pub commit {ℓ κ} : {S : Type ℓ} {A : Type κ} → Outcome A × S → S → S
commit (ok a, t) s = t
commit (err e, t) s = s
commit (panic, t) s = s

-- A property of the storage holds after a call if it held before, and the call, if it succeeds,
-- keeps it.
pub commit_keeps {ℓ κ λ'} :
    {S : Type ℓ} {A : Type κ} (P : S → Type λ') (r : Outcome A × S) (s : S)
    → P s
    → ((a : A) → r.0 ≡ ok a → P r.1)
    → P (commit r s)
commit_keeps P (ok a, t) s before after = after a refl
commit_keeps P (err e, t) s before after = before
commit_keeps P (panic, t) s before after = before

-- A call that writes nothing leaves what it found.
pub commit_reads {ℓ κ} :
    {S : Type ℓ} {A : Type κ} (r : Outcome A × S) (s : S) → r.1 ≡ s → commit r s ≡ s
commit_reads (ok a, t) s same = same
commit_reads (err e, t) s same = refl
commit_reads (panic, t) s same = refl

-- The writes of a call that succeeds are kept.
pub commit_ok {ℓ κ} :
    {S : Type ℓ} {A : Type κ} (r : Outcome A × S) (s : S) (a : A) → r.0 ≡ ok a → commit r s ≡ r.1
commit_ok (ok a, t) s b done = refl
commit_ok (err e, t) s b done = cc
commit_ok (panic, t) s b done = cc
