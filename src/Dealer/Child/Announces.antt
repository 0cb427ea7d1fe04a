-- ===== src/Dealer/Child/Announces.antt =====
-- Where the dealer reads the address of its child in a reply, told apart from the code.
use snip721_migratable.Base.{
  Bool-cases, String, ◌≡◌, ◌≢◌, ◌⊎◌, ◌↔◌, inl, inr, refl, List, [], ◌∷◌, arith, eq_iff, find,
  str_eq,
}
use snip721_migratable.Exec.{Outcome, ok, panic, and_then, or_panic, continue, lift, ◌>>=◌}
use snip721_migratable.Cosmwasm.{Attribute, Event, Env, SubMsgResult, succeeded, failed}
use snip721_migratable.Dealer.Instantiate.{instantiate_snip721_reply_id}
use snip721_migratable.Dealer.Child.{reply, on_instantiated_snip721_reply, contract_address}
use snip721_migratable.Platform.{Platform}

-- `a` is the value of the first attribute "contract_address".
abbrev pub FirstAddress : List Attribute → String → Type 0
FirstAddress [] a = ⊥
FirstAddress (x ∷ xs) a =
    ((x.key ≡ "contract_address") × (x.value ≡ a))
    ⊎ ((x.key ≢ "contract_address") × FirstAddress xs a)

-- The first event "instantiate" has `a` as its first address.
abbrev pub Announces : List Event → String → Type 0
Announces [] a = ⊥
Announces (e ∷ es) a =
    ((e.ty ≡ "instantiate") × FirstAddress e.attributes a)
    ⊎ ((e.ty ≢ "instantiate") × Announces es a)

-- The value that `contract_address` finds among attributes.
abbrev address_among : List Attribute → Outcome String
address_among xs =
    and_then (or_panic (find (λ (x : Attribute). str_eq x.key "contract_address") xs))
      λ x. ok x.value

address_among_iff :
    (xs : List Attribute) (a : String) → (address_among xs ≡ ok a) ↔ FirstAddress xs a
address_among_iff [] a = ground arith
address_among_iff (x ∷ xs) a =
    ground (arith, eq_iff x.key "contract_address", address_among_iff xs a)

-- The reply takes `a` for the child's address exactly when the first event "instantiate" has the
-- value `a` in its first attribute "contract_address".
pub contract_address_iff :
    (es : List Event) (a : String) → (contract_address es ≡ ok a) ↔ Announces es a
contract_address_iff [] a = ground arith
contract_address_iff (e ∷ es) a =
    ground (
      arith,
      eq_iff e.ty "instantiate",
      address_among_iff e.attributes a,
      contract_address_iff es a,
    )

address_among_total :
    (xs : List Attribute) → ((a : String) × (address_among xs ≡ ok a)) ⊎ (address_among xs ≡ panic)
address_among_total [] = inr refl
address_among_total (x ∷ xs) = elim (Bool-cases (str_eq x.key "contract_address")) [
  | inl same ↦ inl (x.value, rw same)
  | inr differs ↦ rw differs (address_among_total xs)
]

pub contract_address_total :
    (es : List Event)
    → ((a : String) × (contract_address es ≡ ok a)) ⊎ (contract_address es ≡ panic)
contract_address_total [] = inr refl
contract_address_total (e ∷ es) = elim (Bool-cases (str_eq e.ty "instantiate")) [
  | inl same ↦ rw same (address_among_total e.attributes)
  | inr differs ↦ rw differs (contract_address_total es)
]

-- The instantiation failed, or no address is announced.
abbrev pub IsSilent : {Binary : Type 0} → SubMsgResult Binary → Type 0
IsSilent (failed message) = Unit
IsSilent (succeeded response) = (a : String) → Announces response.events a → ⊥

silent_panics :
    (es : List Event) → ((a : String) → Announces es a → ⊥) → contract_address es ≡ panic
silent_panics es silent = elim (contract_address_total es) [
  | inl (a, found) ↦ absurd (silent a ((contract_address_iff es a).0 found))
  | inr none_found ↦ none_found
]

-- The reply to an instantiation that failed, or whose events announce no address, panics and
-- stores nothing.
pub reply_panics :
    (p : Platform) (env : Env p.Circumstance) (r : SubMsgResult p.Binary) (s : p.Storage)
    → IsSilent r
    → reply p env (record { id = instantiate_snip721_reply_id; result = r }) s ≡ (panic, s)
unfolding reply on_instantiated_snip721_reply
reply_panics p env (failed message) s silent = refl
reply_panics p env (succeeded response) s silent =
    rw (silent_panics response.events silent, continue, ◌>>=◌, lift)
