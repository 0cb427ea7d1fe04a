-- ===== src/Platform/Mock/Remembering.antt =====
-- What long histories rely on, on the concrete platform.
use mathlib.Core.Path.{subst}
use snip721_migratable.Base.{
  ℕ, zero, suc, ◌+◌, ◌≤◌, String, ◌≡◌, inl, inr, refl, ap, sym, List, [], ◌∷◌, ◌++◌, length, arith,
}
use snip721_migratable.Exec.{StdError, Outcome, Outcome-cases, ok, err, panic, unwrap_or}
use snip721_migratable.Cosmwasm.{CanonicalAddr, CanonicalContractInfo, SubMsg}
use snip721_migratable.Platform.{subscribers, remaining_sub_slots}
use snip721_migratable.Platform.History.{
  SubscriptionLaws, RegistrationLaws, CollectionLaws, Subscribed,
}
use snip721_migratable.Platform.Mock.{
  mock, Payload, Entries, mock_canonicalize, mock_add, spend, answered, mock_register, mock_update,
}
use snip721_migratable.Platform.Mock.Subscriptions.{answered-storage}

length-snoc :
    (c : CanonicalContractInfo) (l : List CanonicalContractInfo)
    → length (l ++ c ∷ []) ≡ suc (length l)
length-snoc c [] = refl
length-snoc c (x ∷ l) = let rest = length-snoc c l in omega arith

pub mock_collection : CollectionLaws mock
mock_collection = record {
  instantiate_keeps = λ env info msg s. (refl, refl);
  execute_keeps = λ env info msg s. (refl, refl);
}

abbrev added : String → CanonicalAddr → List CanonicalContractInfo → List CanonicalContractInfo
added h a l = l ++ record { address = a; code_hash = h } ∷ []

-- A successful addition spends a slot and stores the longer list.
added_saves :
    (h : String) (a : CanonicalAddr) (s : Entries) (l : List CanonicalContractInfo)
    → Subscribed mock s l
    → (mock_add a h s).0 ≡ ok tt
    → (s' : Entries) × (spend ((remaining_sub_slots mock).load s) s ≡ ok s')
      × ((mock_add a h s).1 ≡ ("subscribers", Payload.subscribed (added h a l)) ∷ s')
added_saves h a s l listed done =
    elim (Outcome-cases (spend ((remaining_sub_slots mock).load s) s)) [
      | inl (s', e) ↦ (s', e, rw (listed, e, mock_add))
      | inr (inl (x, e)) ↦
          let failed : (mock_add a h s).0 ≡ err x = rw (listed, e, mock_add) in absurd (cc)
      | inr (inr e) ↦
          let failed : (mock_add a h s).0 ≡ panic = rw (listed, e, mock_add) in absurd (cc)
    ]

spend_ok :
    (n : ℕ) (s s' : Entries)
    → spend (ok n) s ≡ ok s'
    → (n' : ℕ) × (n ≡ suc n') × (s' ≡ ("slots", Payload.byte n') ∷ s)
spend_ok zero s s' h = absurd (cc)
spend_ok (suc n) s s' h = let e : ok (("slots", Payload.byte n) ∷ s) ≡ ok s' = h in (n, refl, cc)

answered_eq_ok :
    (r : Outcome (Unit {0}) × Entries) (ms : List (SubMsg Payload))
    → (answered r).0 ≡ ok ms
    → r.0 ≡ ok tt
answered_eq_ok (ok _, s) ms h = refl
answered_eq_ok (err e, s) ms h = absurd (cc)
answered_eq_ok (panic, s) ms h = absurd (cc)

-- A successful registration adds the canonical form of the address.
registered :
    (address h : String) (s : Entries) (ms : List (SubMsg Payload))
    → (mock_register address h s).0 ≡ ok ms
    → (a : CanonicalAddr) × (mock_canonicalize address ≡ ok a)
      × ((mock_add a h s).0 ≡ ok tt)
      × ((mock_register address h s).1 ≡ (mock_add a h s).1)
registered address h s ms done = elim (Outcome-cases (mock_canonicalize address)) [
  | inl (a, e) ↦
      let runs : mock_register address h s ≡ answered (mock_add a h s) = rw (e, mock_register) in
      (
        a,
        e,
        answered_eq_ok (mock_add a h s) ms (rw (← runs) done),
        rw (runs, answered-storage (mock_add a h s)),
      )
  | inr (inl (x, e)) ↦
      let failed : (mock_register address h s).0 ≡ err x = rw (e, mock_register) in absurd (cc)
  | inr (inr e) ↦
      let failed : (mock_register address h s).0 ≡ panic = rw (e, mock_register) in absurd (cc)
]

appends :
    (address h : String) (a : CanonicalAddr) (s : Entries) (l : List CanonicalContractInfo)
    (ms : List (SubMsg Payload))
    → Subscribed mock s l
    → mock_canonicalize address ≡ ok a
    → (mock_register address h s).0 ≡ ok ms
    → (subscribers mock).load (mock_register address h s).1 ≡ ok (added h a l)
appends address h a s l ms listed form done =
    let (b, form', adds, runs) = registered address h s ms done in
    let same : a ≡ b = cc in
    let (s', spent, stored) = added_saves h b s l listed adds in rw (runs, stored, same)

spends :
    (address h : String) (s : Entries) (l : List CanonicalContractInfo) (n : ℕ)
    (ms : List (SubMsg Payload))
    → Subscribed mock s l
    → (remaining_sub_slots mock).load s ≡ ok n
    → (mock_register address h s).0 ≡ ok ms
    → (l' : List CanonicalContractInfo) × (n' : ℕ) × Subscribed mock
        (mock_register address h s).1
        l'
      × ((remaining_sub_slots mock).load (mock_register address h s).1 ≡ ok n')
      × (length l' + n' ≤ length l + n)
spends address h s l n ms listed left done =
    let (a, form, adds, runs) = registered address h s ms done in
    let (s', spent, stored) = added_saves h a s l listed adds in
    let (n', more, stored') = spend_ok n s s' (subst (λ o. spend o s ≡ ok s') left spent) in
    let longer = length-snoc (record { address = a; code_hash = h }) l in
    (added h a l, n', rw (runs, stored), rw (runs, stored, stored'), omega arith)

updates_none :
    (from : CanonicalAddr) (to : CanonicalContractInfo) (s : Entries) (e : StdError)
    → (subscribers mock).load s ≡ err e
    → Subscribed mock (mock_update from to s).1 []
updates_none from to s e unread =
    let same : (mock_update from to s).1 ≡ s = rw (unread, mock_update) in
    subst (λ t. Subscribed mock t []) (sym same) (ap (unwrap_or []) unread)

pub mock_subscription : SubscriptionLaws mock
mock_subscription = record {
  register_appends =
      λ address h a s l r listed form fresh done. appends address h a s l r listed form done;
  register_slots = spends;
  update_none = λ from to s e unread done. updates_none from to s e unread;
}

registers :
    (address h : String) (s : Entries) (ms : List (SubMsg Payload))
    → (mock_register address h s).0 ≡ ok ms
    → (l : List CanonicalContractInfo) × ((subscribers mock).load (mock_register address h s).1
        ≡ ok l)
registers address h s ms done =
    let (a, form, adds, runs) = registered address h s ms done in
    elim (Outcome-cases (unwrap_or [] ((subscribers mock).load s))) [
      | inl (l, listed) ↦
          let (s', spent, stored) = added_saves h a s l listed adds in
          (added h a l, rw (runs, stored))
      | inr (inl (x, e)) ↦ let failed : (mock_add a h s).0 ≡ err x = rw (e, mock_add) in absurd (cc)
      | inr (inr e) ↦ let failed : (mock_add a h s).0 ≡ panic = rw (e, mock_add) in absurd (cc)
    ]

pub mock_registration : RegistrationLaws mock
mock_registration = record { register_readable = registers }
