-- ===== src/Platform/Mock/Subscriptions.antt =====
-- Subscriptions on the concrete platform.
use snip721_migratable.Base.{
  ℕ, zero, suc, String, ◌≡◌, ◌≢◌, inl, inr, refl, ◌∙◌, List, [], ◌∷◌, ◌++◌, map, arith, eq_iff,
}
use snip721_migratable.Exec.{Outcome, Outcome-cases, ok, err, panic, unwrap_or}
use snip721_migratable.Cosmwasm.{CanonicalAddr, CanonicalContractInfo, Codec}
use snip721_migratable.Platform.{subscribers, remaining_sub_slots}
use snip721_migratable.Platform.Laws.{HasSlot, replace}
use snip721_migratable.Platform.Mock.{
  mock, Payload, Entries, mock_canonicalize, mock_item, mock_add, spend, answered, mock_update,
  mock_register,
}

pub mock_load_ne :
    {A B : Type 0} (c : Codec Payload A) (d : Codec Payload B) (k j : String)
    → k ≢ j
    → (a : A) (s : Entries)
    → (mock_item d j).load ((mock_item c k).save a s).1 ≡ (mock_item d j).load s
mock_load_ne c d k j ne a s = ground (arith, eq_iff k j)

pub mock_update_lem :
    (from : CanonicalAddr) (to : CanonicalContractInfo) (s : Entries)
    (l : List CanonicalContractInfo)
    → (subscribers mock).load s ≡ ok l
    → ((mock_update from to s).0 ≡ ok tt)
      × ((subscribers mock).load (mock_update from to s).1 ≡ ok (map (replace from to) l))
mock_update_lem from to s l h = (rw (h, mock_update), rw (h, mock_update))

pub mock_update_others :
    (from : CanonicalAddr) (to : CanonicalContractInfo) (s : Entries) {A : Type 0}
    (c : Codec Payload A) (k : String)
    → mock.subscribers_key ≢ k
    → (mock_item c k).load (mock_update from to s).1 ≡ (mock_item c k).load s
mock_update_others from to s c k ne = ground (arith, eq_iff "subscribers" k)

pub spend_lem : (o : Outcome ℕ) (s : Entries) → HasSlot o → (s' : Entries) × (spend o s ≡ ok s')
spend_lem (ok zero) s room = absurd (omega arith)
spend_lem (ok (suc n)) s room = (_, refl)
spend_lem (err e) s room = (s, refl)
spend_lem panic s room = absurd room

spend_others :
    (o : Outcome ℕ) (s s' : Entries) {A : Type 0} (c : Codec Payload A) (k : String)
    → mock.slots_key ≢ k
    → spend o s ≡ ok s'
    → (mock_item c k).load s' ≡ (mock_item c k).load s
spend_others (ok zero) s s' c k ne h = absurd (cc)
spend_others (ok (suc n)) s s' c k ne h =
    let e : ok ((("slots", Payload.byte n)) ∷ s) ≡ ok s' = h in
    let e' : (("slots", Payload.byte n)) ∷ s ≡ s' = cc in
    rw (← e') (ground (arith, eq_iff "slots" k))
spend_others (err e) s s' c k ne h = let e' : s ≡ s' = cc in rw e'
spend_others panic s s' c k ne h = absurd (cc)

pub mock_add_lem :
    (a : CanonicalAddr) (h : String) (s : Entries) (l : List CanonicalContractInfo)
    → unwrap_or [] ((subscribers mock).load s) ≡ ok l
    → HasSlot ((remaining_sub_slots mock).load s)
    → ((mock_add a h s).0 ≡ ok tt)
      × ((subscribers mock).load (mock_add a h s).1
          ≡ ok (l ++ record { address = a; code_hash = h } ∷ []))
mock_add_lem a h s l listed room =
    let (s', spent) = spend_lem ((remaining_sub_slots mock).load s) s room in
    (rw (listed, spent, mock_add), rw (listed, spent, mock_add))

pub mock_add_others :
    (a : CanonicalAddr) (h : String) (s : Entries) {A : Type 0} (c : Codec Payload A) (k : String)
    → mock.subscribers_key ≢ k
    → mock.slots_key ≢ k
    → (mock_item c k).load (mock_add a h s).1 ≡ (mock_item c k).load s
mock_add_others a h s c k ne ne' = elim (Outcome-cases (unwrap_or [] ((subscribers mock).load s))) [
  | inl (l, e) ↦ elim (Outcome-cases (spend ((remaining_sub_slots mock).load s) s)) [
    | inl (s', e') ↦
        rw (e, e', mock_add)
          (mock_load_ne mock.subscribers_bincode c "subscribers" k ne
              (l ++ record { address = a; code_hash = h } ∷ []) s'
            ∙ spend_others ((remaining_sub_slots mock).load s) s s' c k ne' e')
    | inr (inl (x, e')) ↦ rw (e, e', mock_add)
    | inr (inr e') ↦ rw (e, e', mock_add)
  ]
  | inr (inl (x, e)) ↦ rw (e, mock_add)
  | inr (inr e) ↦ rw (e, mock_add)
]

pub answered-storage : (r : Outcome (Unit {0}) × Entries) → (answered r).1 ≡ r.1
answered-storage (ok u, s) = refl
answered-storage (err e, s) = refl
answered-storage (panic, s) = refl

pub answered_ok : (r : Outcome (Unit {0}) × Entries) → r.0 ≡ ok tt → (answered r).0 ≡ ok []
answered_ok (ok u, s) h = refl
answered_ok (err e, s) h = cc
answered_ok (panic, s) h = cc

pub mock_register_others :
    (address h : String) (s : Entries) {A : Type 0} (c : Codec Payload A) (k : String)
    → mock.subscribers_key ≢ k
    → mock.slots_key ≢ k
    → (mock_item c k).load (mock_register address h s).1 ≡ (mock_item c k).load s
mock_register_others address h s c k ne ne' = elim (Outcome-cases (mock_canonicalize address)) [
  | inl (a, e) ↦
      rw (e, mock_register)
        (rw (answered-storage (mock_add a h s)) (mock_add_others a h s c k ne ne'))
  | inr (inl (x, e)) ↦ rw (e, mock_register)
  | inr (inr e) ↦ rw (e, mock_register)
]
