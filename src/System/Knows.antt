-- ===== src/System/Knows.antt =====
-- A subscriber among others, and who is told of a migration.
use snip721_migratable.Base.{
  bytes_eq, bytes_eq_iff, Bool-cases, false, inl, inr, arith, String, ◌≡◌, ◌≢◌, refl, ap, List, [],
  ◌∷◌, ◌++◌, map,
}
use snip721_migratable.Exec.{ok, collect, and_then, and_then-eq-ok}
use snip721_migratable.Cosmwasm.{Addr, CanonicalAddr, CanonicalContractInfo, ContractInfo}
use snip721_migratable.Migratable.Contract.Notified.{Lacks, map-replace}
use snip721_migratable.Platform.{Platform}
use snip721_migratable.Platform.Laws.{Laws, All, Canonical, replace}

module _ (p : Platform) where
  -- The address of the contract has a readable form.
  abbrev pub Readable : CanonicalContractInfo → Type 0
  Readable c = (a : Addr) × Canonical p a c.address

  -- Among the subscribers `l`, which all have readable addresses, just one is at the address
  -- `raw`, and it runs the code with the hash `h`.
  pub record Knows (l : List CanonicalContractInfo) (raw : CanonicalAddr) (h : String)
      : Type 0 where
    pub before : List CanonicalContractInfo
    pub after : List CanonicalContractInfo
    pub listed : l ≡ before ++ record { address = raw; code_hash = h } ∷ after
    pub lacks_before : Lacks raw before
    pub lacks_after : Lacks raw after
    pub readable_before : All Readable before
    pub readable_after : All Readable after

  pub Knows-alone :
      (raw : CanonicalAddr) (h : String)
      → Knows (record { address = raw; code_hash = h } ∷ []) raw h
  Knows-alone raw h = record {
    before = [];
    after = [];
    listed = refl;
    lacks_before = tt;
    lacks_after = tt;
    readable_before = tt;
    readable_after = tt;
  }

  -- The known contract is replaced by new code at its address.
  pub Knows-replace :
      (l : List CanonicalContractInfo) (raw : CanonicalAddr) (h h' : String)
      → Knows l raw h
      → Knows (map (replace raw (record { address = raw; code_hash = h' })) l) raw h'
  Knows-replace l raw h h' k = record {
    before = k.before;
    after = k.after;
    listed = rw k.listed (
        map-replace raw (record { address = raw; code_hash = h' })
          (record { address = raw; code_hash = h }) k.before k.after k.lacks_before k.lacks_after
          refl);
    lacks_before = k.lacks_before;
    lacks_after = k.lacks_after;
    readable_before = k.readable_before;
    readable_after = k.readable_after;
  }

  -- Another contract subscribes.
  All-snoc :
      (P : CanonicalContractInfo → Type 0) (l : List CanonicalContractInfo)
      (c : CanonicalContractInfo)
      → All P l
      → P c
      → All P (l ++ c ∷ [])
  All-snoc P [] c h hc = (hc, tt)
  All-snoc P (x ∷ l) c h hc = (h.0, All-snoc P l c h.1 hc)

  append_assoc : (xs ys zs : List CanonicalContractInfo) → (xs ++ ys) ++ zs ≡ xs ++ (ys ++ zs)
  append_assoc [] ys zs = refl
  append_assoc (x ∷ xs) ys zs = ap (λ l. x ∷ l) (append_assoc xs ys zs)

  pub Knows-snoc :
      (l : List CanonicalContractInfo) (raw : CanonicalAddr) (h : String)
      (c : CanonicalContractInfo)
      → c.address ≢ raw
      → Readable c
      → Knows l raw h
      → Knows (l ++ c ∷ []) raw h
  Knows-snoc l raw h c other readable k = record {
    before = k.before;
    after = k.after ++ c ∷ [];
    listed =
        rw k.listed
          (append_assoc k.before (record { address = raw; code_hash = h } ∷ k.after) (c ∷ []));
    lacks_before = k.lacks_before;
    lacks_after = All-snoc _ k.after c k.lacks_after other;
    readable_before = k.readable_before;
    readable_after = All-snoc _ k.after c k.readable_after readable;
  }

  All-replace :
      (P : CanonicalContractInfo → Type 0) (from : CanonicalAddr) (to : CanonicalContractInfo)
      (l : List CanonicalContractInfo)
      → P to
      → All P l
      → All P (map (replace from to) l)
  All-replace P from to [] new h = tt
  All-replace P from to (c ∷ l) new h = elim (Bool-cases (bytes_eq c.address from)) [
    | inl e ↦ (rw e new, All-replace P from to l new h.1)
    | inr e ↦ (rw e h.0, All-replace P from to l new h.1)
  ]

  map-append :
      (f : CanonicalContractInfo → CanonicalContractInfo) (xs ys : List CanonicalContractInfo)
      → map f (xs ++ ys) ≡ map f xs ++ map f ys
  map-append f [] ys = refl
  map-append f (x ∷ xs) ys = ap (λ l. f x ∷ l) (map-append f xs ys)

  -- Another contract moves elsewhere than to the known one.
  pub Knows-others :
      (l : List CanonicalContractInfo) (raw : CanonicalAddr) (h : String) (from : CanonicalAddr)
      (to : CanonicalContractInfo)
      → raw ≢ from
      → to.address ≢ raw
      → Readable to
      → Knows l raw h
      → Knows (map (replace from to) l) raw h
  Knows-others l raw h from to other apart readable k = record {
    before = map (replace from to) k.before;
    after = map (replace from to) k.after;
    listed =
        let known : CanonicalContractInfo = record { address = raw; code_hash = h } in
        let stays : bytes_eq raw from ≡ false = ground (arith, bytes_eq_iff raw from) in
        rw (k.listed, map-append (replace from to) k.before (known ∷ k.after), stays);
    lacks_before = All-replace _ from to k.before apart k.lacks_before;
    lacks_after = All-replace _ from to k.after apart k.lacks_after;
    readable_before = All-replace Readable from to k.before readable k.readable_before;
    readable_after = All-replace Readable from to k.after readable k.readable_after;
  }

  -- No contract of the list is at the address.
  abbrev pub Elsewhere : Addr → List ContractInfo → Type 0
  Elsewhere a cs = All (λ (c : ContractInfo). c.address ≢ a) cs

  module _ (laws : Laws p) (a : Addr) (raw : CanonicalAddr) (form : Canonical p a raw) where
    elsewhere :
        (l : List CanonicalContractInfo)
        → Lacks raw l
        → All Readable l
        → (cs : List ContractInfo) × (collect p.into_humanized l ≡ ok cs) × Elsewhere a cs
    elsewhere [] lacks readable = ([], refl, tt)
    elsewhere (c ∷ l) lacks readable =
        let (b, formed) = readable.0 in
        let (cs, reads, others) = elsewhere l lacks.1 readable.1 in
        let readout : p.into_humanized c ≡ ok (record { address = b; code_hash = c.code_hash }) =
          rw (laws.migration.into_humanized_lem, formed.humanized) in
        (
          record { address = b; code_hash = c.code_hash } ∷ cs,
          rw (readout, reads),
          (λ same. lacks.0 (cc (formed.canonicalized, form.canonicalized, same)), others),
        )

    collect-++ :
        (xs ys : List CanonicalContractInfo) (cs es : List ContractInfo)
        → collect p.into_humanized xs ≡ ok cs
        → collect p.into_humanized ys ≡ ok es
        → collect p.into_humanized (xs ++ ys) ≡ ok (cs ++ es)
    collect-++ [] ys cs es hx hy = let e : [] ≡ cs = cc in rw (hy, ← e)
    collect-++ (x ∷ xs) ys cs es hx hy =
        let (c, hc, more) =
          and_then-eq-ok (p.into_humanized x)
            (λ c. and_then (collect p.into_humanized xs) λ cs. ok (c ∷ cs)) hx in
        let (cs', hcs, whole) =
          and_then-eq-ok (collect p.into_humanized xs) (λ cs. ok (c ∷ cs)) more in
        let e : c ∷ cs' ≡ cs = cc in rw (hc, collect-++ xs ys cs' es hcs hy, ← e)

    -- The readable forms of the subscribers, with the known contract among them.
    pub humanized :
        (l : List CanonicalContractInfo) (h : String)
        → Knows l raw h
        → (before after : List ContractInfo) × (collect p.into_humanized l
            ≡ ok (before ++ record { address = a; code_hash = h } ∷ after))
          × Elsewhere a before
          × Elsewhere a after
    humanized l h k =
        let (cs, reads, others) = elsewhere k.before k.lacks_before k.readable_before in
        let (es, reads', others') = elsewhere k.after k.lacks_after k.readable_after in
        let known : p.into_humanized (record { address = raw; code_hash = h })
            ≡ ok (record { address = a; code_hash = h }) =
          rw (laws.migration.into_humanized_lem, form.humanized) in
        let here : collect p.into_humanized (record { address = raw; code_hash = h } ∷ k.after)
            ≡ ok (record { address = a; code_hash = h } ∷ es) =
          rw (known, reads') in
        (
          cs,
          es,
          rw k.listed (
              collect-++ k.before (record { address = raw; code_hash = h } ∷ k.after) cs
                (record { address = a; code_hash = h } ∷ es) reads here),
          others,
          others',
        )
