-- ===== src/Migratable/Contract/Notified.antt =====
-- What a notification of migration changes in the token contract.
use snip721_migratable.Base.{◌≡◌, ◌≢◌, refl, List, [], ◌∷◌, ◌++◌, map, arith, bytes_eq_iff}
use snip721_migratable.Exec.{ok, continue, lift, ◌>>=◌, ◌>>◌}
use snip721_migratable.Cosmwasm.{CanonicalAddr, ContractInfo, CanonicalContractInfo, MessageInfo}
use snip721_migratable.Migratable.Contract.{update_migrated_dependency}
use snip721_migratable.Platform.{Platform, subscribers}
use snip721_migratable.Platform.Laws.{Laws, Sends, All, replace}

-- No subscriber has the address.
abbrev pub Lacks : CanonicalAddr → List CanonicalContractInfo → Type 0
Lacks a l = All (λ (c : CanonicalContractInfo). c.address ≢ a) l

map-replace-Lacks :
    (from : CanonicalAddr) (to : CanonicalContractInfo) (l : List CanonicalContractInfo)
    → Lacks from l
    → map (replace from to) l ≡ l
map-replace-Lacks from to [] h = refl
map-replace-Lacks from to (c ∷ l) h =
    ground (arith, bytes_eq_iff c.address from, map-replace-Lacks from to l h.1)

pub map-replace :
    (from : CanonicalAddr) (to c : CanonicalContractInfo)
    (before after : List CanonicalContractInfo)
    → Lacks from before
    → Lacks from after
    → c.address ≡ from
    → map (replace from to) (before ++ c ∷ after) ≡ before ++ to ∷ after
map-replace from to c [] after hb ha hc =
    ground (arith, bytes_eq_iff c.address from, map-replace-Lacks from to after ha)
map-replace from to c (x ∷ before) after hb ha hc =
    ground (arith, bytes_eq_iff x.address from, map-replace from to c before after hb.1 ha hc)

module _ (p : Platform) (laws : Laws p) (info : MessageInfo) (to : ContractInfo) (s : p.Storage)
    (sender moved : CanonicalAddr) (l : List CanonicalContractInfo)
    (hs : p.addr_canonicalize info.sender ≡ ok sender)
    (ht : p.addr_canonicalize to.address ≡ ok moved) (hl : (subscribers p).load s ≡ ok l) where
  abbrev raw_to : CanonicalContractInfo
  raw_to = record { address = moved; code_hash = to.code_hash }

  canonicalized : p.canonicalize to ≡ ok raw_to
  canonicalized = rw (laws.migration.canonicalize_lem, ht)

  update_dependency_eq :
      update_migrated_dependency p info to s
      ≡ (ok p.response_new, (p.update_migrated_subscriber sender raw_to s).1)
  unfolding update_migrated_dependency
  update_dependency_eq = rw (
    hs,
    canonicalized,
    (laws.migration.update_lem sender raw_to s l hl).0,
    continue,
    ◌>>=◌,
    ◌>>◌,
    lift,
  )

  -- A notification succeeds, sends nothing and replaces every subscriber at the sender's address.
  pub update_dependency_stores :
      Sends p (update_migrated_dependency p info to s).0 []
      × ((subscribers p).load (update_migrated_dependency p info to s).1
          ≡ ok (map (replace sender raw_to) l))
  update_dependency_stores =
      rw update_dependency_eq
        ((_, refl, laws.response.messages-new), (laws.migration.update_lem sender raw_to s l hl).1)

  -- Under the laws of the libraries, a notification from a contract that is no subscriber, of an
  -- address with a canonical form, succeeds, sends nothing and leaves the list of subscribers as
  -- it was: the sender cannot put itself on it.
  pub update_dependency_stranger :
      Lacks sender l
      → Sends p (update_migrated_dependency p info to s).0 []
        × ((subscribers p).load (update_migrated_dependency p info to s).1 ≡ ok l)
  update_dependency_stranger absent =
      rw (← map-replace-Lacks sender raw_to l absent) update_dependency_stores

  -- Under the laws of the libraries, a notification from the only subscriber at its address, of an
  -- address with a canonical form, puts the new contract in its place, and leaves the other
  -- subscribers and their order alone. It sends nothing.
  pub update_dependency_replaces :
      (c : CanonicalContractInfo) (before after : List CanonicalContractInfo)
      → l ≡ before ++ c ∷ after
      → c.address ≡ sender
      → Lacks sender before
      → Lacks sender after
      → Sends p (update_migrated_dependency p info to s).0 []
        × ((subscribers p).load (update_migrated_dependency p info to s).1
            ≡ ok (before ++ raw_to ∷ after))
  update_dependency_replaces c before after split hc hb ha =
      rw (← map-replace sender raw_to c before after hb ha hc)
        (rw (← split) update_dependency_stores)
