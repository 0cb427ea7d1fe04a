-- ===== src/System/Accounts.antt =====
-- Accounts that are told apart by their addresses, and new subscribers among others.
use mathlib.Core.Path.{subst}
use snip721_migratable.Base.{String, ◌≡◌, ◌≢◌, sym, ◌∙◌, List, [], ◌∷◌, ◌++◌}
use snip721_migratable.Exec.{ok}
use snip721_migratable.Cosmwasm.{Addr, CanonicalAddr, CanonicalContractInfo}
use snip721_migratable.Migratable.Contract.Notified.{Lacks}
use snip721_migratable.Platform.{Platform, subscribers}
use snip721_migratable.Platform.Laws.{All, Canonical}
use snip721_migratable.Platform.History.{SubscriptionLaws}
use snip721_migratable.System.Knows.{Knows, Knows-snoc}
use snip721_migratable.System.Events.{Fresh}

module _ (p : Platform) where
  open p use {Storage}

  All_here :
      (P : CanonicalContractInfo → Type 0) (before after : List CanonicalContractInfo)
      (c : CanonicalContractInfo)
      → All P (before ++ c ∷ after)
      → P c
  All_here P [] after c h = h.0
  All_here P (x ∷ before) after c h = All_here P before after c h.1

  -- Accounts with different addresses have different canonical addresses.
  pub apart_raw :
      (a b : Addr) (raw_a raw_b : CanonicalAddr)
      → Canonical p a raw_a
      → Canonical p b raw_b
      → a ≢ b
      → raw_a ≢ raw_b
  apart_raw a b raw_a raw_b form_a form_b apart same =
      apart (cc (form_a.humanized, form_b.humanized, same))

  -- A new subscriber does not hide the known one.
  pub subscribe-Knows :
      (subs : SubscriptionLaws p) (address h' : String) (s : Storage)
      (l : List CanonicalContractInfo) (raw : CanonicalAddr) (h : String) (r : p.Response)
      → (subscribers p).load s ≡ ok l
      → Fresh p s address
      → Knows p l raw h
      → (p.register_to_notify_on_migration_complete address h' s).0 ≡ ok r
      → (l' : List CanonicalContractInfo) × ((subscribers p).load
            (p.register_to_notify_on_migration_complete address h' s).1
          ≡ ok l')
        × Knows p l' raw h
  subscribe-Knows subs address h' s l raw h r listed (raw', form, l', listed', lacks) k done =
      let same : l' ≡ l = cc in
      let lacks_here = subst (Lacks raw') (same ∙ k.listed) lacks in
      let other =
        All_here _ k.before k.after (record { address = raw; code_hash = h }) lacks_here in
      (
        l ++ record { address = raw'; code_hash = h' } ∷ [],
        subs.register_appends address h' raw' s l r (rw listed) form.canonicalized
            (subst (Lacks raw') same lacks) done,
        Knows-snoc p l raw h (record { address = raw'; code_hash = h' }) (λ e. other (sym e))
            (address, form) k,
      )
