-- ===== src/Dealer/Migrate/Notifies.antt =====
-- Whom the dealer tells of its migration.
use snip721_migratable.Base.{◌≡◌, refl, arith, none, List, [], ◌∷◌, ◌++◌, map}
use snip721_migratable.Exec.{
  Outcome, ok, err, StdError, unwrap_or, collect, and_then, and_then-eq-ok, continue, reads, lift,
  ◌>>=◌,
}
use snip721_migratable.Cosmwasm.{
  ContractInfo, CanonicalContractInfo, Env, never, migration_complete_notification,
}
use snip721_migratable.Dealer.Migrate.{migrate}
use snip721_migratable.Platform.{Platform, subscribers}
use snip721_migratable.Platform.Laws.{Laws, Sends, notification, messages-response}

-- A migration writes nothing, however it ends.
pub migrate_reads_only :
    (p : Platform) (env : Env p.Circumstance) (s : p.Storage) → (migrate p env s).1 ≡ s
unfolding migrate
migrate_reads_only p env s = ground arith

collect-append {ℓ κ} :
    {A : Type ℓ} {B : Type κ} (f : A → Outcome B) (xs : List A) {ys : List B} (c : A) (zs : List A)
    {e : StdError}
    → collect f xs ≡ ok ys
    → f c ≡ err e
    → collect f (xs ++ c ∷ zs) ≡ err e
collect-append f [] c zs h he = rw he
collect-append f (x ∷ xs) c zs h he =
    let (y, hy, rest) = and_then-eq-ok (f x) (λ y. and_then (collect f xs) λ ys. ok (y ∷ ys)) h in
    let (_, hys, _) = and_then-eq-ok (collect f xs) (λ ys. ok (y ∷ ys)) rest in
    rw (hy, collect-append f xs c zs hys he)

-- The first subscriber whose address has no readable form stops the whole migration with its
-- error, however many subscribers stand before and after it: nobody is told.
pub migrate_fails :
    (p : Platform) (env : Env p.Circumstance) (s : p.Storage)
    (before after : List CanonicalContractInfo) (c : CanonicalContractInfo) (cs : List ContractInfo)
    (e : StdError)
    → unwrap_or [] ((subscribers p).load s) ≡ ok (before ++ c ∷ after)
    → collect p.into_humanized before ≡ ok cs
    → p.into_humanized c ≡ err e
    → migrate p env s ≡ (err e, s)
unfolding migrate
migrate_fails p env s before after c cs e listed hb he =
    rw (listed, collect-append p.into_humanized before c after hb he, continue, ◌>>=◌, reads, lift)

module _ (p : Platform) (laws : Laws p) (env : Env p.Circumstance) (s : p.Storage)
    (l : List CanonicalContractInfo) (listed : unwrap_or [] ((subscribers p).load s) ≡ ok l) where
  open p use {Binary, into_humanized, migration_listener_json}

  -- Under the laws of the libraries, when the address of every subscriber has a readable form,
  -- each of them, in the order of the list, is sent one message that tells the new address and
  -- code hash of the dealer, and for which no reply is asked; with no list stored nobody is. The
  -- storage stays as it is.
  pub migrate_notifies :
      (cs : List ContractInfo)
      → collect into_humanized l ≡ ok cs
      → (b : Binary) × (migration_listener_json.encode
            (migration_complete_notification env.contract none)
          ≡ ok b)
        × (migration_listener_json.decode b
            ≡ ok (migration_complete_notification env.contract none))
        × Sends p (migrate p env s).0 (map (notification p never 0 b) cs)
        × ((migrate p env s).1 ≡ s)
  unfolding migrate
  migrate_notifies cs hc =
      let (b, he, hd) =
        laws.message.migration_listener_faithful.round_trip
          (migration_complete_notification env.contract none) in
      (
        b,
        he,
        hd,
        rw (listed, hc, continue, ◌>>=◌, reads, lift)
            (rw
              (
                laws.migration.broadcast_lem s never 0 env.contract cs none b he,
                continue,
                ◌>>=◌,
                reads,
              )
              (_, refl, messages-response p laws _)),
        migrate_reads_only p env s,
      )
