-- ===== src/Migratable/Migrate/Notifies.antt =====
-- Whom the token contract tells of its migration.
use snip721_migratable.Base.{◌≡◌, refl, none, List, [], map}
use snip721_migratable.Exec.{ok, unwrap_or, collect}
use snip721_migratable.Cosmwasm.{
  ContractInfo, CanonicalContractInfo, Env, never, migration_complete_notification,
}
use snip721_migratable.Dealer.Migrate
use snip721_migratable.Dealer.Migrate.Notifies
use snip721_migratable.Migratable.Migrate.{migrate}
use snip721_migratable.Platform.{Platform, subscribers}
use snip721_migratable.Platform.Laws.{Laws, Sends, notification}

-- The two contracts migrate alike: on the same storage they answer the same.
pub migrate-eq_dealer :
    (p : Platform) (env : Env p.Circumstance) (s : p.Storage)
    → migrate p env s ≡ Migrate.migrate p env s
unfolding migrate Migrate.migrate
migrate-eq_dealer p env s = refl

-- Under the laws of the libraries, when the address of every subscriber has a readable form, each
-- of them, in the order of the list, is sent one message that tells the new address and code hash
-- of the token contract, and for which no reply is asked; with no list stored nobody is. The
-- storage stays as it is.
pub migrate_tells :
    (p : Platform) (laws : Laws p) (env : Env p.Circumstance) (s : p.Storage)
    (l : List CanonicalContractInfo) (cs : List ContractInfo)
    → unwrap_or [] ((subscribers p).load s) ≡ ok l
    → collect p.into_humanized l ≡ ok cs
    → (b : p.Binary) × (p.migration_listener_json.encode
          (migration_complete_notification env.contract none)
        ≡ ok b)
      × (p.migration_listener_json.decode b
          ≡ ok (migration_complete_notification env.contract none))
      × Sends p (migrate p env s).0 (map (notification p never 0 b) cs)
      × ((migrate p env s).1 ≡ s)
migrate_tells p laws env s l cs listed hc =
    rw migrate-eq_dealer (Notifies.migrate_notifies p laws env s l listed cs hc)
