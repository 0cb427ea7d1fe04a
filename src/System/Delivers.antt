-- ===== src/System/Delivers.antt =====
-- How one contract receives the notifications of another's migration.
use snip721_migratable.Base.{
  ℕ, ◌≡◌, ◌≢◌, refl, List, [], ◌∷◌, ◌++◌, map, arith, eq_iff, eq_refl, str_eq, false,
}
use snip721_migratable.Exec.{Exec, ok, continue, pure, ◌>>=◌, ◌>>◌}
use snip721_migratable.Cosmwasm.{Addr, ContractInfo, ReplyOn}
use snip721_migratable.Platform.{Platform}
use snip721_migratable.Platform.Laws.{notification}
use snip721_migratable.System.{deliver_all}
use snip721_migratable.System.Knows.{Elsewhere}

module _ (p : Platform) (target : ContractInfo) (enter : p.Binary → Exec p.Storage p.Response)
    (on : ReplyOn) (id : ℕ) (b : p.Binary) where
  not_here : (a : Addr) → a ≢ target.address → str_eq a target.address ≡ false
  not_here a ne = ground (arith, eq_iff a target.address)

  deliver-Elsewhere :
      (cs : List ContractInfo) (s : p.Storage)
      → Elsewhere p target.address cs
      → deliver_all p target enter (map (notification p on id b) cs) s ≡ (ok tt, s)
  unfolding deliver_all
  deliver-Elsewhere [] s others = refl
  deliver-Elsewhere (c ∷ cs) s others =
      rw (not_here c.address others.0, continue, ◌>>=◌, ◌>>◌) (deliver-Elsewhere cs s others.1)

  -- Of the notifications with the bytes `b`, the contract `target` gets its own.
  pub deliver_among :
      (before after : List ContractInfo) (r : p.Response) (s : p.Storage)
      → Elsewhere p target.address before
      → Elsewhere p target.address after
      → (enter b s).0 ≡ ok r
      → deliver_all p target enter (map (notification p on id b) (before ++ target ∷ after)) s
        ≡ (ok tt, (enter b s).1)
  unfolding deliver_all
  deliver_among [] after r s hb ha done =
      rw (eq_refl target.address, eq_refl target.code_hash, done, continue, ◌>>=◌, ◌>>◌, pure)
        (deliver-Elsewhere after (enter b s).1 ha)
  deliver_among (x ∷ before) after r s hb ha done =
      rw (not_here x.address hb.0, continue, ◌>>=◌, ◌>>◌, pure)
        (deliver_among before after r s hb.1 ha done)
