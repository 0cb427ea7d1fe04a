-- ===== src/Migratable/Contract/Bounded.antt =====
-- How many contracts can subscribe to the migrations of the token contract.
use mathlib.Core.Path.{subst}
use snip721_migratable.Base.{
  ℕ, suc, ◌+◌, ◌≤◌, ◌≡◌, inl, inr, refl, ◌∙◌, ap, List, [], ◌∷◌, length, map, arith,
}
use snip721_migratable.Exec.{
  Outcome-cases, ok, unwrap_or, commit, commit_keeps, continue, lift, ◌>>=◌, ◌>>◌,
}
use snip721_migratable.Cosmwasm.{
  CanonicalAddr, CanonicalContractInfo, ContractInfo, MessageInfo, Env, MigratableExecuteMsg,
  subscribe_to_migration_complete_event, migration_complete_notification,
}
use snip721_migratable.Migratable.Msg.{InstantiateMsg, ExecuteMsg, base, migrate, migrate_listener}
use snip721_migratable.Migratable.Contract.{instantiate, execute, update_migrated_dependency}
use snip721_migratable.Migratable.Contract.Limits.{instantiate_limits}
use snip721_migratable.Migratable.Migrate as ChildMigrate
use snip721_migratable.Migratable.Migrate.Notifies.{migrate-eq_dealer}
use snip721_migratable.Dealer.Migrate.Notifies.{migrate_reads_only}
use snip721_migratable.Platform.{Platform, subscribers, remaining_sub_slots}
use snip721_migratable.Platform.Laws.{Laws, replace}
use snip721_migratable.Platform.History.{SubscriptionLaws, CollectionLaws, Subscribed}

-- The number of entries stays when some are replaced.
length-map :
    (f : CanonicalContractInfo → CanonicalContractInfo) (l : List CanonicalContractInfo)
    → length (map f l) ≡ length l
length-map f [] = refl
length-map f (c ∷ l) = ap suc (length-map f l)

module _ (p : Platform) where
  open p use {types, Storage, Binary, Circumstance}

  -- A call of the token contract by the chain.
  pub data Call : Type 0 where
    executed : Env Circumstance → MessageInfo → ExecuteMsg types Binary → Call
    migrated : Env Circumstance → Call

  -- The storage that is kept after a call, and after several.
  abbrev pub keep : Call → Storage → Storage
  keep (executed env info msg) s = commit (execute p env info msg s) s
  keep (migrated env) s = commit (ChildMigrate.migrate p env s) s

  abbrev pub keep_all : List Call → Storage → Storage
  keep_all [] s = s
  keep_all (c ∷ cs) s = keep_all cs (keep c s)

  -- The subscribers and the slots that are left make at most `max`.
  pub record Within (max : ℕ) (s : Storage) : Type 0 where
    pub listed : List CanonicalContractInfo
    pub left : ℕ
    pub subscribed : Subscribed p s listed
    pub remaining : (remaining_sub_slots p).load s ≡ ok left
    pub bounded : length listed + left ≤ max

  module _ (laws : Laws p) (subs : SubscriptionLaws p) (collection : CollectionLaws p)
      (max : ℕ) where
    same-Within :
        {s t : Storage}
        → (subscribers p).load t ≡ (subscribers p).load s
        → (remaining_sub_slots p).load t ≡ (remaining_sub_slots p).load s
        → Within max s
        → Within max t
    same-Within same same' w = record {
      listed = w.listed;
      left = w.left;
      subscribed = rw same w.subscribed;
      remaining = same' ∙ w.remaining;
      bounded = w.bounded;
    }

    slots_stay :
        (from : CanonicalAddr) (to : CanonicalContractInfo) (s : Storage)
        → (remaining_sub_slots p).load (p.update_migrated_subscriber from to s).1
          ≡ (remaining_sub_slots p).load s
    slots_stay from to s =
        laws.migration.update_others from to s p.byte_bincode p.slots_key laws.storage.keys_differ

    updated-Within :
        (from : CanonicalAddr) (to : CanonicalContractInfo) (s : Storage)
        → Within max s
        → (p.update_migrated_subscriber from to s).0 ≡ ok tt
        → Within max (p.update_migrated_subscriber from to s).1
    updated-Within from to s w done = elim (Outcome-cases ((subscribers p).load s)) [
      | inl (l, e) ↦
          let found = subst (λ o. unwrap_or [] o ≡ ok w.listed) e w.subscribed in
          let same : l ≡ w.listed = cc in
          record {
            listed = map (replace from to) l;
            left = w.left;
            subscribed = rw (laws.migration.update_lem from to s l e).1;
            remaining = slots_stay from to s ∙ w.remaining;
            bounded = rw (length-map (replace from to) l, same) w.bounded;
          }
      | inr (inl (x, e)) ↦ record {
        listed = [];
        left = w.left;
        subscribed = subs.update_none from to s x e done;
        remaining = slots_stay from to s ∙ w.remaining;
        bounded = let bounded = w.bounded in omega arith;
      }
      | inr (inr e) ↦
          let found = subst (λ o. unwrap_or [] o ≡ ok w.listed) e w.subscribed in absurd (cc)
    ]

    update-Within :
        (info : MessageInfo) (to : ContractInfo) (s : Storage)
        → Within max s
        → Within max (commit (update_migrated_dependency p info to s) s)
    unfolding update_migrated_dependency
    update-Within info to s w = elim (Outcome-cases (p.addr_canonicalize info.sender)) [
      | inl (from, e) ↦ elim (Outcome-cases (p.canonicalize to)) [
        | inl (raw, e') ↦ elim (Outcome-cases (p.update_migrated_subscriber from raw s).0) [
          | inl (_, done) ↦
              rw (e, e', done, continue, ◌>>=◌, ◌>>◌, lift) (updated-Within from raw s w done)
          | inr (inl (x, failed)) ↦ rw (e, e', failed, continue, ◌>>=◌, ◌>>◌, lift) w
          | inr (inr failed) ↦ rw (e, e', failed, continue, ◌>>=◌, ◌>>◌, lift) w
        ]
        | inr (inl (x, e')) ↦ rw (e, e', continue, ◌>>=◌, ◌>>◌, lift) w
        | inr (inr e') ↦ rw (e, e', continue, ◌>>=◌, ◌>>◌, lift) w
      ]
      | inr (inl (x, e)) ↦ rw (e, continue, ◌>>=◌, ◌>>◌, lift) w
      | inr (inr e) ↦ rw (e, continue, ◌>>=◌, ◌>>◌, lift) w
    ]

    execute-Within :
        (env : Env Circumstance) (info : MessageInfo) (msg : ExecuteMsg types Binary) (s : Storage)
        → Within max s
        → Within max (commit (execute p env info msg s) s)
    unfolding execute
    execute-Within env info (base msg) s w =
        let (same, same') = collection.execute_keeps env info msg s in
        commit_keeps (Within max) (p.snip721_execute env info msg s) s w
          (λ r done. same-Within same same' w)
    execute-Within env info (migrate (subscribe_to_migration_complete_event a h)) s w =
        commit_keeps (Within max) (p.register_to_notify_on_migration_complete a h s) s w (λ r done.
          let (l', n', listed', left', le) =
            subs.register_slots a h s w.listed w.left r w.subscribed w.remaining done in
          record {
            listed = l';
            left = n';
            subscribed = listed';
            remaining = left';
            bounded = omega (arith, w.bounded);
          })
    execute-Within env info (migrate (MigratableExecuteMsg.other x)) s w = w
    execute-Within env info (migrate_listener (migration_complete_notification to x)) s w =
        update-Within info to s w

    keep_all-Within : (cs : List Call) (s : Storage) → Within max s → Within max (keep_all cs s)
    keep_all-Within [] s w = w
    keep_all-Within (executed env info msg ∷ cs) s w =
        keep_all-Within cs _ (execute-Within env info msg s w)
    keep_all-Within (migrated env ∷ cs) s w = keep_all-Within cs _ (
        commit_keeps (Within max) (ChildMigrate.migrate p env s) s w
          (λ r done. rw (migrate-eq_dealer, migrate_reads_only p env s) w))

  module _ (laws : Laws p) (subs : SubscriptionLaws p) (collection : CollectionLaws p)
      (env : Env Circumstance) (info : MessageInfo) (msg : InstantiateMsg types) (s : Storage)
      (none_yet : Subscribed p s []) (cs : List Call) where
    abbrev max : ℕ
    max = msg.max_migration_complete_event_subscribers

    lived-Within : Within max (keep_all cs (instantiate p env info msg s).1)
    lived-Within =
        let (s', runs, limit, others) = instantiate_limits p laws env info msg s in
        let (kept, kept') = collection.instantiate_keeps env info msg.instantiate s' in
        keep_all-Within laws subs collection max cs (instantiate p env info msg s).1 (
          rw runs (record {
            listed = [];
            left = max;
            subscribed = rw (kept, others) none_yet;
            remaining = kept' ∙ limit;
            bounded = omega arith;
          }))

    -- Under the laws of the libraries (a subscription takes one of the slots that are left, and
    -- the collection leaves subscriptions alone), a token contract that is instantiated with no
    -- subscribers never has more of them than the limit in its `InstantiateMsg`, after any
    -- sequence of messages from anyone and migrations, where what a failing call wrote is dropped.
    pub subscribers_bounded :
        (l : List CanonicalContractInfo) × Subscribed p
          (keep_all cs (instantiate p env info msg s).1)
          l
        × (length l ≤ max)
    subscribers_bounded =
        let w = lived-Within in let bounded = w.bounded in (w.listed, w.subscribed, omega arith)
