-- ===== src/Platform/History.antt =====
-- What long histories of the token contract rely on, beside the laws of Platform/Laws.antt: that a
-- subscription takes one of the remaining slots (as the comment on
-- `max_migration_complete_event_subscribers` in contracts/snip721-migratable/src/msg.rs says), and
-- that snip721_reference_impl, which knows nothing of subscriptions, leaves their two items alone.
use snip721_migratable.Base.{ℕ, ◌+◌, ◌≤◌, String, ◌≡◌, ◌≢◌, List, [], ◌∷◌, ◌++◌, length}
use snip721_migratable.Exec.{ok, err, StdError, unwrap_or}
use snip721_migratable.Cosmwasm.{CanonicalAddr, CanonicalContractInfo, MessageInfo, Env}
use snip721_migratable.Snip721.{Snip721InstantiateMsg, Snip721ExecuteMsg}
use snip721_migratable.Platform.{Platform, subscribers, remaining_sub_slots}
use snip721_migratable.Platform.Laws.{All}

module _ (p : Platform) where
  open p use {types, Storage, Response, Circumstance, addr_canonicalize}

  -- The subscribers, none where no list is stored.
  abbrev pub Subscribed : Storage → List CanonicalContractInfo → Type 0
  Subscribed s l = unwrap_or [] ((subscribers p).load s) ≡ ok l

  -- What a successful call of `register_to_notify_on_migration_complete` or
  -- `update_migrated_subscriber` has stored.
  pub record SubscriptionLaws : Type 0 where
    pub register_appends :
        (address h : String) (a : CanonicalAddr) (s : Storage) (l : List CanonicalContractInfo)
        (r : Response)
        → Subscribed s l
        → addr_canonicalize address ≡ ok a
        → All (λ (c : CanonicalContractInfo). c.address ≢ a) l
        → (p.register_to_notify_on_migration_complete address h s).0 ≡ ok r
        → (subscribers p).load (p.register_to_notify_on_migration_complete address h s).1
          ≡ ok (l ++ record { address = a; code_hash = h } ∷ [])
    pub register_slots :
        (address h : String) (s : Storage) (l : List CanonicalContractInfo) (n : ℕ) (r : Response)
        → Subscribed s l
        → (remaining_sub_slots p).load s ≡ ok n
        → (p.register_to_notify_on_migration_complete address h s).0 ≡ ok r
        → (l' : List CanonicalContractInfo) × (n' : ℕ) × Subscribed
            (p.register_to_notify_on_migration_complete address h s).1
            l'
          × ((remaining_sub_slots p).load (p.register_to_notify_on_migration_complete address h s).1
              ≡ ok n')
          × (length l' + n' ≤ length l + n)
    pub update_none :
        (from : CanonicalAddr) (to : CanonicalContractInfo) (s : Storage) (e : StdError)
        → (subscribers p).load s ≡ err e
        → (p.update_migrated_subscriber from to s).0 ≡ ok tt
        → Subscribed (p.update_migrated_subscriber from to s).1 []

  -- A successful registration leaves a list of subscribers that can be read.
  pub record RegistrationLaws : Type 0 where
    pub register_readable :
        (address h : String) (s : Storage) (r : Response)
        → (p.register_to_notify_on_migration_complete address h s).0 ≡ ok r
        → (l : List CanonicalContractInfo) × ((subscribers p).load
              (p.register_to_notify_on_migration_complete address h s).1
            ≡ ok l)

  abbrev pub SameSubscriptions : Storage → Storage → Type 0
  SameSubscriptions s t =
      ((subscribers p).load t ≡ (subscribers p).load s)
      × ((remaining_sub_slots p).load t ≡ (remaining_sub_slots p).load s)

  pub record CollectionLaws : Type 0 where
    pub instantiate_keeps :
        (env : Env Circumstance) (info : MessageInfo) (msg : Snip721InstantiateMsg types)
        (s : Storage)
        → SameSubscriptions s (p.snip721_instantiate env info msg s).1
    pub execute_keeps :
        (env : Env Circumstance) (info : MessageInfo) (msg : Snip721ExecuteMsg types) (s : Storage)
        → SameSubscriptions s (p.snip721_execute env info msg s).1
