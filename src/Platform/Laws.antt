-- ===== src/Platform/Laws.antt =====
-- What the contracts rely on of the code that they call, as records of laws: hypotheses of the
-- theorems that need them. The laws of cw_migratable_contract_std say what the tests of the two
-- contracts check (test_migrate.rs in contracts/snip721-dealer/src and
-- contracts/snip721-migratable/src).
use snip721_migratable.Base.{
  ℕ, ◌<◌, String, ◌≡◌, ◌≢◌, Option, List, [], ◌∷◌, ◌++◌, map, bytes_eq, if◌then◌else◌,
}
use snip721_migratable.Exec.{Outcome, ok, err, panic, StdError, and_then, unwrap_or}
use snip721_migratable.Cosmwasm.{
  Addr, CanonicalAddr, ContractInfo, CanonicalContractInfo, ReplyOn, never, success, SubMsg,
  CosmosMsg, WasmMsg, MigratableExecuteMsg, MigrationListenerExecuteMsg,
  migration_complete_notification, Codec,
}
use snip721_migratable.Platform.{Platform, subscribers, remaining_sub_slots}

-- Every value is encoded, and is decoded to itself.
pub record IsFaithful {Binary A : Type 0} (c : Codec Binary A) : Type 0 where
  pub round_trip : (a : A) → (b : Binary) × (c.encode a ≡ ok b) × (c.decode b ≡ ok a)

abbrev pub All {ℓ κ} : {A : Type ℓ} → (A → Type κ) → List A → Type κ
All P [] = Unit
All P (x ∷ xs) = P x × All P xs

-- `update_migrated_subscriber` at one subscriber.
abbrev pub replace :
    CanonicalAddr → CanonicalContractInfo → CanonicalContractInfo → CanonicalContractInfo
replace from to c = if bytes_eq c.address from then to else c

-- A key that is none of the five of the dealer.
pub record IsForeignKey (k : String) : Type 0 where
  pub admin : k ≢ "admin"
  pub child_snip721_code_hash : k ≢ "childSnip721CodeHash"
  pub child_snip721_address : k ≢ "childSnip721Addr"
  pub purchase_prices : k ≢ "prices"
  pub purchasable_metadata : k ≢ "purMetadata"

-- No limit was set, or it is not used up.
abbrev pub HasSlot : Outcome ℕ → Type 0
HasSlot (ok n) = 0 < n
HasSlot (err e) = Unit
HasSlot panic = ⊥

module _ (p : Platform) where
  open p use {Storage, Binary, Response, addr_validate, addr_canonicalize, addr_humanize, item_new}

  -- `c` is the canonical form of the address `a`.
  pub record Canonical (a : Addr) (c : CanonicalAddr) : Type 0 where
    pub canonicalized : addr_canonicalize a ≡ ok c
    pub humanized : addr_humanize c ≡ ok a

  pub record ApiLaws : Type 0 where
    pub validate_lem :
        {a : String} {b : Addr}
        → addr_validate a ≡ ok b
        → (c : CanonicalAddr) × (b ≡ a) × Canonical b c

  -- Items are kept apart by their keys, and a faithful value is stored and read back.
  pub record StorageLaws : Type 1 where
    pub save_lem :
        {A : Type 0} (c : Codec Binary A)
        → IsFaithful c
        → (k : String) (a : A) (s : Storage) → ((item_new c k).save a s).0 ≡ ok tt
    pub load-save :
        {A : Type 0} (c : Codec Binary A)
        → IsFaithful c
        → (k : String) (a : A) (s : Storage)
        → (item_new c k).load ((item_new c k).save a s).1 ≡ ok a
    pub load-save_ne :
        {A B : Type 0} (c : Codec Binary A) (d : Codec Binary B) (k j : String)
        → k ≢ j
        → (a : A) (s : Storage)
        → (item_new d j).load ((item_new c k).save a s).1 ≡ (item_new d j).load s
    pub addr_faithful : IsFaithful p.addr_bincode
    pub text_faithful : IsFaithful p.text_bincode
    pub coins_faithful : IsFaithful p.coins_bincode
    pub metadata_faithful : IsFaithful p.metadata_bincode
    pub subscribers_faithful : IsFaithful p.subscribers_bincode
    pub byte_faithful : IsFaithful p.byte_bincode
    pub subscribers_foreign : IsForeignKey p.subscribers_key
    pub slots_foreign : IsForeignKey p.slots_key
    pub keys_differ : p.subscribers_key ≢ p.slots_key

  pub record ResponseLaws : Type 0 where
    pub messages-new : p.messages p.response_new ≡ []
    pub messages-add :
        (r : Response) (ms : List (SubMsg Binary))
        → p.messages (p.add_submessages r ms) ≡ p.messages r ++ ms
    pub sub_msg_new_lem :
        (m : CosmosMsg Binary) → p.sub_msg_new m ≡ record { id = 0; msg = m; reply_on = never }
    pub reply_on_success_lem :
        (m : CosmosMsg Binary) (id : ℕ)
        → p.reply_on_success m id ≡ record { id = id; msg = m; reply_on = success }

  -- `b` is no encoding that `c` reads.
  abbrev pub Rejects : {A : Type 0} → Codec Binary A → Binary → Type 0
  Rejects c b = (e : StdError) × (c.decode b ≡ err e)

  -- The messages in JSON. Each is an object with one field, named after the variant, so a message
  -- of one enum is refused where another enum is read.
  pub record MessageLaws : Type 0 where
    pub dealer_execute_faithful : IsFaithful p.dealer_execute_json
    pub migratable_execute_faithful : IsFaithful p.migratable_execute_json
    pub migration_listener_faithful : IsFaithful p.migration_listener_json
    pub snip721_execute_faithful : IsFaithful p.snip721_execute_json
    pub child_instantiate_faithful : IsFaithful p.child_instantiate_json
    pub query_answer_faithful : IsFaithful p.query_answer_json
    pub migratable_not_dealer :
        (m : MigratableExecuteMsg) (b : Binary)
        → p.migratable_execute_json.encode m ≡ ok b
        → Rejects p.dealer_execute_json b
    pub listener_not_dealer :
        (m : MigrationListenerExecuteMsg Binary) (b : Binary)
        → p.migration_listener_json.encode m ≡ ok b
        → Rejects p.dealer_execute_json b
    pub listener_not_migratable :
        (m : MigrationListenerExecuteMsg Binary) (b : Binary)
        → p.migration_listener_json.encode m ≡ ok b
        → Rejects p.migratable_execute_json b
    pub migratable_not_snip721 :
        (m : MigratableExecuteMsg) (b : Binary)
        → p.migratable_execute_json.encode m ≡ ok b
        → Rejects p.snip721_execute_json b
    pub listener_not_snip721 :
        (m : MigrationListenerExecuteMsg Binary) (b : Binary)
        → p.migration_listener_json.encode m ≡ ok b
        → Rejects p.snip721_execute_json b

  -- The notification that tells `c` of a migration, with its encoded message.
  abbrev pub notification : ReplyOn → ℕ → Binary → ContractInfo → SubMsg Binary
  notification on id bytes c = record {
    id = id;
    msg = CosmosMsg.wasm (WasmMsg.execute c.address c.code_hash bytes []);
    reply_on = on;
  }

  pub record MigrationLaws : Type 1 where
    pub canonicalize_lem :
        (c : ContractInfo)
        → p.canonicalize c
          ≡ and_then
              (addr_canonicalize c.address)
              (λ a. ok (record { address = a; code_hash = c.code_hash }))
    pub into_humanized_lem :
        (c : CanonicalContractInfo)
        → p.into_humanized c
          ≡ and_then
              (addr_humanize c.address)
              (λ a. ok (record { address = a; code_hash = c.code_hash }))
    pub broadcast_lem :
        (s : Storage) (on : ReplyOn) (id : ℕ) (to : ContractInfo) (cs : List ContractInfo)
        (bytes : Option Binary) (b : Binary)
        → p.migration_listener_json.encode (migration_complete_notification to bytes) ≡ ok b
        → p.create_broadcast_migration_complete_notification_msgs s on id to cs bytes
          ≡ ok (map (notification on id b) cs)
    pub update_lem :
        (from : CanonicalAddr) (to : CanonicalContractInfo) (s : Storage)
        (l : List CanonicalContractInfo)
        → (subscribers p).load s ≡ ok l
        → ((p.update_migrated_subscriber from to s).0 ≡ ok tt)
          × ((subscribers p).load (p.update_migrated_subscriber from to s).1
              ≡ ok (map (replace from to) l))
    pub update_others :
        (from : CanonicalAddr) (to : CanonicalContractInfo) (s : Storage) {A : Type 0}
        (c : Codec Binary A) (k : String)
        → p.subscribers_key ≢ k
        → (item_new c k).load (p.update_migrated_subscriber from to s).1 ≡ (item_new c k).load s
    pub add_lem :
        (a : CanonicalAddr) (h : String) (s : Storage) (l : List CanonicalContractInfo)
        → unwrap_or [] ((subscribers p).load s) ≡ ok l
        → HasSlot ((remaining_sub_slots p).load s)
        → All (λ (c : CanonicalContractInfo). c.address ≢ a) l
        → ((p.add_migration_complete_event_subscriber a h s).0 ≡ ok tt)
          × ((subscribers p).load (p.add_migration_complete_event_subscriber a h s).1
              ≡ ok (l ++ record { address = a; code_hash = h } ∷ []))
    pub add_others :
        (a : CanonicalAddr) (h : String) (s : Storage) {A : Type 0} (c : Codec Binary A)
        (k : String)
        → p.subscribers_key ≢ k
        → p.slots_key ≢ k
        → (item_new c k).load (p.add_migration_complete_event_subscriber a h s).1
          ≡ (item_new c k).load s
    pub register_lem :
        (address h : String) (a : CanonicalAddr) (s : Storage) (l : List CanonicalContractInfo)
        → addr_validate address ≡ ok address
        → addr_canonicalize address ≡ ok a
        → unwrap_or [] ((subscribers p).load s) ≡ ok l
        → HasSlot ((remaining_sub_slots p).load s)
        → All (λ (c : CanonicalContractInfo). c.address ≢ a) l
        → (r : Response) × ((p.register_to_notify_on_migration_complete address h s).0 ≡ ok r)
          × ((subscribers p).load (p.register_to_notify_on_migration_complete address h s).1
              ≡ ok (l ++ record { address = a; code_hash = h } ∷ []))
    pub register_others :
        (address h : String) (s : Storage) {A : Type 0} (c : Codec Binary A) (k : String)
        → p.subscribers_key ≢ k
        → p.slots_key ≢ k
        → (item_new c k).load (p.register_to_notify_on_migration_complete address h s).1
          ≡ (item_new c k).load s

  pub record Laws : Type 1 where
    pub api : ApiLaws
    pub storage : StorageLaws
    pub response : ResponseLaws
    pub message : MessageLaws
    pub migration : MigrationLaws

  -- The call succeeds, with these messages in its response.
  abbrev pub Sends : Outcome Response → List (SubMsg Binary) → Type 0
  Sends o ms = (r : Response) × (o ≡ ok r) × (p.messages r ≡ ms)

  pub messages-response :
      Laws → (ms : List (SubMsg Binary)) → p.messages (p.add_submessages p.response_new ms) ≡ ms
  messages-response laws ms = rw (laws.response.messages-add, laws.response.messages-new)
