-- ===== src/Platform/Mock/Lawful.antt =====
-- The laws of the concrete platform.
use mathlib.Core.Path.{subst}
use snip721_migratable.Base.{
  String, Bool-cases, ◌≡◌, ◌≢◌, inl, inr, refl, none, some, [], ◌∷◌, arith, eq_iff, eq_refl, str_eq,
  false,
}
use snip721_migratable.Exec.{Outcome, ok, err, panic, and_then-eq-ok}
use snip721_migratable.Cosmwasm.{
  Addr, CanonicalAddr, ContractInfo, Codec, MigrationListenerExecuteMsg,
  migration_complete_notification,
}
use snip721_migratable.Platform.Laws.{
  Laws, StorageLaws, ResponseLaws, MessageLaws, MigrationLaws, Canonical, IsFaithful, IsForeignKey,
}
use snip721_migratable.Platform.Mock.{
  mock, Payload, Entries, unreadable, mock_canonicalize, mock_item, encode_listener,
  decode_listener, mock_add, mock_register,
}
use snip721_migratable.Platform.Mock.Subscriptions.{
  mock_load_ne, mock_update_lem, mock_update_others, mock_add_lem, mock_add_others,
  mock_register_others, answered-storage, answered_ok,
}

pub mock_dealer : Canonical mock "dealer" (1 ∷ [])
mock_dealer = record { canonicalized = refl; humanized = refl }

pub mock_child : Canonical mock "child_snip721_addr" (2 ∷ [])
mock_child = record { canonicalized = refl; humanized = refl }

pub mock_admin : Canonical mock "admin" (3 ∷ [])
mock_admin = record { canonicalized = refl; humanized = refl }

pub mock_minty : Canonical mock "minty" (4 ∷ [])
mock_minty = record { canonicalized = refl; humanized = refl }

mock-Canonical : (a : Addr) (c : CanonicalAddr) → mock_canonicalize a ≡ ok c → Canonical mock a c
mock-Canonical a c h = record {
  canonicalized = h;
  humanized = elim (Bool-cases (str_eq a "creator")) [
    | inl same ↦
        let e : a ≡ "creator" = ground (arith, eq_iff a "creator") in
        let hc : c ≡ 5 ∷ [] = cc (subst (λ b. mock_canonicalize b ≡ ok c) e h) in rw (hc, e)
    | inr differs ↦ ground (
      arith,
      eq_iff a "dealer",
      eq_iff a "child_snip721_addr",
      eq_iff a "admin",
      eq_iff a "minty",
      differs,
      h,
    )
  ];
}

mock_validated :
    {a : String} {b : Addr}
    → mock.addr_validate a ≡ ok b
    → (c : CanonicalAddr) × (b ≡ a) × Canonical mock b c
mock_validated {a} {b} h =
    let (c, hc, e) = and_then-eq-ok (mock_canonicalize a) (λ _. ok a) h in
    let same : b ≡ a = cc in (c, same, mock-Canonical b c (rw same hc))

ne_of_str_eq : (k j : String) → str_eq k j ≡ false → k ≢ j
ne_of_str_eq k j h = ground (arith, eq_iff k j)

module _ {A : Type 0} (c : Codec Payload A) (f : IsFaithful c) (k : String) (a : A)
    (s : Entries) where
  mock_save : ((mock_item c k).save a s).0 ≡ ok tt
  mock_save = let (b, he, hd) = f.round_trip a in rw he

  mock_load : (mock_item c k).load ((mock_item c k).save a s).1 ≡ ok a
  mock_load = let (b, he, hd) = f.round_trip a in rw (he, eq_refl k, hd)

own_key :
    (k : String)
    → str_eq k "admin" ≡ false
    → str_eq k "childSnip721CodeHash" ≡ false
    → str_eq k "childSnip721Addr" ≡ false
    → str_eq k "prices" ≡ false
    → str_eq k "purMetadata" ≡ false
    → IsForeignKey k
own_key k h1 h2 h3 h4 h5 = record {
  admin = ne_of_str_eq k _ h1;
  child_snip721_code_hash = ne_of_str_eq k _ h2;
  child_snip721_address = ne_of_str_eq k _ h3;
  purchase_prices = ne_of_str_eq k _ h4;
  purchasable_metadata = ne_of_str_eq k _ h5;
}

mock_storage : StorageLaws mock
mock_storage = record {
  save_lem = mock_save;
  load-save = mock_load;
  load-save_ne = mock_load_ne;
  addr_faithful = record { round_trip = λ a. (_, refl, refl) };
  text_faithful = record { round_trip = λ a. (_, refl, refl) };
  coins_faithful = record { round_trip = λ a. (_, refl, refl) };
  metadata_faithful = record { round_trip = λ a. (_, refl, refl) };
  subscribers_faithful = record { round_trip = λ a. (_, refl, refl) };
  byte_faithful = record { round_trip = λ a. (_, refl, refl) };
  subscribers_foreign = own_key "subscribers" refl refl refl refl refl;
  slots_foreign = own_key "slots" refl refl refl refl refl;
  keys_differ = ne_of_str_eq "subscribers" "slots" refl;
}

mock_response : ResponseLaws mock
mock_response = record {
  messages-new = refl;
  messages-add = λ r ms. refl;
  sub_msg_new_lem = λ m. refl;
  reply_on_success_lem = λ m id. refl;
}

listener_round_trip :
    (m : MigrationListenerExecuteMsg Payload)
    → (b : Payload) × (encode_listener m ≡ ok b) × (decode_listener b ≡ ok m)
listener_round_trip (migration_complete_notification to none) = (_, refl, refl)
listener_round_trip (migration_complete_notification to (some bytes)) = (_, refl, refl)

-- The encodings of listener messages are refused by the other decoders.
abbrev PayloadOf : (Payload → Type 0) → Outcome Payload → Type 0
PayloadOf Q (ok b) = Q b
PayloadOf Q (err e) = Unit
PayloadOf Q panic = Unit

listener_payload :
    (Q : Payload → Type 0)
    → ((to : ContractInfo) → Q (Payload.notify to))
    → ((to : ContractInfo) (bytes : Payload) → Q (Payload.notify_with to bytes))
    → (m : MigrationListenerExecuteMsg Payload) (b : Payload) → encode_listener m ≡ ok b
    → Q b
listener_payload Q plain carrying (migration_complete_notification to none) b h =
    subst (λ (o : Outcome Payload). PayloadOf Q o) h (plain to)
listener_payload Q plain carrying (migration_complete_notification to (some bytes)) b h =
    subst (λ (o : Outcome Payload). PayloadOf Q o) h (carrying to bytes)

mock_message : MessageLaws mock
mock_message = record {
  dealer_execute_faithful = record { round_trip = λ a. (_, refl, refl) };
  migratable_execute_faithful = record { round_trip = λ a. (_, refl, refl) };
  migration_listener_faithful = record { round_trip = listener_round_trip };
  snip721_execute_faithful = record { round_trip = λ a. (_, refl, refl) };
  child_instantiate_faithful = record { round_trip = λ a. (_, refl, refl) };
  query_answer_faithful = record { round_trip = λ a. (_, refl, refl) };
  migratable_not_dealer = λ m b h. (unreadable, let e : b ≡ Payload.migratable m = cc in rw e);
  listener_not_dealer = λ m b h. (
    unreadable,
    listener_payload (λ b. mock.dealer_execute_json.decode b ≡ err unreadable) (λ to. refl)
        (λ to bytes. refl) m b h,
  );
  listener_not_migratable = λ m b h. (
    unreadable,
    listener_payload (λ b. mock.migratable_execute_json.decode b ≡ err unreadable) (λ to. refl)
        (λ to bytes. refl) m b h,
  );
  migratable_not_snip721 = λ m b h. (unreadable, let e : b ≡ Payload.migratable m = cc in rw e);
  listener_not_snip721 = λ m b h. (
    unreadable,
    listener_payload (λ b. mock.snip721_execute_json.decode b ≡ err unreadable) (λ to. refl)
        (λ to bytes. refl) m b h,
  );
}

mock_migration : MigrationLaws mock
mock_migration = record {
  canonicalize_lem = λ c. refl;
  into_humanized_lem = λ c. refl;
  broadcast_lem = λ s on id to cs bytes b h. rw h;
  update_lem = mock_update_lem;
  update_others = mock_update_others;
  add_lem = λ a h s l listed room fresh. mock_add_lem a h s l listed room;
  add_others = mock_add_others;
  register_lem = λ address h a s l valid form listed room fresh.
      let (added, lists) = mock_add_lem a h s l listed room in
      (
        [],
        rw (form, mock_register) (answered_ok (mock_add a h s) added),
        rw (form, mock_register) (rw (answered-storage (mock_add a h s)) lists),
      );
  register_others = mock_register_others;
}

pub mock_laws : Laws mock
mock_laws = record {
  api = record { validate_lem = mock_validated };
  storage = mock_storage;
  response = mock_response;
  message = mock_message;
  migration = mock_migration;
}
