-- ===== src/Platform/Mock.antt =====
-- A concrete platform, at which the theorems are applied to inputs: five addresses, values stored
-- under their keys, and messages kept as they are in place of their encodings.
pub mod Lawful
pub mod Subscriptions
pub mod Remembering
use snip721_migratable.Base.{
  ℕ, zero, suc, String, List, [], ◌∷◌, ◌++◌, map, str_eq, bytes_eq, if◌then◌else◌,
}
use snip721_migratable.Exec.{Outcome, ok, err, panic, foreign, and_then, unwrap_or, Exec}
use snip721_migratable.Cosmwasm.{
  Addr, CanonicalAddr, ContractInfo, CanonicalContractInfo, migration_complete_notification, Codec,
  Item, SubMsg, CosmosMsg, WasmMsg, ReplyOn, never, success,
}
use snip721_migratable.Platform.{Platform}
use snip721_migratable.Platform.Laws.{replace}
pub use snip721_migratable.Platform.Payloads.{
  Payload, mock_types, unreadable, decode_addr, decode_text, decode_coins, decode_metadata,
  decode_subscribed, decode_byte, decode_dealer, decode_migratable, decode_snip721, decode_child,
  decode_answer, encode_listener, decode_listener,
}
use snip721_migratable.Platform.Payloads.{
  addr, text, coins, metadata, subscribed, byte, dealer, migratable, snip721, child_instantiate,
  answer,
}

-- The newest entry of a key stands first.
abbrev Entries : Type 0
Entries = List (String × Payload)

abbrev lookup : String → Entries → Outcome Payload
lookup k [] = err (foreign "not found")
lookup k ((j, b) ∷ entries) = if str_eq j k then ok b else lookup k entries

abbrev mock_item : {A : Type 0} → Codec Payload A → String → Item Entries A
mock_item c k = record {
  save = λ a s. elim (c.encode a) [
    | ok b ↦ (ok tt, (k, b) ∷ s)
    | err e ↦ (err e, s)
    | panic ↦ (panic, s)
  ];
  load = λ s. and_then (lookup k s) c.decode;
}

abbrev mock_canonicalize : String → Outcome CanonicalAddr
mock_canonicalize a =
    if str_eq a "dealer"
    then ok (1 ∷ [])
    else if str_eq a "child_snip721_addr"
    then ok (2 ∷ [])
    else if str_eq a "admin"
    then ok (3 ∷ [])
    else if str_eq a "minty"
    then ok (4 ∷ [])
    else if str_eq a "creator"
    then ok (5 ∷ [])
    else err unreadable

abbrev mock_humanize : CanonicalAddr → Outcome Addr
mock_humanize c =
    if bytes_eq c (1 ∷ [])
    then ok "dealer"
    else if bytes_eq c (2 ∷ [])
    then ok "child_snip721_addr"
    else if bytes_eq c (3 ∷ [])
    then ok "admin"
    else if bytes_eq c (4 ∷ [])
    then ok "minty"
    else if bytes_eq c (5 ∷ [])
    then ok "creator"
    else err unreadable

abbrev mock_validate : String → Outcome Addr
mock_validate a = and_then (mock_canonicalize a) λ _. ok a

abbrev mock_subscribers : Item Entries (List CanonicalContractInfo)
mock_subscribers =
    mock_item (record { encode = λ l. ok (subscribed l); decode = decode_subscribed }) "subscribers"

abbrev mock_slots : Item Entries ℕ
mock_slots = mock_item (record { encode = λ n. ok (byte n); decode = decode_byte }) "slots"

-- One slot less, where there is a limit.
abbrev pub spend : Outcome ℕ → Entries → Outcome Entries
spend (ok zero) s = err (foreign "no slots")
spend (ok (suc n)) s = ok (("slots", byte n) ∷ s)
spend (err e) s = ok s
spend panic s = panic

abbrev pub mock_add : CanonicalAddr → String → Exec Entries (Unit {0})
mock_add a h s = elim (unwrap_or [] (mock_subscribers.load s)) [
  | ok l ↦ elim (spend (mock_slots.load s) s) [
    | ok s' ↦ mock_subscribers.save (l ++ record { address = a; code_hash = h } ∷ []) s'
    | err e ↦ (err e, s)
    | panic ↦ (panic, s)
  ]
  | err e ↦ (err e, s)
  | panic ↦ (panic, s)
]

abbrev pub answered : Outcome (Unit {0}) × Entries → Outcome (List (SubMsg Payload)) × Entries
answered (ok _, s) = (ok [], s)
answered (err e, s) = (err e, s)
answered (panic, s) = (panic, s)

abbrev pub mock_register : String → String → Exec Entries (List (SubMsg Payload))
mock_register address h s = elim (mock_canonicalize address) [
  | ok a ↦ answered (mock_add a h s)
  | err e ↦ (err e, s)
  | panic ↦ (panic, s)
]

abbrev pub mock_update : CanonicalAddr → CanonicalContractInfo → Exec Entries (Unit {0})
mock_update from to s = elim (mock_subscribers.load s) [
  | ok l ↦ mock_subscribers.save (map (replace from to) l) s
  | err e ↦ (ok tt, s)
  | panic ↦ (panic, s)
]

abbrev mock_notification : ReplyOn → ℕ → Payload → ContractInfo → SubMsg Payload
mock_notification on id bytes c = record {
  id = id;
  msg = CosmosMsg.wasm (WasmMsg.execute c.address c.code_hash bytes []);
  reply_on = on;
}

abbrev pub mock : Platform
mock = record {
  types = mock_types;
  Storage = Entries;
  Binary = Payload;
  Response = List (SubMsg Payload);
  Circumstance = ℕ;
  Snip721QueryMsg = String;
  addr_validate = mock_validate;
  addr_canonicalize = mock_canonicalize;
  addr_humanize = mock_humanize;
  response_new = [];
  add_submessages = λ r ms. r ++ ms;
  messages = λ r. r;
  sub_msg_new = λ m. record { id = 0; msg = m; reply_on = never };
  reply_on_success = λ m id. record { id = id; msg = m; reply_on = success };
  coin_to_string = λ c. c.denom;
  uint128_to_string = λ n. "";
  dealer_execute_json = record { encode = λ m. ok (dealer m); decode = decode_dealer };
  migratable_execute_json = record { encode = λ m. ok (migratable m); decode = decode_migratable };
  migration_listener_json = record { encode = encode_listener; decode = decode_listener };
  snip721_execute_json = record { encode = λ m. ok (snip721 m); decode = decode_snip721 };
  child_instantiate_json = record { encode = λ m. ok (child_instantiate m); decode = decode_child };
  query_answer_json = record { encode = λ a. ok (answer a); decode = decode_answer };
  item_new = mock_item;
  addr_bincode = record { encode = λ a. ok (addr a); decode = decode_addr };
  text_bincode = record { encode = λ t. ok (text t); decode = decode_text };
  coins_bincode = record { encode = λ c. ok (coins c); decode = decode_coins };
  metadata_bincode = record { encode = λ m. ok (metadata m); decode = decode_metadata };
  subscribers_bincode = record { encode = λ l. ok (subscribed l); decode = decode_subscribed };
  byte_bincode = record { encode = λ n. ok (byte n); decode = decode_byte };
  subscribers_key = "subscribers";
  slots_key = "slots";
  canonicalize = λ c.
      and_then (mock_canonicalize c.address)
        λ a. ok (record { address = a; code_hash = c.code_hash });
  into_humanized = λ c.
      and_then (mock_humanize c.address) λ a. ok (record { address = a; code_hash = c.code_hash });
  register_to_notify_on_migration_complete = mock_register;
  add_migration_complete_event_subscriber = mock_add;
  update_migrated_subscriber = mock_update;
  create_broadcast_migration_complete_notification_msgs = λ s on id to cs bytes.
      and_then (encode_listener (migration_complete_notification to bytes))
        λ b. ok (map (mock_notification on id b) cs);
  snip721_instantiate = λ env info msg s. (ok [], s);
  snip721_execute = λ env info msg s. (ok [], s);
  snip721_query = λ s env msg. ok (text msg);
}
