-- ===== src/Platform/Payloads.antt =====
-- The messages and stored values of the concrete platform, kept as they are in place of their
-- encodings.
use snip721_migratable.Base.{ℕ, String, none, some, List}
use snip721_migratable.Exec.{Outcome, ok, err, StdError, foreign}
use snip721_migratable.Cosmwasm.{
  CanonicalAddr, Coin, ContractInfo, CanonicalContractInfo, MigratableExecuteMsg,
  MigrationListenerExecuteMsg, migration_complete_notification,
}
use snip721_migratable.Snip721.{Snip721Types, Snip721ExecuteMsg}
use snip721_migratable.Dealer.Msg.{
  DealerExecuteMsg, QueryAnswer, PurchasableMetadata, MigratableSnip721InstantiateMsg,
}

abbrev pub mock_types : Snip721Types
mock_types = record {
  Metadata = String;
  RoyaltyInfo = String;
  SerialNumber = ℕ;
  PostInitCallback = String;
  PostInitData = String;
}

pub data Payload : Type 0 where
  addr : CanonicalAddr → Payload
  text : String → Payload
  coins : List Coin → Payload
  metadata : PurchasableMetadata mock_types → Payload
  subscribed : List CanonicalContractInfo → Payload
  byte : ℕ → Payload
  dealer : DealerExecuteMsg → Payload
  migratable : MigratableExecuteMsg → Payload
  snip721 : Snip721ExecuteMsg mock_types → Payload
  child_instantiate : MigratableSnip721InstantiateMsg mock_types → Payload
  answer : QueryAnswer → Payload
  notify : ContractInfo → Payload
  notify_with : ContractInfo → Payload → Payload

abbrev pub unreadable : StdError
unreadable = foreign "unreadable"

abbrev pub decode_addr : Payload → Outcome CanonicalAddr
decode_addr (addr a) = ok a
decode_addr _ = err unreadable

abbrev pub decode_text : Payload → Outcome String
decode_text (text t) = ok t
decode_text _ = err unreadable

abbrev pub decode_coins : Payload → Outcome (List Coin)
decode_coins (coins c) = ok c
decode_coins _ = err unreadable

abbrev pub decode_metadata : Payload → Outcome (PurchasableMetadata mock_types)
decode_metadata (metadata m) = ok m
decode_metadata _ = err unreadable

abbrev pub decode_subscribed : Payload → Outcome (List CanonicalContractInfo)
decode_subscribed (subscribed l) = ok l
decode_subscribed _ = err unreadable

abbrev pub decode_byte : Payload → Outcome ℕ
decode_byte (byte n) = ok n
decode_byte _ = err unreadable

abbrev pub decode_dealer : Payload → Outcome DealerExecuteMsg
decode_dealer (dealer m) = ok m
decode_dealer _ = err unreadable

abbrev pub decode_migratable : Payload → Outcome MigratableExecuteMsg
decode_migratable (migratable m) = ok m
decode_migratable _ = err unreadable

abbrev pub decode_snip721 : Payload → Outcome (Snip721ExecuteMsg mock_types)
decode_snip721 (snip721 m) = ok m
decode_snip721 _ = err unreadable

abbrev pub decode_child : Payload → Outcome (MigratableSnip721InstantiateMsg mock_types)
decode_child (child_instantiate m) = ok m
decode_child _ = err unreadable

abbrev pub decode_answer : Payload → Outcome QueryAnswer
decode_answer (answer a) = ok a
decode_answer _ = err unreadable

abbrev pub encode_listener : MigrationListenerExecuteMsg Payload → Outcome Payload
encode_listener (migration_complete_notification to none) = ok (notify to)
encode_listener (migration_complete_notification to (some bytes)) = ok (notify_with to bytes)

abbrev pub decode_listener : Payload → Outcome (MigrationListenerExecuteMsg Payload)
decode_listener (notify to) = ok (migration_complete_notification to none)
decode_listener (notify_with to bytes) = ok (migration_complete_notification to (some bytes))
decode_listener _ = err unreadable
