-- ===== src/System.antt =====
-- The two contracts together, and the messages between them. A contract is entered with the bytes
-- of a message: they are read by its `Deserialize`, and its `execute` runs on what was read.
pub mod Knows
pub mod Delivers
pub mod Linked
pub mod ChildMoves
pub mod DealerMoves
pub mod Links
pub mod Mints
pub mod Sales
pub mod Handshake
pub mod Buys
pub mod Events
pub mod Accounts
pub mod DealerCalled
pub mod ChildCalled
pub mod Lives
use snip721_migratable.Base.{ℕ, String, Bool, List, [], ◌∷◌, str_eq, if◌then◌else◌}
use snip721_migratable.Exec.{
  Outcome, StdError, foreign, fail, ok, and_then, Exec, pure, lift, ◌>>=◌, ◌>>◌,
}
use snip721_migratable.Cosmwasm.{
  Addr, ContractInfo, MessageInfo, Env, SubMsg, CosmosMsg, WasmMsg, bank, wasm,
}
use snip721_migratable.Dealer.Msg.{dealer, purchase_mint}
use snip721_migratable.Dealer.Deserialize
use snip721_migratable.Dealer.Execute
use snip721_migratable.Dealer.Migrate
use snip721_migratable.Migratable.Deserialize as ChildDeserialize
use snip721_migratable.Migratable.Contract
use snip721_migratable.Migratable.Migrate as ChildMigrate
use snip721_migratable.Platform.{Platform}

-- A migration in place: the contract keeps its address and storage, and runs new code.
pub data Migration : Type 0 where
  of_dealer of_child : (code_hash : String) → Migration

-- The chain's error for a message with another code hash; its text is not known here.
abbrev wrong_code_hash : StdError
wrong_code_hash = foreign "code hash"

module _ (p : Platform) where
  open p use {Storage, Binary, Response, Circumstance, messages}

  -- `execute` of the dealer, entered by the contract `sender` with no funds.
  unfoldable pub enter_dealer : Env Circumstance → Addr → Binary → Exec Storage Response
  enter_dealer env sender bytes = do
    msg ← lift (Deserialize.visit_bytes p bytes)
    Execute.execute p env (record { sender = sender; funds = [] }) msg

  -- `execute` of the token contract, entered likewise.
  unfoldable pub enter_child : Env Circumstance → Addr → Binary → Exec Storage Response
  enter_child env sender bytes = do
    msg ← lift (ChildDeserialize.visit_bytes p bytes)
    Contract.execute p env (record { sender = sender; funds = [] }) msg

  -- One message, run if it is for the contract `target`: the chain compares the code hash of the
  -- message with that of the contract, and fails if they differ. A bank message sends coins that its
  -- sender has, and succeeds.
  abbrev deliver :
      ContractInfo → (Binary → Exec Storage Response) → CosmosMsg Binary → Exec Storage (Unit {0})
  deliver target enter (bank _) = pure tt
  deliver target enter (wasm (WasmMsg.execute a h bytes _)) =
      if str_eq a target.address
      then (if str_eq h target.code_hash then enter bytes >> pure tt else fail wrong_code_hash)
      else pure tt
  deliver target enter (wasm (WasmMsg.instantiate _ _ _ _ _ _)) = pure tt

  -- The messages of a response for the contract `target`, in order, up to the first that fails.
  unfoldable pub deliver_all :
      ContractInfo
      → (Binary → Exec Storage Response)
      → List (SubMsg Binary)
      → Exec Storage (Unit {0})
  deliver_all target enter [] = pure tt
  deliver_all target enter (m ∷ ms) = deliver target enter m.msg >> deliver_all target enter ms

  -- A dealer, its child and their storages.
  pub record Pair : Type 0 where
    pub dealer : ContractInfo
    pub child : ContractInfo
    pub dealer_storage : Storage
    pub child_storage : Storage

  -- The environment of the contract at an address that runs the code with a hash.
  abbrev pub env_of : Circumstance → Addr → String → Env Circumstance
  env_of c a h = record { circumstance = c; contract = record { address = a; code_hash = h } }

  module _ (c : Circumstance) where
    -- The dealer runs `migrate` in its new code; its messages for the child are delivered.
    unfoldable pub migrate_dealer : String → Pair → Outcome Pair
    migrate_dealer h w =
        and_then (Migrate.migrate p (env_of c w.dealer.address h) w.dealer_storage).0 λ r.
          let (o, s) =
            deliver_all w.child
              (enter_child (env_of c w.child.address w.child.code_hash) w.dealer.address)
              (messages r) w.child_storage in
          and_then o λ _. ok (record w {
            dealer = record { address = w.dealer.address; code_hash = h };
            child_storage = s;
          })

    -- The child runs `migrate` in its new code; its messages for the dealer are delivered.
    unfoldable pub migrate_child : String → Pair → Outcome Pair
    migrate_child h w =
        and_then (ChildMigrate.migrate p (env_of c w.child.address h) w.child_storage).0 λ r.
          let (o, s) =
            deliver_all w.dealer
              (enter_dealer (env_of c w.dealer.address w.dealer.code_hash) w.child.address)
              (messages r) w.dealer_storage in
          and_then o λ _. ok (record w {
            child = record { address = w.child.address; code_hash = h };
            dealer_storage = s;
          })

    -- A purchase at the dealer; its messages for the child are delivered.
    unfoldable pub buy : MessageInfo → Pair → Outcome Pair
    buy info w =
        let (bought, t) =
          Execute.execute p (env_of c w.dealer.address w.dealer.code_hash) info
            (dealer purchase_mint) w.dealer_storage in
        and_then bought λ r.
          let (o, s) =
            deliver_all w.child
              (enter_child (env_of c w.child.address w.child.code_hash) w.dealer.address)
              (messages r) w.child_storage in
          and_then o λ _. ok (record w { dealer_storage = t; child_storage = s })

    abbrev pub migrate_one : Migration → Pair → Outcome Pair
    migrate_one (of_dealer h) w = migrate_dealer h w
    migrate_one (of_child h) w = migrate_child h w

    -- Migrations of either contract, one after the other.
    unfoldable pub migrate_all : List Migration → Pair → Outcome Pair
    migrate_all [] w = ok w
    migrate_all (m ∷ ms) w = and_then (migrate_one m w) λ w'. migrate_all ms w'
