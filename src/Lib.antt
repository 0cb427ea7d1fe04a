-- ===== src/Lib.antt =====
-- The two contracts of this repository: contracts/snip721-dealer sells mints of an NFT with fixed
-- metadata for fixed prices, and contracts/snip721-migratable is the token contract that it
-- instantiates and mints on. Either can be migrated, and then tells the other where it is.
--
-- How the parts interact. `instantiate` of the dealer sends a message that instantiates the child;
-- the chain's answer is entered at `reply`, which stores the child's address, subscribes the child to
-- the dealer's migrations, and asks the child to subscribe the dealer and to change its admin. A
-- buyer's `PurchaseMint` makes the dealer pay its admin and send the child a mint. `migrate` of either
-- contract notifies its subscribers; the notified contract replaces the old address and code hash.
--
-- The modules and the code:
--   Base, Exec       Booleans, lists, decimal numerals; errors, panics and storage in the state.
--   Cosmwasm,        the data of cosmwasm_std, cw_migratable_contract_std and
--   Snip721          snip721_reference_impl that the contracts build and read
--   Serde            the crate serde's visitors and deserializers
--   Platform         the functions of those crates as one parameter, the record `Platform`; their laws
--                    in Platform/Laws, those that only long histories need in Platform/History, and a
--                    concrete platform that keeps them in Platform/Mock and Platform/Payloads
--   Dealer.Msg       contracts/snip721-dealer/src/{msg,msg_types,msg_external}.rs and the record of
--                    state.rs
--   Dealer.State     its storage items (state.rs), and what can be read of them
--   Dealer.Instantiate, Dealer.Purchase, Dealer.Child, Dealer.Execute
--                    `instantiate`; `purchase_and_mint`; `reply`, `on_instantiated_snip721_reply`
--                    and `update_child_snip721`; `execute` and the queries (contract.rs)
--   Dealer.Migrate   `migrate` (contract_migrate.rs)
--   Dealer.Deserialize
--                    the untagged `ExecuteMsg` (msg.rs, msg_untagged_deserializer.rs)
--   Dealer.Lifecycle a dealer from `instantiate` to `reply`
--   Migratable.Msg, Migratable.State, Migratable.Contract, Migratable.Migrate, Migratable.Deserialize
--                    msg.rs, state.rs, contract.rs, contract_migrate.rs and
--                    msg_untagged_deserializer.rs of contracts/snip721-migratable/src
--   System           both contracts, entered with each other's messages in bytes; System/Events has
--                    the transactions that make up their histories
--   Schema, Dealer.Schema, Migratable.Schema
--                    the schema generators, contracts/snip721-dealer/examples/dealer-schema.rs and
--                    contracts/snip721-migratable/examples/snip721-schema.rs
--   Tests            the fixtures of test_utils.rs of both contracts; the tests of both contracts run
--                    on the model, in Tests.Scenarios (test_execute.rs, test_instantiate.rs),
--                    Tests.MessageScenarios (test_instantiate.rs) and Tests.MigrationScenarios
--                    (test_migrate.rs); and the theorems at concrete inputs
--
-- How the code is modelled. A handler is a function from a storage to an outcome and a storage,
-- with the name of its Rust function and its statements in the same order, in a do block. An
-- outcome is a result, an error (`StdError`) or a panic, so that `?`, `unwrap` and indexing are
-- all there. A failed handler keeps in the model what it wrote before it failed; the chain drops
-- it (`commit` in Exec, which sequences of calls use). `u8`, `u64` and `Uint128` values are only compared and
-- copied in this code, never added, so natural numbers stand for them. `decimal`, for the numbers in
-- error texts, divides by ten on fuel n + 1 for n; more fuel changes nothing (`digits_enough`). The
-- lists are those of the code; nothing else is bounded.
--
-- In `System` a response's messages for the other contract are delivered in their order, if the code
-- hash in the message is that of the contract, as the chain checks. Bank messages send coins that
-- the dealer was paid in the same call, and are taken to succeed. Messages of
-- a migration are followed to the other contract; those for further subscribers, of whom there may
-- be any number, are sent and not followed. A purchase is one transaction with its mint (`buy`): where
-- the collection refuses the mint, nothing of the purchase is kept.
--
-- Not modelled: the crates that the contracts call, which are not in this repository (the parameter
-- `Platform` stands for them, and `Laws` states what is relied on; what they do when an account
-- subscribes twice is left open, and such subscriptions are left out of histories); the derived
-- `Serialize` of messages that are read by no hand-written code; the crate roots (src/lib.rs of both
-- contracts), which only name modules; and the deployment.
pub mod Base
pub mod Exec
pub mod Cosmwasm
pub mod Snip721
pub mod Serde
pub mod Schema
pub mod Platform
pub mod Dealer
pub mod Migratable
pub mod System
pub mod Tests
