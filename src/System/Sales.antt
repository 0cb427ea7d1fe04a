-- ===== src/System/Sales.antt =====
-- Purchases at a dealer after migrations of it and of its child.
use mathlib.Core.Path.{subst}
use snip721_migratable.Base.{◌≡◌, List, [], ◌∷◌}
use snip721_migratable.Exec.{ok}
use snip721_migratable.Cosmwasm.{
  Coin, ContractInfo, Env, MessageInfo, SubMsg, CosmosMsg, BankMsg, WasmMsg, never,
}
use snip721_migratable.Dealer.Msg.{DealerState, dealer, purchase_mint}
use snip721_migratable.Dealer.Execute.{execute}
use snip721_migratable.Dealer.Purchase.Terms.{FirstPrice}
use snip721_migratable.Platform.{Platform}
use snip721_migratable.Platform.Laws.{Laws, Sends}
use snip721_migratable.System.{Pair, Migration, migrate_all}
use snip721_migratable.System.Linked.{Linked}
use snip721_migratable.System.Links.{latest_child, migrate_all-Linked}
use snip721_migratable.System.Mints.{purchase_mints}

module _ (p : Platform) (d : DealerState p.types) where
  -- The two messages of a sale: the coin for the admin, and some bytes for the child.
  abbrev pub sale : ContractInfo → Coin → p.Binary → List (SubMsg p.Binary)
  sale child c bytes =
      record { id = 0; msg = CosmosMsg.bank (BankMsg.send d.admin (c ∷ [])); reply_on = never }
      ∷ record {
        id = 0;
        msg = CosmosMsg.wasm (WasmMsg.execute child.address child.code_hash bytes []);
        reply_on = never;
      }
      ∷ []

  -- Under the laws of the libraries, from linked contracts any migrations of either of them go
  -- through, and then a purchase with the first listed price of a denom as its only funds
  -- succeeds: the coin goes to the dealer's admin, and some bytes to the child at its old address
  -- and the code hash of its last migration.
  pub purchase_after_migrations :
      (laws : Laws p) (here : p.Circumstance) (ms : List Migration) (w : Pair p)
      → Linked p d w
      → (env : Env p.Circumstance) (info : MessageInfo) (c : Coin) → info.funds ≡ c ∷ []
      → FirstPrice d.prices c
      → (w' : Pair p) × (migrate_all p here ms w ≡ ok w')
        × ((bytes : p.Binary) × Sends p
              (execute p env info (dealer purchase_mint) w'.dealer_storage).0
              (sale
                (record {
                  address = w.child.address;
                  code_hash = latest_child ms w.child.code_hash;
                })
                c
                bytes))
  purchase_after_migrations laws here ms w linked env info c hf hp =
      let (w', run, linked', _, child_is) = migrate_all-Linked p d laws here ms w linked in
      let (bytes, sends, _) = purchase_mints p laws d w' linked' env info c hf hp in
      (
        w',
        run,
        (
          bytes,
          subst
              (λ child.
                Sends p (execute p env info (dealer purchase_mint) w'.dealer_storage).0
                  (sale child c bytes))
              child_is sends,
        ),
      )
