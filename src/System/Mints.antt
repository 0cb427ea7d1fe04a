-- ===== src/System/Mints.antt =====
-- A purchase at the dealer, and what it asks of the collection.
use snip721_migratable.Base.{◌≡◌, [], ◌∷◌}
use snip721_migratable.Exec.{continue, lift, ◌>>=◌}
use snip721_migratable.Cosmwasm.{Coin, Env, MessageInfo}
use snip721_migratable.Dealer.Msg.{DealerState, dealer, purchase_mint}
use snip721_migratable.Dealer.Execute.{execute}
use snip721_migratable.Dealer.Purchase.Terms.{FirstPrice}
use snip721_migratable.Dealer.Purchase.Accepts.{payout, mint, minting, purchase_accepted}
use snip721_migratable.Migratable.Contract
use snip721_migratable.Migratable.Deserialize
use snip721_migratable.Platform.{Platform}
use snip721_migratable.Platform.Laws.{Laws, Sends}
use snip721_migratable.System.{Pair, enter_child}
use snip721_migratable.System.Linked.{Linked}

module _ (p : Platform) (laws : Laws p) (d : DealerState p.types) (w : Pair p)
    (linked : Linked p d w) (env : Env p.Circumstance) (info : MessageInfo) where
  -- The terms of sale with the child as it is now.
  abbrev now : DealerState p.types
  now = record d {
    child_snip721_address = w.child.address;
    child_snip721_code_hash = w.child.code_hash;
  }

  -- Under the laws of the libraries, when the dealer of linked contracts is executed with the
  -- first listed price of a denom as its only funds, it sends the funds to its admin and some
  -- bytes to its child, at the child's present address and code hash; and the child, entered with
  -- those bytes by the dealer in any storage, runs the collection's own `execute` on a mint for
  -- the buyer with the dealer's metadata.
  pub purchase_mints :
      (c : Coin)
      → info.funds ≡ c ∷ []
      → FirstPrice d.prices c
      → (bytes : p.Binary) × Sends p
          (execute p env info (dealer purchase_mint) w.dealer_storage).0
          (payout p laws info w.dealer_storage now linked.rep c
            ∷ mint p laws info w.dealer_storage now linked.rep bytes
            ∷ [])
        × ((env' : Env p.Circumstance) (s : p.Storage)
            → enter_child p env' w.dealer.address bytes s
              ≡ p.snip721_execute env'
                  (record { sender = w.dealer.address; funds = [] })
                  (minting p laws info w.dealer_storage now linked.rep)
                  s)
  unfolding execute enter_child Contract.execute Deserialize.visit_bytes
  purchase_mints c hf hp =
      let (bytes, hd, sends) =
        purchase_accepted p laws info w.dealer_storage now linked.rep c hf hp in
      (bytes, sends, λ env' s. rw (hd, continue, ◌>>=◌, lift))
