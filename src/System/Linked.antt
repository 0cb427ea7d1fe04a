-- ===== src/System/Linked.antt =====
-- When a dealer and its child know each other.
use snip721_migratable.Base.{◌≡◌, List}
use snip721_migratable.Exec.{ok}
use snip721_migratable.Cosmwasm.{CanonicalAddr, CanonicalContractInfo}
use snip721_migratable.Dealer.Msg.{DealerState}
use snip721_migratable.Dealer.State.View.{view}
use snip721_migratable.Dealer.State.Represents.{Represents}
use snip721_migratable.Platform.{Platform, subscribers}
use snip721_migratable.Platform.Laws.{Canonical}
use snip721_migratable.System.{Pair}
use snip721_migratable.System.Knows.{Knows}

module _ (p : Platform) (d : DealerState p.types) where
  -- The dealer runs on its terms `d` with this child, and each contract has the other, under its
  -- present address and code hash, as a subscriber.
  pub record Linked (w : Pair p) : Type 0 where
    pub raw_dealer : CanonicalAddr
    pub dealer_form : Canonical p w.dealer.address raw_dealer
    pub rep : Represents p w.dealer_storage (record d {
      child_snip721_address = w.child.address;
      child_snip721_code_hash = w.child.code_hash;
    })
    pub dealer_subscribers : List CanonicalContractInfo
    pub dealer_lists : (view p w.dealer_storage).subscribed ≡ ok dealer_subscribers
    pub knows_child : Knows p dealer_subscribers rep.raw_child w.child.code_hash
    pub child_subscribers : List CanonicalContractInfo
    pub child_lists : (subscribers p).load w.child_storage ≡ ok child_subscribers
    pub knows_dealer : Knows p child_subscribers raw_dealer w.dealer.code_hash
