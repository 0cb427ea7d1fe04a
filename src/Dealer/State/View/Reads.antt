-- ===== src/Dealer/State/View/Reads.antt =====
-- What can be read of a dealer's storage, item by item.
use snip721_migratable.Base.{ℕ, String, ◌≡◌, refl, List}
use snip721_migratable.Exec.{Outcome}
use snip721_migratable.Cosmwasm.{CanonicalAddr, Coin, CanonicalContractInfo}
use snip721_migratable.Dealer.Msg.{PurchasableMetadata}
use snip721_migratable.Platform.{Platform, subscribers, remaining_sub_slots}
use snip721_migratable.Dealer.State

module _ (p : Platform) where
  open p use {Storage, Binary, types, item_new}

  pub record View : Type 0 where
    pub admin : Outcome CanonicalAddr
    pub code_hash : Outcome String
    pub address : Outcome CanonicalAddr
    pub prices : Outcome (List Coin)
    pub metadata : Outcome (PurchasableMetadata types)
    pub subscribed : Outcome (List CanonicalContractInfo)
    pub slots : Outcome ℕ

  unfoldable pub view : Storage → View
  view s = record {
    admin = (State.admin p).load s;
    code_hash = (State.child_snip721_code_hash p).load s;
    address = (State.child_snip721_address p).load s;
    prices = (State.purchase_prices p).load s;
    metadata = (State.purchasable_metadata p).load s;
    subscribed = (subscribers p).load s;
    slots = (remaining_sub_slots p).load s;
  }

  module _ (s : Storage) where
    pub load_admin : (State.admin p).load s ≡ (view s).admin
    unfolding view
    load_admin = refl

    pub load_code_hash : (State.child_snip721_code_hash p).load s ≡ (view s).code_hash
    unfolding view
    load_code_hash = refl

    pub load_address : (State.child_snip721_address p).load s ≡ (view s).address
    unfolding view
    load_address = refl

    pub load_prices : (State.purchase_prices p).load s ≡ (view s).prices
    unfolding view
    load_prices = refl

    pub load_metadata : (State.purchasable_metadata p).load s ≡ (view s).metadata
    unfolding view
    load_metadata = refl

    pub load_subscribed : (subscribers p).load s ≡ (view s).subscribed
    unfolding view
    load_subscribed = refl

    pub load_slots : (remaining_sub_slots p).load s ≡ (view s).slots
    unfolding view
    load_slots = refl

-- Loads as fields of the view.
pub ruleset load_rules = (
  load_admin, load_code_hash, load_address, load_prices, load_metadata, load_subscribed, load_slots,
)
