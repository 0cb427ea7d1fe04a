-- ===== src/Dealer/State.antt =====
-- The dealer's storage: the five items of contracts/snip721-dealer/src/state.rs.
pub mod View
pub mod Represents
use snip721_migratable.Base.{String, List}
use snip721_migratable.Cosmwasm.{CanonicalAddr, Coin, Item}
use snip721_migratable.Dealer.Msg.{PurchasableMetadata}
use snip721_migratable.Platform.{Platform}

module _ (p : Platform) where
  open p use {Storage, types, item_new, addr_bincode, text_bincode, coins_bincode, metadata_bincode}

  -- `ADMIN`
  abbrev pub admin : Item Storage CanonicalAddr
  admin = item_new addr_bincode "admin"

  -- `CHILD_SNIP721_CODE_HASH`
  abbrev pub child_snip721_code_hash : Item Storage String
  child_snip721_code_hash = item_new text_bincode "childSnip721CodeHash"

  -- `CHILD_SNIP721_ADDRESS`
  abbrev pub child_snip721_address : Item Storage CanonicalAddr
  child_snip721_address = item_new addr_bincode "childSnip721Addr"

  -- `PURCHASE_PRICES`
  abbrev pub purchase_prices : Item Storage (List Coin)
  purchase_prices = item_new coins_bincode "prices"

  -- `PURCHASABLE_METADATA`
  abbrev pub purchasable_metadata : Item Storage (PurchasableMetadata types)
  purchasable_metadata = item_new metadata_bincode "purMetadata"
