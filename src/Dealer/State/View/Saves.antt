-- ===== src/Dealer/State/View/Saves.antt =====
-- What each save changes of what can be read of a dealer's storage.
use snip721_migratable.Base.{String, ◌≡◌, ◌≢◌, refl, sym, false, List, arith, eq_iff, str_eq}
use snip721_migratable.Exec.{ok}
use snip721_migratable.Cosmwasm.{CanonicalAddr, Coin, Codec}
use snip721_migratable.Dealer.Msg.{PurchasableMetadata}
use snip721_migratable.Platform.{Platform}
use snip721_migratable.Platform.Laws.{Laws}
use snip721_migratable.Dealer.State
use snip721_migratable.Dealer.State.View.Reads.{view}

ne_of_str_eq : (k j : String) → str_eq k j ≡ false → k ≢ j
ne_of_str_eq k j h = ground (arith, eq_iff k j)

module _ (p : Platform) where
  open p use {Storage, Binary, types, item_new}

  module _ (laws : Laws p) where
    -- A save at a key `k` is not seen at another key `j`.
    apart :
        {A B : Type 0} (c : Codec Binary A) (d : Codec Binary B) (k j : String)
        → str_eq k j ≡ false
        → (a : A) (s : Storage)
        → (item_new d j).load ((item_new c k).save a s).1 ≡ (item_new d j).load s
    apart c d k j h = laws.storage.load-save_ne c d k j (ne_of_str_eq k j h)

    -- Nor is a save at one of the dealer's own keys at a key of the library.
    apart_library :
        {A B : Type 0} (c : Codec Binary A) (d : Codec Binary B) (k j : String)
        → j ≢ k
        → (a : A) (s : Storage)
        → (item_new d j).load ((item_new c k).save a s).1 ≡ (item_new d j).load s
    apart_library c d k j h = laws.storage.load-save_ne c d k j (λ e. h (sym e))

    pub view-save_admin :
        (a : CanonicalAddr) (s : Storage)
        → view p ((State.admin p).save a s).1 ≡ record (view p s) { admin = ok a }
    unfolding view
    view-save_admin a s = λ i. record {
      admin = laws.storage.load-save p.addr_bincode laws.storage.addr_faithful "admin" a s i;
      code_hash = apart p.addr_bincode p.text_bincode "admin" "childSnip721CodeHash" refl a s i;
      address = apart p.addr_bincode p.addr_bincode "admin" "childSnip721Addr" refl a s i;
      prices = apart p.addr_bincode p.coins_bincode "admin" "prices" refl a s i;
      metadata = apart p.addr_bincode p.metadata_bincode "admin" "purMetadata" refl a s i;
      subscribed =
          apart_library p.addr_bincode p.subscribers_bincode "admin" p.subscribers_key
            laws.storage.subscribers_foreign.admin a s i;
      slots =
          apart_library p.addr_bincode p.byte_bincode "admin" p.slots_key
            laws.storage.slots_foreign.admin a s i;
    }

    pub view-save_code_hash :
        (a : String) (s : Storage)
        → view p ((State.child_snip721_code_hash p).save a s).1
          ≡ record (view p s) { code_hash = ok a }
    unfolding view
    view-save_code_hash a s = λ i. record {
      admin = apart p.text_bincode p.addr_bincode "childSnip721CodeHash" "admin" refl a s i;
      code_hash =
          laws.storage.load-save p.text_bincode laws.storage.text_faithful "childSnip721CodeHash" a
            s i;
      address =
          apart p.text_bincode p.addr_bincode "childSnip721CodeHash" "childSnip721Addr" refl a s i;
      prices = apart p.text_bincode p.coins_bincode "childSnip721CodeHash" "prices" refl a s i;
      metadata =
          apart p.text_bincode p.metadata_bincode "childSnip721CodeHash" "purMetadata" refl a s i;
      subscribed =
          apart_library p.text_bincode p.subscribers_bincode "childSnip721CodeHash"
            p.subscribers_key laws.storage.subscribers_foreign.child_snip721_code_hash a s i;
      slots =
          apart_library p.text_bincode p.byte_bincode "childSnip721CodeHash" p.slots_key
            laws.storage.slots_foreign.child_snip721_code_hash a s i;
    }

    pub view-save_address :
        (a : CanonicalAddr) (s : Storage)
        → view p ((State.child_snip721_address p).save a s).1 ≡ record (view p s) { address = ok a }
    unfolding view
    view-save_address a s = λ i. record {
      admin = apart p.addr_bincode p.addr_bincode "childSnip721Addr" "admin" refl a s i;
      code_hash =
          apart p.addr_bincode p.text_bincode "childSnip721Addr" "childSnip721CodeHash" refl a s i;
      address =
          laws.storage.load-save p.addr_bincode laws.storage.addr_faithful "childSnip721Addr" a s i;
      prices = apart p.addr_bincode p.coins_bincode "childSnip721Addr" "prices" refl a s i;
      metadata =
          apart p.addr_bincode p.metadata_bincode "childSnip721Addr" "purMetadata" refl a s i;
      subscribed =
          apart_library p.addr_bincode p.subscribers_bincode "childSnip721Addr" p.subscribers_key
            laws.storage.subscribers_foreign.child_snip721_address a s i;
      slots =
          apart_library p.addr_bincode p.byte_bincode "childSnip721Addr" p.slots_key
            laws.storage.slots_foreign.child_snip721_address a s i;
    }

    pub view-save_prices :
        (a : List Coin) (s : Storage)
        → view p ((State.purchase_prices p).save a s).1 ≡ record (view p s) { prices = ok a }
    unfolding view
    view-save_prices a s = λ i. record {
      admin = apart p.coins_bincode p.addr_bincode "prices" "admin" refl a s i;
      code_hash = apart p.coins_bincode p.text_bincode "prices" "childSnip721CodeHash" refl a s i;
      address = apart p.coins_bincode p.addr_bincode "prices" "childSnip721Addr" refl a s i;
      prices = laws.storage.load-save p.coins_bincode laws.storage.coins_faithful "prices" a s i;
      metadata = apart p.coins_bincode p.metadata_bincode "prices" "purMetadata" refl a s i;
      subscribed =
          apart_library p.coins_bincode p.subscribers_bincode "prices" p.subscribers_key
            laws.storage.subscribers_foreign.purchase_prices a s i;
      slots =
          apart_library p.coins_bincode p.byte_bincode "prices" p.slots_key
            laws.storage.slots_foreign.purchase_prices a s i;
    }

    pub view-save_metadata :
        (a : PurchasableMetadata types) (s : Storage)
        → view p ((State.purchasable_metadata p).save a s).1 ≡ record (view p s) { metadata = ok a }
    unfolding view
    view-save_metadata a s = λ i. record {
      admin = apart p.metadata_bincode p.addr_bincode "purMetadata" "admin" refl a s i;
      code_hash =
          apart p.metadata_bincode p.text_bincode "purMetadata" "childSnip721CodeHash" refl a s i;
      address = apart p.metadata_bincode p.addr_bincode "purMetadata" "childSnip721Addr" refl a s i;
      prices = apart p.metadata_bincode p.coins_bincode "purMetadata" "prices" refl a s i;
      metadata =
          laws.storage.load-save p.metadata_bincode laws.storage.metadata_faithful "purMetadata" a s
            i;
      subscribed =
          apart_library p.metadata_bincode p.subscribers_bincode "purMetadata" p.subscribers_key
            laws.storage.subscribers_foreign.purchasable_metadata a s i;
      slots =
          apart_library p.metadata_bincode p.byte_bincode "purMetadata" p.slots_key
            laws.storage.slots_foreign.purchasable_metadata a s i;
    }

    pub save_admin_lem : (a : CanonicalAddr) (s : Storage) → ((State.admin p).save a s).0 ≡ ok tt
    save_admin_lem a s = laws.storage.save_lem p.addr_bincode laws.storage.addr_faithful "admin" a s

    pub save_code_hash_lem :
        (a : String) (s : Storage) → ((State.child_snip721_code_hash p).save a s).0 ≡ ok tt
    save_code_hash_lem a s =
        laws.storage.save_lem p.text_bincode laws.storage.text_faithful "childSnip721CodeHash" a s

    pub save_address_lem :
        (a : CanonicalAddr) (s : Storage) → ((State.child_snip721_address p).save a s).0 ≡ ok tt
    save_address_lem a s =
        laws.storage.save_lem p.addr_bincode laws.storage.addr_faithful "childSnip721Addr" a s

    pub save_prices_lem :
        (a : List Coin) (s : Storage) → ((State.purchase_prices p).save a s).0 ≡ ok tt
    save_prices_lem a s =
        laws.storage.save_lem p.coins_bincode laws.storage.coins_faithful "prices" a s

    pub save_metadata_lem :
        (a : PurchasableMetadata types) (s : Storage)
        → ((State.purchasable_metadata p).save a s).0 ≡ ok tt
    save_metadata_lem a s =
        laws.storage.save_lem p.metadata_bincode laws.storage.metadata_faithful "purMetadata" a s

-- The view after each save.
pub ruleset save_rules = (
  view-save_admin, view-save_code_hash, view-save_address, view-save_prices, view-save_metadata,
  save_admin_lem, save_code_hash_lem, save_address_lem, save_prices_lem, save_metadata_lem,
)
