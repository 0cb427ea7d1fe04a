-- ===== src/Dealer/State/View/Library.antt =====
-- What the functions of cw_migratable_contract_std change of what can be read of a dealer's
-- storage.
use snip721_migratable.Base.{String, ◌≡◌, ◌≢◌, ◌∙◌, ap, List, [], ◌∷◌, ◌++◌, map}
use snip721_migratable.Exec.{ok, unwrap_or}
use snip721_migratable.Cosmwasm.{CanonicalAddr, CanonicalContractInfo}
use snip721_migratable.Platform.{Platform, subscribers, remaining_sub_slots}
use snip721_migratable.Platform.Laws.{Laws, HasSlot, All, replace}
use snip721_migratable.Dealer.State.View.Reads.{view}

module _ (p : Platform) where
  open p use {Storage, Binary, types, item_new}

  module _ (laws : Laws p) where
    -- Replacing a subscriber, with whatever result, leaves the dealer's own items and the slots alone.
    view-update_others :
        (from : CanonicalAddr) (to : CanonicalContractInfo) (s : Storage)
        → let s' = (p.update_migrated_subscriber from to s).1 in
          view p s' ≡ record (view p s) { subscribed = (view p s').subscribed }
    unfolding view
    view-update_others from to s = λ i.
        let foreign = laws.storage.subscribers_foreign in
        record {
          admin = laws.migration.update_others from to s p.addr_bincode "admin" foreign.admin i;
          code_hash =
              laws.migration.update_others from to s p.text_bincode "childSnip721CodeHash"
                foreign.child_snip721_code_hash i;
          address =
              laws.migration.update_others from to s p.addr_bincode "childSnip721Addr"
                foreign.child_snip721_address i;
          prices =
              laws.migration.update_others from to s p.coins_bincode "prices"
                foreign.purchase_prices i;
          metadata =
              laws.migration.update_others from to s p.metadata_bincode "purMetadata"
                foreign.purchasable_metadata i;
          subscribed = (subscribers p).load (p.update_migrated_subscriber from to s).1;
          slots =
              laws.migration.update_others from to s p.byte_bincode p.slots_key
                laws.storage.keys_differ i;
        }

    pub view-update :
        (from : CanonicalAddr) (to : CanonicalContractInfo) (s : Storage)
        (l : List CanonicalContractInfo)
        → (view p s).subscribed ≡ ok l
        → view p (p.update_migrated_subscriber from to s).1
          ≡ record (view p s) { subscribed = ok (map (replace from to) l) }
    unfolding view
    view-update from to s l h =
        view-update_others from to s
        ∙ ap (λ o. record (view p s) { subscribed = o }) (laws.migration.update_lem from to s l h).1

    pub update_ok :
        (from : CanonicalAddr) (to : CanonicalContractInfo) (s : Storage)
        (l : List CanonicalContractInfo)
        → (view p s).subscribed ≡ ok l
        → (p.update_migrated_subscriber from to s).0 ≡ ok tt
    unfolding view
    update_ok from to s l h = (laws.migration.update_lem from to s l h).0

    pub add_ok :
        (a : CanonicalAddr) (h : String) (s : Storage) (l : List CanonicalContractInfo)
        → unwrap_or [] (view p s).subscribed ≡ ok l
        → HasSlot (view p s).slots
        → All (λ (c : CanonicalContractInfo). c.address ≢ a) l
        → (p.add_migration_complete_event_subscriber a h s).0 ≡ ok tt
    unfolding view
    add_ok a h s l listed room fresh = (laws.migration.add_lem a h s l listed room fresh).0

    -- What is left of the slots is up to the library.
    pub view-add :
        (a : CanonicalAddr) (h : String) (s : Storage) (l : List CanonicalContractInfo)
        → unwrap_or [] (view p s).subscribed ≡ ok l
        → HasSlot (view p s).slots
        → All (λ (c : CanonicalContractInfo). c.address ≢ a) l
        → view p (p.add_migration_complete_event_subscriber a h s).1 ≡ record (view p s) {
          subscribed = ok (l ++ record { address = a; code_hash = h } ∷ []);
          slots = (view p (p.add_migration_complete_event_subscriber a h s).1).slots;
        }
    unfolding view
    view-add a h s l listed room fresh = λ i. record {
      admin =
          laws.migration.add_others a h s p.addr_bincode "admin"
            laws.storage.subscribers_foreign.admin laws.storage.slots_foreign.admin i;
      code_hash =
          laws.migration.add_others a h s p.text_bincode "childSnip721CodeHash"
            laws.storage.subscribers_foreign.child_snip721_code_hash
            laws.storage.slots_foreign.child_snip721_code_hash i;
      address =
          laws.migration.add_others a h s p.addr_bincode "childSnip721Addr"
            laws.storage.subscribers_foreign.child_snip721_address
            laws.storage.slots_foreign.child_snip721_address i;
      prices =
          laws.migration.add_others a h s p.coins_bincode "prices"
            laws.storage.subscribers_foreign.purchase_prices
            laws.storage.slots_foreign.purchase_prices i;
      metadata =
          laws.migration.add_others a h s p.metadata_bincode "purMetadata"
            laws.storage.subscribers_foreign.purchasable_metadata
            laws.storage.slots_foreign.purchasable_metadata i;
      subscribed = (laws.migration.add_lem a h s l listed room fresh).1 i;
      slots = (remaining_sub_slots p).load (p.add_migration_complete_event_subscriber a h s).1;
    }

    -- Registering a subscriber, with whatever result, leaves the dealer's own items alone.
    pub view-register :
        (address h : String) (s : Storage)
        → let s' = (p.register_to_notify_on_migration_complete address h s).1 in
          view p s'
          ≡ record (view p s) { subscribed = (view p s').subscribed; slots = (view p s').slots }
    unfolding view
    view-register address h s = λ i. record {
      admin =
          laws.migration.register_others address h s p.addr_bincode "admin"
            laws.storage.subscribers_foreign.admin laws.storage.slots_foreign.admin i;
      code_hash =
          laws.migration.register_others address h s p.text_bincode "childSnip721CodeHash"
            laws.storage.subscribers_foreign.child_snip721_code_hash
            laws.storage.slots_foreign.child_snip721_code_hash i;
      address =
          laws.migration.register_others address h s p.addr_bincode "childSnip721Addr"
            laws.storage.subscribers_foreign.child_snip721_address
            laws.storage.slots_foreign.child_snip721_address i;
      prices =
          laws.migration.register_others address h s p.coins_bincode "prices"
            laws.storage.subscribers_foreign.purchase_prices
            laws.storage.slots_foreign.purchase_prices i;
      metadata =
          laws.migration.register_others address h s p.metadata_bincode "purMetadata"
            laws.storage.subscribers_foreign.purchasable_metadata
            laws.storage.slots_foreign.purchasable_metadata i;
      subscribed = (subscribers p).load (p.register_to_notify_on_migration_complete address h s).1;
      slots =
          (remaining_sub_slots p).load (p.register_to_notify_on_migration_complete address h s).1;
    }
