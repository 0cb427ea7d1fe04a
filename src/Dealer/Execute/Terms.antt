-- ===== src/Dealer/Execute/Terms.antt =====
-- The admin, the prices and the metadata of a dealer through its life.
use snip721_migratable.Base.{String, ◌≡◌, refl, ◌∙◌}
use snip721_migratable.Exec.Keeps.{Keeps, keeps_rules}
use snip721_migratable.Cosmwasm.{
  CanonicalAddr, CanonicalContractInfo, ContractInfo, MessageInfo, Env, Reply, MigratableExecuteMsg,
  subscribe_to_migration_complete_event, migration_complete_notification,
}
use snip721_migratable.Dealer.Msg.{ExecuteMsg, dealer, migrate, migrate_listener, purchase_mint}
use snip721_migratable.Dealer.State
use snip721_migratable.Dealer.State.View.{
  View, view, view-save_address, view-save_code_hash, view-register,
}
use snip721_migratable.Dealer.Purchase.Accepts.{purchase_reads_only}
use snip721_migratable.Dealer.Child.{reply, on_instantiated_snip721_reply, update_child_snip721}
use snip721_migratable.Dealer.Migrate
use snip721_migratable.Dealer.Migrate.Notifies.{migrate_reads_only}
use snip721_migratable.Dealer.Execute.{execute}
use snip721_migratable.Platform.{Platform}
use snip721_migratable.Platform.Laws.{Laws}

module _ (p : Platform) where
  open p use {types, Storage, Binary, Response, Circumstance}

  -- The view has the terms of sale of another view.
  pub record SameTerms (v w : View p) : Type 0 where
    pub admin : w.admin ≡ v.admin
    pub prices : w.prices ≡ v.prices
    pub metadata : w.metadata ≡ v.metadata

  module _ (laws : Laws p) (v : View p) where
    abbrev Kept : Storage → Type 0
    Kept s = SameTerms v (view p s)

    save_address-Kept : (a : CanonicalAddr) → Keeps Kept ((State.child_snip721_address p).save a)
    save_address-Kept a = record { at = λ s h. rw (view-save_address p laws a s) (assumption) }

    save_code_hash-Kept : (h : String) → Keeps Kept ((State.child_snip721_code_hash p).save h)
    save_code_hash-Kept x = record { at = λ s h. rw (view-save_code_hash p laws x s) (assumption) }

    register-Kept :
        (address x : String) → Keeps Kept (p.register_to_notify_on_migration_complete address x)
    register-Kept address x = record {
      at = λ s h. rw (view-register p laws address x s) (assumption);
    }

    update-Kept :
        (from : CanonicalAddr) (to : CanonicalContractInfo)
        → Keeps Kept (p.update_migrated_subscriber from to)
    unfolding view
    update-Kept from to = record {
      at = λ s h.
          let foreign = laws.storage.subscribers_foreign in
          record {
            admin =
                laws.migration.update_others from to s p.addr_bincode "admin" foreign.admin
                ∙ h.admin;
            prices =
                laws.migration.update_others from to s p.coins_bincode "prices"
                  foreign.purchase_prices
                ∙ h.prices;
            metadata =
                laws.migration.update_others from to s p.metadata_bincode "purMetadata"
                  foreign.purchasable_metadata
                ∙ h.metadata;
          };
    }

    add-Kept :
        (a : CanonicalAddr) (x : String)
        → Keeps Kept (p.add_migration_complete_event_subscriber a x)
    unfolding view
    add-Kept a x = record {
      at = λ s h.
          let subs = laws.storage.subscribers_foreign in
          let slots = laws.storage.slots_foreign in
          record {
            admin =
                laws.migration.add_others a x s p.addr_bincode "admin" subs.admin slots.admin
                ∙ h.admin;
            prices =
                laws.migration.add_others a x s p.coins_bincode "prices" subs.purchase_prices
                  slots.purchase_prices
                ∙ h.prices;
            metadata =
                laws.migration.add_others a x s p.metadata_bincode "purMetadata"
                  subs.purchasable_metadata slots.purchasable_metadata
                ∙ h.metadata;
          };
    }

    update_child-Kept :
        (info : MessageInfo) (to : ContractInfo) → Keeps Kept (update_child_snip721 p info to)
    unfolding update_child_snip721
    update_child-Kept info to =
        search (keeps_rules, save_address-Kept, save_code_hash-Kept, update-Kept) depth 30

    on_instantiated-Kept :
        (env : Env Circumstance) (msg : Reply Binary)
        → Keeps Kept (on_instantiated_snip721_reply p env msg)
    unfolding on_instantiated_snip721_reply
    on_instantiated-Kept env msg = search (keeps_rules, save_address-Kept, add-Kept) depth 40

    reply-Kept : (env : Env Circumstance) (msg : Reply Binary) → Keeps Kept (reply p env msg)
    unfolding reply
    reply-Kept env msg = search (keeps_rules, on_instantiated-Kept)

    execute-Kept :
        (env : Env Circumstance) (info : MessageInfo) (msg : ExecuteMsg Binary)
        → Keeps Kept (execute p env info msg)
    unfolding execute
    execute-Kept env info (dealer purchase_mint) = record {
      at = λ s h. rw (purchase_reads_only p info s) h;
    }
    execute-Kept env info (migrate (subscribe_to_migration_complete_event address x)) =
        register-Kept address x
    execute-Kept env info (migrate (MigratableExecuteMsg.other x)) = search keeps_rules
    execute-Kept env info (migrate_listener (migration_complete_notification to x)) =
        update_child-Kept info to

  -- What the chain may ask of an instantiated dealer; a step may fail, and then what it wrote may be
  -- kept or dropped.
  pub data Step (s : Storage) : Storage → Type 0 where
    executed :
        (env : Env Circumstance) (info : MessageInfo) (msg : ExecuteMsg Binary)
        → Step s (execute p env info msg s).1
    replied : (env : Env Circumstance) (msg : Reply Binary) → Step s (reply p env msg s).1
    migrated : (env : Env Circumstance) → Step s (Migrate.migrate p env s).1

  pub data Reach (s : Storage) : Storage → Type 0 where
    here : Reach s s
    next : {t u : Storage} → Reach s t → Step t u → Reach s u

  Step-Kept :
      (laws : Laws p) (v : View p) {s t : Storage} → Step s t → Kept laws v s → Kept laws v t
  Step-Kept laws v {s} (executed env info msg) h = (execute-Kept laws v env info msg).at s h
  Step-Kept laws v {s} (replied env msg) h = (reply-Kept laws v env msg).at s h
  Step-Kept laws v {s} (migrated env) h = rw (migrate_reads_only p env s) h

  -- Under the laws of the libraries, after any sequence of messages from anyone, replies and
  -- migrations, failing or not, the stored admin, prices and metadata are what they were.
  pub Reach-SameTerms :
      (laws : Laws p) {s t : Storage} → Reach s t → SameTerms (view p s) (view p t)
  Reach-SameTerms laws here = record { admin = refl; prices = refl; metadata = refl }
  Reach-SameTerms laws {s} (next r st) = Step-Kept laws (view p s) st (Reach-SameTerms laws r)
