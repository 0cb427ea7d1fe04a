-- ===== src/Migratable/Contract/Limits.antt =====
-- The limit of subscribers that `instantiate` of the token contract sets.
use snip721_migratable.Base.{◌≡◌, sym}
use snip721_migratable.Exec.{ok, continue, ◌>>=◌, ◌>>◌}
use snip721_migratable.Cosmwasm.{MessageInfo, Env}
use snip721_migratable.Migratable.Msg.{InstantiateMsg}
use snip721_migratable.Migratable.Contract.{instantiate}
use snip721_migratable.Platform.{Platform, remaining_sub_slots, subscribers}
use snip721_migratable.Platform.Laws.{Laws}

module _ (p : Platform) (laws : Laws p) (env : Env p.Circumstance) (info : MessageInfo)
    (msg : InstantiateMsg p.types) (s : p.Storage) where
  -- Under the laws of the libraries, the collection is instantiated, with the message for it and
  -- with whatever result, on a storage in which the limit of the message can be read and the
  -- subscribers are as they were.
  pub instantiate_limits :
      (s' : p.Storage) × (instantiate p env info msg s
        ≡ p.snip721_instantiate env info msg.instantiate s')
      × ((remaining_sub_slots p).load s' ≡ ok msg.max_migration_complete_event_subscribers)
      × ((subscribers p).load s' ≡ (subscribers p).load s)
  unfolding instantiate
  instantiate_limits =
      let n = msg.max_migration_complete_event_subscribers in
      let laws' = laws.storage in
      (
        ((remaining_sub_slots p).save n s).1,
        rw (
          laws'.save_lem p.byte_bincode laws'.byte_faithful p.slots_key n s,
          continue,
          ◌>>=◌,
          ◌>>◌,
        ),
        laws'.load-save p.byte_bincode laws'.byte_faithful p.slots_key n s,
        laws'.load-save_ne p.byte_bincode p.subscribers_bincode p.slots_key p.subscribers_key
            (λ e. laws'.keys_differ (sym e)) n s,
      )
