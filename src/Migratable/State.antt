-- ===== src/Migratable/State.antt =====
-- The stored record of contracts/snip721-migratable/src/state.rs, and its item.
use snip721_migratable.Base.{ℕ}
use snip721_migratable.Cosmwasm.{Codec, Item}
use snip721_migratable.Platform.{Platform}

-- Both counters are `u32`. No operation of the contract reads or writes this record.
pub record MigrateInTokensProgress : Type 0 where
  pub migrate_in_mint_cnt : ℕ
  pub migrate_in_next_mint_index : ℕ

-- `MIGRATE_IN_TOKENS_PROGRESS`, with the format of the stored values.
abbrev migrate_in_tokens_progress :
    (p : Platform) → Codec p.Binary MigrateInTokensProgress → Item p.Storage MigrateInTokensProgress
migrate_in_tokens_progress p progress_bincode = p.item_new progress_bincode "migrateintknsprogress"
