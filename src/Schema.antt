-- ===== src/Schema.antt =====
-- What the schema generators of the two contracts (the directories examples) use of the standard
-- library and of cosmwasm_schema, and what they rely on.
pub mod Generates
use snip721_migratable.Base.{String, ◌≡◌, ◌≢◌, List, [], ◌∷◌, ◌++◌}
use snip721_migratable.Exec.{Outcome, Exec, ok, unwrap}
use snip721_migratable.Platform.Laws.{All}

pub record Disk : Type 1 where
  pub World : Type 0
  pub PathBuf : Type 0
  pub RootSchema : Type 0
  pub current_dir : World → Outcome PathBuf
  pub push : PathBuf → String → PathBuf
  pub create_dir_all : PathBuf → Exec World (Unit {0})
  pub remove_schemas : PathBuf → Exec World (Unit {0})
  pub export_schema : RootSchema → PathBuf → Exec World (Unit {0})

-- What `schema_for!` makes of the types of messages of a contract.
pub record Schemas (RootSchema : Type 0) : Type 0 where
  pub instantiate_msg : RootSchema
  pub execute_msg : RootSchema
  pub query_msg : RootSchema

-- A call with its result unwrapped.
abbrev pub unwrapped {ℓ κ} : {S : Type ℓ} {A : Type κ} → Exec S A → Exec S A
unwrapped f s = (unwrap (f s).0, (f s).1)

module _ (disk : Disk) where
  open disk use {World, PathBuf, RootSchema, create_dir_all, remove_schemas, export_schema}

  -- In a directory that exists, the schemas there can be removed, and a schema whose title none there
  -- has can be added.
  pub record DiskLaws : Type 1 where
    pub title : RootSchema → String
    pub Exists : World → PathBuf → Type 0
    pub listed : World → PathBuf → List RootSchema
    pub creates :
        (d : PathBuf) (w : World) → (create_dir_all d w).0 ≡ ok tt → Exists (create_dir_all d w).1 d
    pub removes :
        (d : PathBuf) (w : World)
        → Exists w d
        → ((remove_schemas d w).0 ≡ ok tt)
          × Exists (remove_schemas d w).1 d
          × (listed (remove_schemas d w).1 d ≡ [])
    pub exports :
        (x : RootSchema) (d : PathBuf) (w : World)
        → Exists w d
        → All (λ y. title y ≢ title x) (listed w d)
        → ((export_schema x d w).0 ≡ ok tt)
          × Exists (export_schema x d w).1 d
          × (listed (export_schema x d w).1 d ≡ listed w d ++ x ∷ [])
