-- ===== src/Dealer/Schema.antt =====
-- contracts/snip721-dealer/examples/dealer-schema.rs
use snip721_migratable.Exec.{Exec, reads, unwrap, ◌>>=◌, ◌>>◌}
use snip721_migratable.Schema.{Disk, Schemas, unwrapped}

module _ (disk : Disk) (schemas : Schemas disk.RootSchema) where
  open disk use {World, current_dir, push, create_dir_all, remove_schemas, export_schema}

  unfoldable pub main : Exec World (Unit {0})
  main = do
    here ← reads (λ w. unwrap (current_dir w))
    let out_dir = push here "contracts/snip721-dealer/schema"
    unwrapped (create_dir_all out_dir)
    unwrapped (remove_schemas out_dir)
    export_schema schemas.instantiate_msg out_dir
    export_schema schemas.execute_msg out_dir
    export_schema schemas.query_msg out_dir
