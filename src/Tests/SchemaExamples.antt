-- ===== src/Tests/SchemaExamples.antt =====
-- The theorems on the schema generators, at a disk with one directory of schemas named by titles.
use snip721_migratable.Base.{String, refl, List, [], ◌∷◌, ◌++◌, arith, eq_iff}
use snip721_migratable.Exec.{ok}
use snip721_migratable.Schema.{Disk, DiskLaws, Schemas}
use snip721_migratable.Schema.Generates.{
  AreDistinct, Generated, main_generates, child_main_generates,
}
use snip721_migratable.Dealer.Schema as DealerSchema
use snip721_migratable.Migratable.Schema as ChildSchema

abbrev disk : Disk
disk = record {
  World = List String;
  PathBuf = String;
  RootSchema = String;
  current_dir = λ w. ok "here";
  push = λ d sub. sub;
  create_dir_all = λ d w. (ok tt, w);
  remove_schemas = λ d w. (ok tt, []);
  export_schema = λ x d w. (ok tt, w ++ x ∷ []);
}

abbrev disk_laws : DiskLaws disk
disk_laws = record {
  title = λ x. x;
  Exists = λ w d. Unit;
  listed = λ w d. w;
  creates = λ d w made. tt;
  removes = λ d w there. (refl, tt, refl);
  exports = λ x d w there fresh. (refl, tt, refl);
}

abbrev schemas : Schemas String
schemas = record {
  instantiate_msg = "instantiate_msg";
  execute_msg = "execute_msg";
  query_msg = "query_msg";
}

titles_differ : AreDistinct disk disk_laws schemas
titles_differ = record {
  execute_instantiate = λ e. ground (arith, eq_iff "instantiate_msg" "execute_msg");
  query_instantiate = λ e. ground (arith, eq_iff "instantiate_msg" "query_msg");
  query_execute = λ e. ground (arith, eq_iff "execute_msg" "query_msg");
}

main_generates_example :
    Generated disk disk_laws schemas
      (DealerSchema.main disk schemas ("old" ∷ []))
      "contracts/snip721-dealer/schema"
main_generates_example =
    main_generates disk disk_laws schemas titles_differ ("old" ∷ []) "here" refl refl

child_main_generates_example :
    Generated disk disk_laws schemas
      (ChildSchema.main disk schemas ("old" ∷ []))
      "contracts/snip721-migratable/schema"
child_main_generates_example =
    child_main_generates disk disk_laws schemas titles_differ ("old" ∷ []) "here" refl refl
