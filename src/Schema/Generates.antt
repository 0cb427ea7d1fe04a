-- ===== src/Schema/Generates.antt =====
-- What the schema generators leave in their directories.
use snip721_migratable.Base.{◌≡◌, ◌≢◌, [], ◌∷◌}
use snip721_migratable.Exec.{Outcome, Exec, ok, continue, reads, unwrap, ◌>>=◌, ◌>>◌}
use snip721_migratable.Schema.{Disk, DiskLaws, Schemas, unwrapped}
use snip721_migratable.Dealer.Schema as DealerSchema
use snip721_migratable.Migratable.Schema as ChildSchema

module _ (disk : Disk) (laws : DiskLaws disk) (schemas : Schemas disk.RootSchema) where
  open disk use {World, PathBuf, RootSchema}

  -- The three titles differ.
  pub record AreDistinct : Type 0 where
    pub execute_instantiate : laws.title schemas.instantiate_msg ≢ laws.title schemas.execute_msg
    pub query_instantiate : laws.title schemas.instantiate_msg ≢ laws.title schemas.query_msg
    pub query_execute : laws.title schemas.execute_msg ≢ laws.title schemas.query_msg

  -- The directory `d` has the three schemas and no other.
  abbrev pub Generated : Outcome (Unit {0}) × World → PathBuf → Type 0
  Generated (o, w) d =
      (o ≡ ok tt)
      × (laws.listed w d ≡ schemas.instantiate_msg ∷ schemas.execute_msg ∷ schemas.query_msg ∷ [])

  -- What both generators do once they know their directory.
  unfoldable fill : PathBuf → Exec World (Unit {0})
  fill out_dir = do
    unwrapped (disk.create_dir_all out_dir)
    unwrapped (disk.remove_schemas out_dir)
    disk.export_schema schemas.instantiate_msg out_dir
    disk.export_schema schemas.execute_msg out_dir
    disk.export_schema schemas.query_msg out_dir

  module _ (distinct : AreDistinct) (w : World) where
    fill-Generated : (d : PathBuf) → (disk.create_dir_all d w).0 ≡ ok tt → Generated (fill d w) d
    unfolding fill
    fill-Generated d made =
        let w1 = (disk.create_dir_all d w).1 in
        let (removed, there, bare) = laws.removes d w1 (laws.creates d w made) in
        let w2 = (disk.remove_schemas d w1).1 in
        let (first, there1, one) = laws.exports schemas.instantiate_msg d w2 there (rw bare tt) in
        let w3 = (disk.export_schema schemas.instantiate_msg d w2).1 in
        let (second, there2, two) =
          laws.exports schemas.execute_msg d w3 there1
            (rw (one, bare) (distinct.execute_instantiate, tt)) in
        let w4 = (disk.export_schema schemas.execute_msg d w3).1 in
        let (third, _, three) =
          laws.exports schemas.query_msg d w4 there2
            (rw (two, one, bare) (distinct.query_instantiate, (distinct.query_execute, tt))) in
        (
          rw (made, removed, first, second, third, continue, ◌>>=◌, ◌>>◌, unwrapped, unwrap),
          rw (made, removed, first, second, continue, ◌>>=◌, ◌>>◌, unwrapped, unwrap)
              (rw (three, two, one, bare)),
        )

    -- On a disk that keeps the laws of one, where the three schemas have different titles, the
    -- current directory is known and the schema directory below it can be made: the schema
    -- generator of the dealer finishes, and leaves the schemas of its three types of messages in
    -- that directory and no other schema, whatever was there.
    pub main_generates :
        (here : PathBuf)
        → disk.current_dir w ≡ ok here
        → (disk.create_dir_all (disk.push here "contracts/snip721-dealer/schema") w).0 ≡ ok tt
        → Generated
            (DealerSchema.main disk schemas w)
            (disk.push here "contracts/snip721-dealer/schema")
    unfolding DealerSchema.main fill
    main_generates here found made =
        rw (found, continue, ◌>>=◌, reads, unwrap)
          (fill-Generated (disk.push here "contracts/snip721-dealer/schema") made)

    -- On a disk that keeps the laws of one, where the three schemas have different titles, the
    -- current directory is known and the schema directory below it can be made: the schema
    -- generator of the token contract finishes, and leaves the schemas of its three types of
    -- messages in that directory and no other schema, whatever was there.
    pub child_main_generates :
        (here : PathBuf)
        → disk.current_dir w ≡ ok here
        → (disk.create_dir_all (disk.push here "contracts/snip721-migratable/schema") w).0 ≡ ok tt
        → Generated
            (ChildSchema.main disk schemas w)
            (disk.push here "contracts/snip721-migratable/schema")
    unfolding ChildSchema.main fill
    child_main_generates here found made =
        rw (found, continue, ◌>>=◌, reads, unwrap)
          (fill-Generated (disk.push here "contracts/snip721-migratable/schema") made)
