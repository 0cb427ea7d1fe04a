-- ===== src/Dealer/Execute/Refines.antt =====
-- A running dealer as a machine on `DealerState` (contracts/snip721-dealer/src/msg_types.rs), told
-- without storage, canonical addresses or encodings.
use mathlib.Core.Path.{subst}
use snip721_migratable.Base.{
  Bool-cases, ◌≡◌, ◌≢◌, inl, inr, ap, ◌∙◌, List, [], ◌∷◌, str_eq, arith, eq_iff, if◌then◌else◌,
}
use snip721_migratable.Exec.{ok, commit, commit_ok, commit_keeps, commit_reads}
use snip721_migratable.Cosmwasm.{
  CanonicalAddr, Addr, CanonicalContractInfo, ContractInfo, MessageInfo, Env, MigratableExecuteMsg,
  subscribe_to_migration_complete_event, migration_complete_notification,
}
use snip721_migratable.Dealer.Msg.{
  DealerState, ExecuteMsg, dealer, migrate, migrate_listener, purchase_mint,
}
use snip721_migratable.Dealer.State.View.{View, view, load_rules, load_subscribed, view-register}
use snip721_migratable.Dealer.State.Represents.{Represents}
use snip721_migratable.Dealer.Child.{update_child_snip721}
use snip721_migratable.Dealer.Child.Updates.{update_child_stranger, update_child_stores}
use snip721_migratable.Dealer.Execute.{execute}
use snip721_migratable.Dealer.Purchase.Accepts.{purchase_reads_only}
use snip721_migratable.Dealer.Purchase.{purchase_and_mint}
use snip721_migratable.Platform.{Platform}
use snip721_migratable.Platform.History.{RegistrationLaws}
use snip721_migratable.Platform.Laws.{Laws, Canonical, All}

module _ (p : Platform) where
  open p use {types, Storage, Binary, Circumstance}

  -- The dealer with another child.
  abbrev pub with_child : DealerState types → ContractInfo → DealerState types
  with_child d to = record d {
    child_snip721_address = to.address;
    child_snip721_code_hash = to.code_hash;
  }

  -- What a message makes of the state: the child alone can put another contract in its place.
  abbrev pub after : Addr → ExecuteMsg Binary → DealerState types → DealerState types
  after sender (dealer purchase_mint) d = d
  after sender (migrate _) d = d
  after sender (migrate_listener (migration_complete_notification to _)) d =
      if str_eq sender d.child_snip721_address then with_child d to else d

  -- The contract that a notification tells of has an address with a canonical form.
  abbrev pub TellsValid : ExecuteMsg Binary → Type 0
  TellsValid (migrate_listener (migration_complete_notification to _)) =
      (raw : CanonicalAddr) × Canonical p to.address raw
  TellsValid _ = Unit

  same_address : {a b : Addr} {raw : CanonicalAddr} → Canonical p a raw → Canonical p b raw → a ≡ b
  same_address {a} {b} {raw} ha hb =
      let h = ha.humanized in let h' = hb.humanized in let e : ok a ≡ ok b = cc in cc

  -- A change of the subscribers or their slots is no change of the state.
  kept :
      {s t : Storage} {d : DealerState types}
      → Represents p s d
      → view p t
        ≡ record (view p s) { subscribed = (view p t).subscribed; slots = (view p t).slots }
      → Represents p t d
  kept rep same = record {
    raw_admin = rep.raw_admin;
    raw_child = rep.raw_child;
    admin_form = rep.admin_form;
    child_form = rep.child_form;
    admin = rw same rep.admin;
    address = rw same rep.address;
    code_hash = rw same rep.code_hash;
    prices = rw same rep.prices;
    metadata = rw same rep.metadata;
  }

  -- A list of subscribers is stored, as the reply to the instantiation leaves one.
  abbrev pub HasList : Storage → Type 0
  HasList s = (l : List CanonicalContractInfo) × ((view p s).subscribed ≡ ok l)

  module _ (laws : Laws p) (info : MessageInfo) (to : ContractInfo) (s : Storage)
      (d : DealerState types) (rep : Represents p s d) (moved : CanonicalAddr)
      (moved_form : Canonical p to.address moved) (l : List CanonicalContractInfo)
      (listed : (view p s).subscribed ≡ ok l) where
    abbrev told : Storage
    told = commit (update_child_snip721 p info to s) s

    child_moves :
        info.sender ≡ d.child_snip721_address → Represents p told (with_child d to) × HasList told
    child_moves e =
        let (sends, stores) =
          update_child_stores p laws info to s rep.raw_child moved l rep.address
            (rw e rep.child_form.canonicalized) moved_form.canonicalized listed in
        let same =
          ap (view p) (commit_ok (update_child_snip721 p info to s) s sends.0 sends.1) ∙ stores in
        (
          record {
            raw_admin = rep.raw_admin;
            raw_child = moved;
            admin_form = rep.admin_form;
            child_form = moved_form;
            admin = rw same rep.admin;
            address = rw same;
            code_hash = rw same;
            prices = rw same rep.prices;
            metadata = rw same rep.metadata;
          },
          (_, ap (λ (v : View p). v.subscribed) same),
        )

    listener_runs :
        (raw_sender : CanonicalAddr)
        → Canonical p info.sender raw_sender
        → Represents p told
            (if str_eq info.sender d.child_snip721_address then with_child d to else d)
          × HasList told
    listener_runs raw_sender form = elim (Bool-cases (str_eq info.sender d.child_snip721_address)) [
      | inl same ↦
          let e : info.sender ≡ d.child_snip721_address =
            ground (arith, eq_iff info.sender d.child_snip721_address) in
          rw same (child_moves e)
      | inr differs ↦
          let ne : raw_sender ≢ rep.raw_child = λ e. ground (
            arith,
            eq_iff info.sender d.child_snip721_address,
            same_address (subst (Canonical p info.sender) e form) rep.child_form,
          ) in
          rw
            (
              differs,
              update_child_stranger p info to s raw_sender rep.raw_child
                  (simp load_rules rep.address) form.canonicalized ne,
            )
            (rep, (l, listed))
    ]

  -- What is asked of a running dealer, and by whom.
  pub record Call : Type 0 where
    pub env : Env Circumstance
    pub info : MessageInfo
    pub msg : ExecuteMsg Binary

  -- The sender has an address with a canonical form, and so has the contract told of, if any.
  abbrev pub IsAddressed : Call → Type 0
  IsAddressed c = ((raw : CanonicalAddr) × Canonical p c.info.sender raw) × TellsValid c.msg

  -- The storage after calls, each a transaction.
  abbrev pub execute_all : List Call → Storage → Storage
  execute_all [] s = s
  execute_all (c ∷ cs) s = execute_all cs (commit (execute p c.env c.info c.msg s) s)

  abbrev pub after_all : List Call → DealerState types → DealerState types
  after_all [] d = d
  after_all (c ∷ cs) d = after_all cs (after c.info.sender c.msg d)

  module _ (laws : Laws p) (registration : RegistrationLaws p) where
    execute_runs :
        (env : Env Circumstance) (info : MessageInfo) (msg : ExecuteMsg Binary) (s : Storage)
        (d : DealerState types)
        → (raw : CanonicalAddr) × Canonical p info.sender raw
        → TellsValid msg
        → Represents p s d
        → HasList s
        → Represents p (commit (execute p env info msg s) s) (after info.sender msg d)
          × HasList (commit (execute p env info msg s) s)
    unfolding execute
    execute_runs env info (dealer purchase_mint) s d sent tells rep has =
        rw (commit_reads (purchase_and_mint p info s) s (purchase_reads_only p info s)) (rep, has)
    execute_runs env info (migrate (subscribe_to_migration_complete_event a h)) s d sent tells rep
          has =
        commit_keeps (λ t. Represents p t d × HasList t)
          (p.register_to_notify_on_migration_complete a h s) s (rep, has)
          (λ r done.
            let (l, stored) = registration.register_readable a h s r done in
            (kept rep (view-register p laws a h s), (l, simp (← load_subscribed) stored)))
    execute_runs env info (migrate (MigratableExecuteMsg.other x)) s d sent tells rep has =
        (rep, has)
    execute_runs env info (migrate_listener (migration_complete_notification to x)) s d sent tells
          rep has =
        listener_runs laws info to s d rep tells.0 tells.1 has.0 has.1 sent.0 sent.1

    -- Under the laws of the libraries (a successful registration leaves a list of subscribers that
    -- can be read), after any messages to a running dealer with a list of subscribers, failing or
    -- not, where the writes of a failing call are dropped, from senders whose addresses have
    -- canonical forms, and of contracts whose addresses have them: its storage represents the
    -- state that the abstract machine `after_all` computes from the same messages, and has a list
    -- of subscribers. In that machine only a notification from the child at that time changes the
    -- state, and puts the contract that it tells of in the child's place.
    pub execute_all-Represents :
        (cs : List Call) (s : Storage) (d : DealerState types)
        → All IsAddressed cs
        → Represents p s d
        → HasList s
        → Represents p (execute_all cs s) (after_all cs d) × HasList (execute_all cs s)
    execute_all-Represents [] s d addressed rep has = (rep, has)
    execute_all-Represents (c ∷ cs) s d addressed rep has =
        let (rep', has') =
          execute_runs c.env c.info c.msg s d addressed.0.0 addressed.0.1 rep has in
        execute_all-Represents cs (commit (execute p c.env c.info c.msg s) s)
          (after c.info.sender c.msg d) addressed.1 rep' has'
