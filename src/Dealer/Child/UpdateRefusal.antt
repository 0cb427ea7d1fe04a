-- ===== src/Dealer/Child/UpdateRefusal.antt =====
-- When the dealer refuses a notification that its child moved, and with which error.
use snip721_migratable.Base.{
  Bool-cases, ◌≡◌, ◌≢◌, ◌↔◌, inl, inr, refl, ap, ◌∙◌, List, arith, bytes_eq, bytes_eq_iff,
}
use snip721_migratable.Exec.{Outcome-cases, StdError, ok, err, panic, continue, reads, lift, ◌>>=◌}
use snip721_migratable.Cosmwasm.{CanonicalAddr, CanonicalContractInfo, ContractInfo, MessageInfo}
use snip721_migratable.Dealer.State
use snip721_migratable.Dealer.State.View.{view, load_rules}
use snip721_migratable.Dealer.Child.{update_child_snip721, only_the_child}
use snip721_migratable.Dealer.Child.Updates.{update_child_stranger, update_child_stores}
use snip721_migratable.Platform.{Platform}
use snip721_migratable.Platform.Laws.{Laws}

module _ (p : Platform) (laws : Laws p) (info : MessageInfo) (to : ContractInfo) (s : p.Storage)
    (child : CanonicalAddr) (l : List CanonicalContractInfo) (hc : (view p s).address ≡ ok child)
    (hl : (view p s).subscribed ≡ ok l) where
  open p use {addr_canonicalize}

  -- Why a notification is refused: the sender is no valid address, or not the child, or the child
  -- moved to no valid address.
  pub data UpdateRefusal (e : StdError) : Type 0 where
    no_sender : addr_canonicalize info.sender ≡ err e → UpdateRefusal e
    stranger :
        (sender : CanonicalAddr)
        → addr_canonicalize info.sender ≡ ok sender
        → sender ≢ child
        → e ≡ only_the_child
        → UpdateRefusal e
    no_target :
        addr_canonicalize info.sender ≡ ok child
        → addr_canonicalize to.address ≡ err e
        → UpdateRefusal e

  child_here : (State.child_snip721_address p).load s ≡ ok child
  child_here = simp load_rules hc

  sender_fails :
      (e : StdError)
      → addr_canonicalize info.sender ≡ err e
      → (update_child_snip721 p info to s).0 ≡ err e
  unfolding update_child_snip721
  sender_fails e h = rw (child_here, h, continue, ◌>>=◌, reads, lift)

  sender_panics :
      addr_canonicalize info.sender ≡ panic → (update_child_snip721 p info to s).0 ≡ panic
  unfolding update_child_snip721
  sender_panics h = rw (child_here, h, continue, ◌>>=◌, reads, lift)

  target_fails :
      (e : StdError)
      → addr_canonicalize info.sender ≡ ok child
      → addr_canonicalize to.address ≡ err e
      → (update_child_snip721 p info to s).0 ≡ err e
  unfolding update_child_snip721
  target_fails e hs h =
      rw (child_here, hs, (bytes_eq_iff child child).1 refl, continue, ◌>>=◌, reads, lift)
        (rw (laws.migration.canonicalize_lem, h, continue, ◌>>=◌, lift))

  target_panics :
      addr_canonicalize info.sender ≡ ok child
      → addr_canonicalize to.address ≡ panic
      → (update_child_snip721 p info to s).0 ≡ panic
  unfolding update_child_snip721
  target_panics hs h =
      rw (child_here, hs, (bytes_eq_iff child child).1 refl, continue, ◌>>=◌, reads, lift)
        (rw (laws.migration.canonicalize_lem, h, continue, ◌>>=◌, lift))

  stranger_fails :
      (sender : CanonicalAddr)
      → addr_canonicalize info.sender ≡ ok sender
      → sender ≢ child
      → (update_child_snip721 p info to s).0 ≡ err only_the_child
  stranger_fails sender hs ne = rw (update_child_stranger p info to s sender child child_here hs ne)

  from_child :
      {e : StdError}
      → addr_canonicalize info.sender ≡ ok child
      → (update_child_snip721 p info to s).0 ≡ err e
      → UpdateRefusal e
  from_child hs h = elim (Outcome-cases (addr_canonicalize to.address)) [
    | inl (moved, ht) ↦
        absurd (cc (h, (update_child_stores p laws info to s child moved l hc hs ht hl).0.1))
    | inr (inl (e', ht)) ↦ no_target hs (cc (h, ht, target_fails e' hs ht))
    | inr (inr ht) ↦ absurd (cc (h, target_panics hs ht))
  ]

  UpdateRefusal-of_err :
      {e : StdError} → (update_child_snip721 p info to s).0 ≡ err e → UpdateRefusal e
  UpdateRefusal-of_err h = elim (Outcome-cases (addr_canonicalize info.sender)) [
    | inl (sender, hs) ↦ elim (Bool-cases (bytes_eq sender child)) [
      | inl same ↦ from_child (hs ∙ ap ok ((bytes_eq_iff sender child).0 same)) h
      | inr differs ↦
          let ne : sender ≢ child = λ e. ground (arith, bytes_eq_iff sender child) in
          stranger sender hs ne (cc (h, stranger_fails sender hs ne))
    ]
    | inr (inl (e', hs)) ↦ no_sender (cc (h, hs, sender_fails e' hs))
    | inr (inr hs) ↦ absurd (cc (h, sender_panics hs))
  ]

  err_of_UpdateRefusal :
      {e : StdError} → UpdateRefusal e → (update_child_snip721 p info to s).0 ≡ err e
  err_of_UpdateRefusal {e} (no_sender h) = sender_fails e h
  err_of_UpdateRefusal (stranger sender hs ne he) = rw he (stranger_fails sender hs ne)
  err_of_UpdateRefusal {e} (no_target hs h) = target_fails e hs h

  -- Under the laws of the libraries, with a child and a list of subscribers stored, a notification
  -- that the child moved is refused with the error `e` exactly when the sender's address has no
  -- canonical form and `e` is the error for that, or the sender is another account than the child
  -- and `e` says that only the child is allowed, or it is the child and `e` is the error for the
  -- new address, which has no canonical form.
  pub update_child_err_iff :
      (e : StdError) → ((update_child_snip721 p info to s).0 ≡ err e) ↔ UpdateRefusal e
  update_child_err_iff e = (UpdateRefusal-of_err, err_of_UpdateRefusal)
