-- ===== src/Dealer/Child/Updates.antt =====
-- Who may tell the dealer that its child moved, and what the dealer then stores.
use snip721_migratable.Base.{◌≡◌, ◌≢◌, refl, ◌∙◌, List, [], map, arith, bytes_eq_iff}
use snip721_migratable.Exec.{ok, err, continue, reads, lift, ◌>>=◌}
use snip721_migratable.Cosmwasm.{CanonicalAddr, ContractInfo, CanonicalContractInfo, MessageInfo}
use snip721_migratable.Dealer.State
use snip721_migratable.Dealer.State.View.{
  view, save_rules, load_rules, view-save_address, view-save_code_hash, view-update, update_ok,
}
use snip721_migratable.Dealer.Child.{update_child_snip721, only_the_child}
use snip721_migratable.Platform.{Platform}
use snip721_migratable.Platform.Laws.{Laws, Sends, replace}

module _ (p : Platform) where
  open p use {Storage, Response, addr_canonicalize}

  -- A sender whose canonical address is not the stored one of the child is refused, and nothing is
  -- stored.
  pub update_child_stranger :
      (info : MessageInfo) (to : ContractInfo) (s : Storage) (sender child : CanonicalAddr)
      → (State.child_snip721_address p).load s ≡ ok child
      → addr_canonicalize info.sender ≡ ok sender
      → sender ≢ child
      → update_child_snip721 p info to s ≡ (err only_the_child, s)
  unfolding update_child_snip721
  update_child_stranger info to s sender child hc hs ne =
      rw (hc, hs, continue, ◌>>=◌, reads, lift) (ground (arith, bytes_eq_iff sender child))

  module _ (laws : Laws p) (info : MessageInfo) (to : ContractInfo) (s : Storage)
      (child moved : CanonicalAddr) (l : List CanonicalContractInfo)
      (hc : (view p s).address ≡ ok child) (hs : addr_canonicalize info.sender ≡ ok child)
      (ht : addr_canonicalize to.address ≡ ok moved) (hl : (view p s).subscribed ≡ ok l) where
    abbrev raw_to : CanonicalContractInfo
    raw_to = record { address = moved; code_hash = to.code_hash }

    abbrev with_address : Storage
    with_address = ((State.child_snip721_address p).save moved s).1

    abbrev with_code_hash : Storage
    with_code_hash = ((State.child_snip721_code_hash p).save to.code_hash with_address).1

    canonicalized : p.canonicalize to ≡ ok raw_to
    canonicalized = rw (laws.migration.canonicalize_lem, ht)

    address_here : (State.child_snip721_address p).load s ≡ ok child
    address_here = simp load_rules hc

    listed_here : (view p with_code_hash).subscribed ≡ ok l
    listed_here = simp (view-save_code_hash, view-save_address, laws) hl

    update_child_eq :
        update_child_snip721 p info to s
        ≡ (ok p.response_new, (p.update_migrated_subscriber child raw_to with_code_hash).1)
    unfolding update_child_snip721
    update_child_eq =
        rw (address_here, hs, (bytes_eq_iff child child).1 refl, continue, ◌>>=◌, reads, lift)
          (rw (canonicalized, continue, ◌>>=◌, lift)
            (simp (save_rules, update_ok p laws child raw_to with_code_hash l listed_here, laws)))

    -- Under the laws of the libraries, when the sender is the stored child, the new address has a
    -- canonical form and a list of subscribers is stored, the child's new address and code hash
    -- are stored and every subscriber at its old address is replaced. No message is sent, and no
    -- other item of the dealer changes.
    pub update_child_stores :
        Sends p (update_child_snip721 p info to s).0 []
        × (view p (update_child_snip721 p info to s).1 ≡ record (view p s) {
          address = ok moved;
          code_hash = ok to.code_hash;
          subscribed = ok (map (replace child raw_to) l);
        })
    update_child_stores = rw update_child_eq (
      (_, refl, laws.response.messages-new),
      view-update p laws child raw_to with_code_hash l listed_here
          ∙ simp (view-save_code_hash, view-save_address, laws),
    )
