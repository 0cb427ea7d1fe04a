-- ===== src/Dealer/State/Represents.antt =====
-- The storage of a running dealer as the struct `DealerState` of
-- contracts/snip721-dealer/src/msg_types.rs, whose addresses are not canonical.
use snip721_migratable.Base.{◌≡◌}
use snip721_migratable.Exec.{ok}
use snip721_migratable.Cosmwasm.{CanonicalAddr}
use snip721_migratable.Dealer.Msg.{DealerState}
use snip721_migratable.Dealer.State.View.{view}
use snip721_migratable.Platform.{Platform}
use snip721_migratable.Platform.Laws.{Canonical}

module _ (p : Platform) where
  open p use {types, Storage}

  pub record Represents (s : Storage) (d : DealerState types) : Type 0 where
    pub raw_admin : CanonicalAddr
    pub raw_child : CanonicalAddr
    pub admin_form : Canonical p d.admin raw_admin
    pub child_form : Canonical p d.child_snip721_address raw_child
    pub admin : (view p s).admin ≡ ok raw_admin
    pub address : (view p s).address ≡ ok raw_child
    pub code_hash : (view p s).code_hash ≡ ok d.child_snip721_code_hash
    pub prices : (view p s).prices ≡ ok d.prices
    pub metadata :
        (view p s).metadata
        ≡ ok (record { public_metadata = d.public_metadata; private_metadata = d.private_metadata })
