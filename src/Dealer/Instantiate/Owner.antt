-- ===== src/Dealer/Instantiate/Owner.antt =====
-- Who owns a new dealer, told apart from the code.
use snip721_migratable.Base.{String, ◌≡◌, refl, Option, none, some}
use snip721_migratable.Exec.{ok}
use snip721_migratable.Cosmwasm.{Addr}
use snip721_migratable.Dealer.Instantiate.{true_admin}
use snip721_migratable.Platform.{Platform}

module _ (p : Platform) where
  open p use {addr_validate}

  -- The admin that the message names, whose address is valid, or else the sender.
  pub data Owns (named : Option String) (sender owner : Addr) : Type 0 where
    by_name : (a : String) → named ≡ some a → addr_validate a ≡ ok owner → Owns named sender owner
    by_default : named ≡ none → sender ≡ owner → Owns named sender owner

  pub true_admin-Owns :
      {named : Option String} {sender owner : Addr}
      → Owns named sender owner
      → true_admin p named sender ≡ ok owner
  true_admin-Owns (by_name a names valid) = rw (names, valid)
  true_admin-Owns (by_default unnamed same) = rw (unnamed, same)

  pub Owns-of_true_admin :
      (named : Option String) (sender owner : Addr)
      → true_admin p named sender ≡ ok owner
      → Owns named sender owner
  Owns-of_true_admin none sender owner h = by_default refl (cc)
  Owns-of_true_admin (some a) sender owner h = by_name a refl h
