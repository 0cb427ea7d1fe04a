-- ===== src/System/Links.antt =====
-- Migrations of both contracts and their references to each other (README.md).
use snip721_migratable.Base.{String, ◌≡◌, refl, List, [], ◌∷◌}
use snip721_migratable.Exec.{ok}
use snip721_migratable.Dealer.Msg.{DealerState}
use snip721_migratable.Platform.{Platform}
use snip721_migratable.Platform.Laws.{Laws}
use snip721_migratable.System.{Pair, Migration, of_dealer, of_child, migrate_all}
use snip721_migratable.System.Linked.{Linked}
use snip721_migratable.System.ChildMoves.{child_moved, migrate_child_eq, child_moved-Linked}
use snip721_migratable.System.DealerMoves.{dealer_moved, migrate_dealer_eq, dealer_moved-Linked}

-- The code that the dealer runs after the migrations, and the code that the child runs.
abbrev pub latest_dealer : List Migration → String → String
latest_dealer [] h = h
latest_dealer (of_dealer h' ∷ ms) h = latest_dealer ms h'
latest_dealer (of_child _ ∷ ms) h = latest_dealer ms h

abbrev pub latest_child : List Migration → String → String
latest_child [] h = h
latest_child (of_dealer _ ∷ ms) h = latest_child ms h
latest_child (of_child h' ∷ ms) h = latest_child ms h'

module _ (p : Platform) (d : DealerState p.types) (laws : Laws p) where
  open p use {Storage, Binary, Circumstance, into_humanized}

  -- Under the laws of the libraries, from linked contracts any sequence of migrations of either of
  -- them goes through, with every notification delivered and accepted, and ends in linked
  -- contracts on the same terms of sale: both at their old addresses and in the code of their last
  -- migrations, and each known to the other by that address and code hash.
  pub migrate_all-Linked :
      (c : Circumstance) (ms : List Migration) (w : Pair p)
      → Linked p d w
      → (w' : Pair p) × (migrate_all p c ms w ≡ ok w')
        × Linked p d w'
        × (w'.dealer ≡ record {
          address = w.dealer.address;
          code_hash = latest_dealer ms w.dealer.code_hash;
        })
        × (w'.child
            ≡ record { address = w.child.address; code_hash = latest_child ms w.child.code_hash })
  unfolding migrate_all
  migrate_all-Linked c [] w linked = (w, refl, linked, refl, refl)
  migrate_all-Linked c (of_dealer h ∷ ms) w linked =
      let (w', run, linked', dealer_is, child_is) =
        migrate_all-Linked c ms (dealer_moved p d laws c h w linked)
          (dealer_moved-Linked p d laws c h w linked) in
      (w', rw (migrate_dealer_eq p d laws c h w linked) run, linked', dealer_is, child_is)
  migrate_all-Linked c (of_child h ∷ ms) w linked =
      let (w', run, linked', dealer_is, child_is) =
        migrate_all-Linked c ms (child_moved p d laws c h w linked)
          (child_moved-Linked p d laws c h w linked) in
      (w', rw (migrate_child_eq p d laws c h w linked) run, linked', dealer_is, child_is)
