-- ===== src/Tests/NewDealer.antt =====
-- A dealer that was instantiated and waits for the reply of its child.
use snip721_migratable.Base.{◌≡◌, refl, [], ◌∷◌}
use snip721_migratable.Exec.{unwrap_or, ok}
use snip721_migratable.Dealer.State.View.{view}
use snip721_migratable.Platform.Laws.{HasSlot}
use snip721_migratable.Platform.Mock.{mock, Payload}
use snip721_migratable.Tests.Fixtures.{child_snip721_code_hash}

-- A storage that `instantiate` leaves.
abbrev pub without_child : mock.Storage
without_child =
    ("admin", Payload.addr (3 ∷ []))
    ∷ ("childSnip721CodeHash", Payload.text child_snip721_code_hash)
    ∷ []

pub stored_hash : (view mock without_child).code_hash ≡ ok child_snip721_code_hash
unfolding view
stored_hash = refl

pub stored_admin : (view mock without_child).admin ≡ ok (3 ∷ [])
unfolding view
stored_admin = refl

pub stored_lists : unwrap_or [] (view mock without_child).subscribed ≡ ok []
unfolding view
stored_lists = refl

pub stored_room : HasSlot (view mock without_child).slots
unfolding view
stored_room = tt
