-- ===== src/Migratable/Deserialize/Refuses.antt =====
-- When the bytes of a message of the token contract are refused.
use snip721_migratable.Base.{◌≡◌, ◌↔◌}
use snip721_migratable.Exec.{StdError, err}
use snip721_migratable.Dealer.Deserialize.{unsupported_execute_message}
use snip721_migratable.Dealer.Deserialize.Refuses.{or_else_err_iff}
use snip721_migratable.Migratable.Deserialize.{visit_bytes}
use snip721_migratable.Migratable.Msg.{base, migrate, migrate_listener}
use snip721_migratable.Platform.{Platform}
use snip721_migratable.Platform.Laws.{Rejects}

module _ (p : Platform) where
  -- Bytes are refused as a message of the token contract with the error `e` exactly when each of
  -- the three kinds of message is refused and `e` is the error for an unsupported message: no
  -- error of one reader stops the next, and none is reported.
  pub child_visit_bytes_err_iff :
      (b : p.Binary) (e : StdError)
      → (visit_bytes p b ≡ err e) ↔ (
          Rejects p p.snip721_execute_json b
          × Rejects p p.migratable_execute_json b
          × Rejects p p.migration_listener_json b
          × (e ≡ unsupported_execute_message))
  unfolding visit_bytes
  child_visit_bytes_err_iff b e =
      let third = or_else_err_iff (p.migration_listener_json.decode b) migrate_listener _ in
      let second = or_else_err_iff (p.migratable_execute_json.decode b) migrate _ in
      let first = or_else_err_iff (p.snip721_execute_json.decode b) base _ in
      (
        λ h.
            let (r1, h1) = first.0 h in
            let (r2, h2) = second.0 h1 in let (r3, h3) = third.0 h2 in (r1, r2, r3, cc),
        λ (r1, r2, r3, he). first.1 (r1, second.1 (r2, third.1 (r3, rw he))),
      )
