-- ===== src/Tests/RefusalExamples.antt =====
-- The theorems on what the dealer refuses of its child's messages at concrete inputs.
use snip721_migratable.Base.{◌≡◌, ◌↔◌, [], ◌∷◌}
use snip721_migratable.Exec.{err}
use snip721_migratable.Cosmwasm.{ContractInfo, MessageInfo, Reply}
use snip721_migratable.Dealer.Child.{reply, update_child_snip721, only_the_child}
use snip721_migratable.Dealer.Child.UpdateRefusal.{UpdateRefusal, update_child_err_iff}
use snip721_migratable.Dealer.Child.ReplyRefusal.{ReplyRefusal, reply_err_iff}
use snip721_migratable.Platform.Mock.{mock, Payload, unreadable}
use snip721_migratable.Platform.Mock.Lawful.{mock_laws, mock_admin}
use snip721_migratable.Tests.NewDealer.{
  without_child, stored_hash, stored_admin, stored_lists, stored_room,
}
use snip721_migratable.Tests.Fixtures.{
  mock_info, child_snip721_code_hash, successful_child_snip721_instantiate_reply, dealer_env,
  dealer_storage, dealer_lists, stored_child,
}

abbrev stranger : MessageInfo
stranger = mock_info "minty" []

abbrev moved : ContractInfo
moved = record { address = "minty"; code_hash = "moved_code_hash" }

update_child_err_iff_example :
    ((update_child_snip721 mock stranger moved dealer_storage).0 ≡ err only_the_child)
    ↔ UpdateRefusal mock mock_laws stranger moved dealer_storage
        (2 ∷ [])
        (record { address = 2 ∷ []; code_hash = child_snip721_code_hash } ∷ [])
        stored_child
        dealer_lists
        only_the_child
update_child_err_iff_example =
    update_child_err_iff mock mock_laws stranger moved dealer_storage (2 ∷ [])
      (record { address = 2 ∷ []; code_hash = child_snip721_code_hash } ∷ []) stored_child
      dealer_lists only_the_child

-- The child's address, as announced, is no valid one.
abbrev misleading : Reply Payload
misleading = successful_child_snip721_instantiate_reply "nobody"

reply_err_iff_example :
    ((reply mock dealer_env misleading without_child).0 ≡ err unreadable)
    ↔ ReplyRefusal mock mock_laws dealer_env without_child "admin"
        (3 ∷ [])
        child_snip721_code_hash
        stored_hash
        stored_admin
        mock_admin
        stored_lists
        stored_room
        1
        misleading.result
        unreadable
reply_err_iff_example =
    reply_err_iff mock mock_laws dealer_env without_child "admin" (3 ∷ []) child_snip721_code_hash
      stored_hash stored_admin mock_admin stored_lists stored_room misleading unreadable
