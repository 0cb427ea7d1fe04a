-- ===== src/Tests/SaleExamples.antt =====
-- The theorems on the dealer's prices at concrete inputs.
use mathlib.Core.List.{Permᴰ}
use snip721_migratable.Base.{◌≡◌, ◌↔◌, refl, some, [], ◌∷◌, arith, eq_iff}
use snip721_migratable.Exec.{err}
use snip721_migratable.Cosmwasm.{MessageInfo}
use snip721_migratable.Dealer.Msg.{InstantiateMsg}
use snip721_migratable.Dealer.State.View.{view}
use snip721_migratable.Dealer.Instantiate.{instantiate}
use snip721_migratable.Dealer.Instantiate.Refuses.{Refusal, instantiate_err_iff}
use snip721_migratable.Dealer.Purchase.{purchase_and_mint}
use snip721_migratable.Dealer.Purchase.Order.{IsDistinct, purchase-perm}
use snip721_migratable.Platform.Mock.{mock, mock_types, Payload, unreadable}
use snip721_migratable.Platform.Mock.Lawful.{mock_laws, mock_admin}
use snip721_migratable.Tests.Fixtures.{
  mock_info, admin_msg_info, scrt_price, atom_price, priced_msg, dealer_env, dealer_storage,
}

-- Prices are listed, but the admin is no valid address.
abbrev badly_owned : InstantiateMsg mock_types
badly_owned = record priced_msg { admin = some "nobody" }

instantiate_err_iff_example :
    ((instantiate mock dealer_env admin_msg_info badly_owned []).0 ≡ err unreadable)
    ↔ Refusal mock mock_laws dealer_env admin_msg_info badly_owned [] (3 ∷ []) mock_admin unreadable
instantiate_err_iff_example =
    instantiate_err_iff mock mock_laws dealer_env admin_msg_info badly_owned [] (3 ∷ []) mock_admin
      unreadable

abbrev paying : MessageInfo
paying = mock_info "minty" (atom_price ∷ [])

-- The dealer, with its prices the other way round.
abbrev swapped_storage : mock.Storage
swapped_storage = ("prices", Payload.coins (atom_price ∷ scrt_price ∷ [])) ∷ dealer_storage

uscrt_ne_uatom : IsDistinct (scrt_price ∷ atom_price ∷ [])
uscrt_ne_uatom = ((λ e. ground (arith, eq_iff "uatom" "uscrt"), tt), (tt, tt))

purchase-perm_example :
    (purchase_and_mint mock paying swapped_storage).0
    ≡ (purchase_and_mint mock paying dealer_storage).0
unfolding view
purchase-perm_example =
    purchase-perm mock paying dealer_storage swapped_storage (scrt_price ∷ atom_price ∷ [])
      (atom_price ∷ scrt_price ∷ []) refl refl ∣ Permᴰ.swap refl refl ∣₁ uscrt_ne_uatom
