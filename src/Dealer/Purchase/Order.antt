-- ===== src/Dealer/Purchase/Order.antt =====
-- The order in which the dealer's prices are listed.
use mathlib.Core.Path.{subst}
use mathlib.Core.Logic.{∥∥₁_elim}
use mathlib.Core.List.{Perm, Permᴰ}
use mathlib.Core.HLevel.{hedberg}
use snip721_migratable.Base.{
  ◌≡◌, refl, ◌∙◌, inl, inr, Option, String, str_eq, List, [], ◌∷◌, arith, eq_iff, Bool-cases,
}
use snip721_migratable.Exec.{ok}
use snip721_migratable.Cosmwasm.{Coin, MessageInfo}
use snip721_migratable.Dealer.State.View.{view, load_rules}
use snip721_migratable.Dealer.State
use snip721_migratable.Dealer.Purchase.{purchase_and_mint, selected_coin_price}
use snip721_migratable.Dealer.Purchase.Refuses.{one_coin}
use snip721_migratable.Dealer.Purchase.Terms.{IsUnpriced}
use snip721_migratable.Platform.{Platform}
use snip721_migratable.Platform.Laws.{All}

String-discrete : Discrete String
String-discrete a b = elim (Bool-cases (str_eq a b)) [
  | inl same ↦ yes (ground (arith, eq_iff a b))
  | inr differs ↦ no (λ e. ground (arith, eq_iff a b))
]

Option_Coin-set : IsSet (Option Coin)
Option_Coin-set = hlevel (hedberg String-discrete)

-- No denom has two prices.
abbrev pub IsDistinct : List Coin → Type 0
IsDistinct [] = Unit
IsDistinct (c ∷ prices) = IsUnpriced prices c × IsDistinct prices

All-perm : (P : Coin → Type 0) {xs ys : List Coin} → Permᴰ xs ys → All P xs → All P ys
All-perm P Permᴰ.nil h = tt
All-perm P (Permᴰ.cons e r) h = (subst P e h.0, All-perm P r h.1)
All-perm P (Permᴰ.swap e e') h = (subst P e' h.1.0, (subst P e h.0, h.1.1))
All-perm P (Permᴰ.trans r r') h = All-perm P r' (All-perm P r h)

IsDistinct-perm : {xs ys : List Coin} → Permᴰ xs ys → IsDistinct xs → IsDistinct ys
IsDistinct-perm Permᴰ.nil h = tt
IsDistinct-perm (Permᴰ.cons {b} {l₂} e r) h =
    (subst (IsUnpriced l₂) e (All-perm _ r h.0), IsDistinct-perm r h.1)
IsDistinct-perm (Permᴰ.swap {l} e e') h =
    let ne = h.0.0 in
    ((λ q. ne (cc), subst (IsUnpriced l) e' h.1.0), (subst (IsUnpriced l) e h.0.1, h.1.1))
IsDistinct-perm (Permᴰ.trans r r') h = IsDistinct-perm r' (IsDistinct-perm r h)

selected-perm :
    (coin : Coin) {xs ys : List Coin}
    → Permᴰ xs ys
    → IsDistinct xs
    → selected_coin_price xs coin ≡ selected_coin_price ys coin
selected-perm coin Permᴰ.nil h = refl
selected-perm coin (Permᴰ.cons {a} {b} e r) h =
    ground (arith, eq_iff a.denom coin.denom, eq_iff b.denom coin.denom, selected-perm coin r h.1)
selected-perm coin (Permᴰ.swap {a} {b} {a'} {b'} e e') h = ground (
  arith,
  eq_iff a.denom coin.denom,
  eq_iff b.denom coin.denom,
  eq_iff a'.denom coin.denom,
  eq_iff b'.denom coin.denom,
)
selected-perm coin (Permᴰ.trans r r') h =
    selected-perm coin r h ∙ selected-perm coin r' (IsDistinct-perm r h)

module _ (p : Platform) (info : MessageInfo) (s t : p.Storage) (prices prices' : List Coin)
    (listed : (view p s).prices ≡ ok prices) where
  -- When no denom has two prices, the order in which the prices are listed decides nothing: at a
  -- storage with the same values but the prices in another order, a purchase has the same outcome,
  -- with the same messages or the same error.
  pub purchase-perm :
      view p t ≡ record (view p s) { prices = ok prices' }
      → Perm prices prices'
      → IsDistinct prices
      → (purchase_and_mint p info t).0 ≡ (purchase_and_mint p info s).0
  unfolding purchase_and_mint
  purchase-perm same mixed distinct = elim (one_coin info.funds) [
    | inl many ↦ rw many
    | inr (c, hf) ↦
        let picked : selected_coin_price prices c ≡ selected_coin_price prices' c =
          ∥∥₁_elim mixed (Option_Coin-set _ _) (λ m. selected-perm c m distinct) in
        let at_t : (State.purchase_prices p).load t ≡ ok prices' = simp (load_rules, same) in
        let at_s : (State.purchase_prices p).load s ≡ ok prices = simp (load_rules, listed) in
        let admin : (State.admin p).load t ≡ (State.admin p).load s = simp (load_rules, same) in
        let hash : (State.child_snip721_code_hash p).load t
            ≡ (State.child_snip721_code_hash p).load s =
          simp (load_rules, same) in
        let address : (State.child_snip721_address p).load t
            ≡ (State.child_snip721_address p).load s =
          simp (load_rules, same) in
        let metadata : (State.purchasable_metadata p).load t
            ≡ (State.purchasable_metadata p).load s =
          simp (load_rules, same) in
        simp (hf, at_t, at_s, ← picked) (ground arith)
  ]
