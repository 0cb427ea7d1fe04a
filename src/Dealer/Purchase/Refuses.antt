-- ===== src/Dealer/Purchase/Refuses.antt =====
-- When a purchase is refused, and with which error.
use mathlib.Core.Path.{subst}
use snip721_migratable.Base.{
  ℕ, ◌≡◌, ◌≢◌, ◌⊎◌, inl, inr, refl, true, false, List, [], ◌∷◌, length, arith, ◌!=◌, Option-cases,
}
use snip721_migratable.Exec.{StdError, ok, err}
use snip721_migratable.Cosmwasm.{Coin, MessageInfo}
use snip721_migratable.Dealer.State.View.{view}
use snip721_migratable.Dealer.Purchase.{
  purchase_and_mint, selected_coin_price, one_coin_required, denom_not_allowed, wrong_amount,
}
use snip721_migratable.Dealer.Purchase.Terms.{
  FirstPrice, IsUnpriced, select-FirstPrice, select_first, select_unpriced,
}
use snip721_migratable.Platform.{Platform}

pub !=_self : (n : ℕ) → (n != n) ≡ false
!=_self n = ground arith

pub !=_ne : (m n : ℕ) → m ≢ n → (m != n) ≡ true
!=_ne m n h = ground arith

pub FirstPrice-of_eq :
    (prices : List Coin) {price c : Coin}
    → price.denom ≡ c.denom
    → price.amount ≡ c.amount
    → FirstPrice prices price
    → FirstPrice prices c
FirstPrice-of_eq prices hd ha first =
    subst (FirstPrice prices) (λ i. record { denom = hd i; amount = ha i }) first

pub one_coin {ℓ} :
    {A : Type ℓ} (xs : List A) → ((length xs != 1) ≡ true) ⊎ ((x : A) × (xs ≡ x ∷ []))
one_coin [] = inl refl
one_coin (x ∷ []) = inr (x, refl)
one_coin (x ∷ y ∷ xs) = inl (ground arith)

module _ (p : Platform) where
  open p use {types, Storage, Binary, Response, snip721_execute_json}

  -- `e` is the error for these funds at these prices.
  pub data Refusal (prices funds : List Coin) (e : StdError) : Type 0 where
    count : length funds ≢ 1 → e ≡ one_coin_required (length funds) → Refusal prices funds e
    denom :
        (c : Coin)
        → funds ≡ c ∷ []
        → IsUnpriced prices c
        → e ≡ denom_not_allowed c.denom
        → Refusal prices funds e
    amount :
        (c price : Coin)
        → funds ≡ c ∷ []
        → FirstPrice prices price
        → price.denom ≡ c.denom
        → c.amount ≢ price.amount
        → e ≡ wrong_amount p price c
        → Refusal prices funds e

  module _ (info : MessageInfo) (s : Storage) (prices : List Coin)
      (hp : (view p s).prices ≡ ok prices) where
    -- Other than one coin is refused, with their number in the message.
    pub refused_count :
        length info.funds ≢ 1
        → purchase_and_mint p info s ≡ (err (one_coin_required (length info.funds)), s)
    unfolding purchase_and_mint
    refused_count h = rw (!=_ne _ _ h)

    -- A coin in a denom with no price is refused.
    pub refused_denom :
        (c : Coin)
        → info.funds ≡ c ∷ []
        → IsUnpriced prices c
        → purchase_and_mint p info s ≡ (err (denom_not_allowed c.denom), s)
    unfolding purchase_and_mint view
    refused_denom c hf hu = simp (hf, hp, select_unpriced prices c hu)

    -- A coin whose amount is not that of the first price in its denom is refused.
    pub refused_amount :
        (c price : Coin)
        → info.funds ≡ c ∷ []
        → FirstPrice prices price
        → price.denom ≡ c.denom
        → c.amount ≢ price.amount
        → purchase_and_mint p info s ≡ (err (wrong_amount p price c), s)
    unfolding purchase_and_mint view
    refused_amount c price hf hfirst hd ha =
        simp (hf, hp, select_first prices c price hd hfirst, !=_ne _ _ ha)

    paid_first :
        {r : Response} (c : Coin)
        → info.funds ≡ c ∷ []
        → (purchase_and_mint p info s).0 ≡ ok r
        → FirstPrice prices c
    unfolding purchase_and_mint view
    paid_first c hf h = elim (Option-cases (selected_coin_price prices c)) [
      | inl unpriced ↦ absurd (ground arith)
      | inr (price, e) ↦
          let (hd, first) = select-FirstPrice prices c price e in
          FirstPrice-of_eq prices hd (ground arith) first
    ]

    pub purchase_demands :
        {r : Response}
        → (purchase_and_mint p info s).0 ≡ ok r
        → (c : Coin) × (info.funds ≡ c ∷ []) × FirstPrice prices c
    unfolding purchase_and_mint view
    purchase_demands h = elim (one_coin info.funds) [
      | inl many ↦ cc
      | inr (c, hf) ↦ (c, hf, paid_first c hf h)
    ]
