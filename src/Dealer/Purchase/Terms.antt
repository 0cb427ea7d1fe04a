-- ===== src/Dealer/Purchase/Terms.antt =====
-- What a purchase demands, told apart from the code: the first price listed in a denom.
use snip721_migratable.Base.{◌≡◌, ◌≢◌, ◌⊎◌, refl, none, some, List, [], ◌∷◌, arith, eq_iff}
use snip721_migratable.Cosmwasm.{Coin}
use snip721_migratable.Dealer.Purchase.{selected_coin_price}
use snip721_migratable.Platform.Laws.{All}

-- `price` is listed, and no price of the same denom is listed before it.
abbrev pub FirstPrice : List Coin → Coin → Type 0
FirstPrice [] price = ⊥
FirstPrice (c ∷ prices) price = (c ≡ price) ⊎ ((c.denom ≢ price.denom) × FirstPrice prices price)

-- No price is listed in the denom of `coin`.
abbrev pub IsUnpriced : List Coin → Coin → Type 0
IsUnpriced prices coin = All (λ (c : Coin). c.denom ≢ coin.denom) prices

pub select-FirstPrice :
    (prices : List Coin) (coin price : Coin)
    → selected_coin_price prices coin ≡ some price
    → (price.denom ≡ coin.denom) × FirstPrice prices price
select-FirstPrice [] coin price h = cc
select-FirstPrice (c ∷ prices) coin price h =
    ground (arith, eq_iff c.denom coin.denom, select-FirstPrice prices coin price)

pub select_first :
    (prices : List Coin) (coin price : Coin)
    → price.denom ≡ coin.denom
    → FirstPrice prices price
    → selected_coin_price prices coin ≡ some price
select_first [] coin price e h = absurd h
select_first (c ∷ prices) coin price e h =
    ground (arith, eq_iff c.denom coin.denom, select_first prices coin price)

pub select_unpriced :
    (prices : List Coin) (coin : Coin)
    → IsUnpriced prices coin
    → selected_coin_price prices coin ≡ none
select_unpriced [] coin h = refl
select_unpriced (c ∷ prices) coin h =
    ground (arith, eq_iff c.denom coin.denom, select_unpriced prices coin h.1)

pub select-IsUnpriced :
    (prices : List Coin) (coin : Coin)
    → selected_coin_price prices coin ≡ none
    → IsUnpriced prices coin
select-IsUnpriced [] coin h = tt
select-IsUnpriced (c ∷ prices) coin h =
    ground (arith, eq_iff c.denom coin.denom, select-IsUnpriced prices coin)
