-- ===== src/Sdk/Coins.antt =====
-- `sdk.Coin`: the operations on two coins that the module calls. The code is the SDK's; the laws are
-- what its documentation says of them: an operation on two coins panics where their denominations
-- differ, and a subtraction panics below zero.
use native.Mathlib.Decide.{dec_le, ℕ_discrete}
use fundraising.Prelude.{Bool, ap, arith, false, ltb, ◌+◌, ◌-◌, ◌<◌, ◌∙◌, ◌≡◌, ◌≢◌, ◌≤◌}
use fundraising.Sdk.{Coin, new_coin}
use fundraising.Sdk.Outcome.{Result, ok, panic}
use mathlib.Core.Path.{sym}

pub record Coins : Type 0 where
  pub is_lt : Coin → Coin → Result Bool
  pub sub_coin : Coin → Coin → Result Coin
  pub is_lt_amount : (c d : Coin) → c.denom ≡ d.denom → is_lt c d ≡ ok (ltb c.amount d.amount)
  pub is_lt_other : (c d : Coin) → c.denom ≢ d.denom → is_lt c d ≡ panic
  pub sub_coin_amount :
      (c d : Coin)
      → c.denom ≡ d.denom
      → d.amount ≤ c.amount
      → sub_coin c d ≡ ok (new_coin c.denom (c.amount - d.amount))
  pub sub_coin_below : (c d : Coin) → c.amount < d.amount → sub_coin c d ≡ panic
  pub sub_coin_other : (c d : Coin) → c.denom ≢ d.denom → sub_coin c d ≡ panic

panic_not_ok : {A : Type 0} {r : Result A} {x : A} → r ≡ panic → r ≡ ok x → ⊥
panic_not_ok p q = cc

pub ok-inj : {A : Type 0} {x y : A} → ok x ≡ ok y → x ≡ y
ok-inj h = cc

module _ ⦃coins : Coins⦄ where
  -- A subtraction that succeeds.
  pub sub_coin-ok :
      (c d e : Coin)
      → coins.sub_coin c d ≡ ok e
      → (c.denom ≡ d.denom) × (e.denom ≡ c.denom) × (e.amount + d.amount ≡ c.amount)
  sub_coin-ok c d e h = elim (ℕ_discrete c.denom d.denom) [
    | no other ↦ absurd (panic_not_ok (coins.sub_coin_other c d other) h)
    | yes same ↦ elim (dec_le d.amount c.amount) [
      | no below ↦ absurd (panic_not_ok (coins.sub_coin_below c d (omega arith)) h)
      | yes covered ↦
          let e' = ok-inj (sym (coins.sub_coin_amount c d same covered) ∙ h) in
          (same, sym (ap (λ x. x.denom) e'), omega (arith, ap (λ x. x.amount) e'))
    ]
  ]

  pub is_lt-ok : (c d : Coin) → coins.is_lt c d ≡ ok false → d.amount ≤ c.amount
  is_lt-ok c d h = elim (ℕ_discrete c.denom d.denom) [
    | no other ↦ absurd (panic_not_ok (coins.is_lt_other c d other) h)
    | yes same ↦ let e = ok-inj (sym (coins.is_lt_amount c d same) ∙ h) in ground arith
  ]
