-- ===== src/Sdk/Decimals.antt =====
-- `sdk.Dec`: a fixed-point number with 18 decimals, as its number of 10^-18 units. The operations
-- are the SDK's; the laws are what its documentation says of them.
use native.Mathlib.Nat.{div-mul-le_self, lt-div-mul-add, mul-le-mul_right}
use fundraising.Prelude.{ℕ, ◌+◌, ◌-◌, ◌*◌, ◌/◌, ◌≤◌, ◌<◌, ◌≡◌, refl, arith}

abbrev pub Decimal : Type 0
Decimal = ℕ

-- `sdk.OneDec()`
abbrev pub one : Decimal
one = 1000000000000000000

pub record Decimals : Type 0 where
  pub new_dec_from_int : ℕ → Decimal
  pub quo_truncate : Decimal → Decimal → Decimal
  pub quo : Decimal → Decimal → Decimal
  pub mul : Decimal → Decimal → Decimal
  pub mul_truncate : Decimal → Decimal → Decimal
  pub mul_int : Decimal → ℕ → Decimal
  pub ceil : Decimal → Decimal
  pub truncate_int : Decimal → ℕ
  pub new_dec_from_int_units : (a : ℕ) → new_dec_from_int a ≡ a * one
  pub quo_truncate_floor : (d e : Decimal) → 0 < e → quo_truncate d e ≡ d * one / e
  -- A product with a whole number needs no rounding.
  pub mul_whole : (a : ℕ) (e : Decimal) → mul (a * one) e ≡ a * e
  pub mul_truncate_floor : (d e : Decimal) → mul_truncate d e ≡ d * e / one
  pub mul_int_exact : (d : Decimal) (a : ℕ) → mul_int d a ≡ d * a
  pub ceil_up : (d : Decimal) → ceil d ≡ (d + (one - 1)) / one * one
  pub truncate_int_down : (d : Decimal) → truncate_int d ≡ d / one

-- Whole coins of a quotient, from the two divisions that compute it.
floor_bounds :
    (q x p y z : ℕ)
    → y ≡ z * one
    → q * p ≤ y
    → y < q * p + p
    → x * one ≤ q
    → q + 1 ≤ (x + 1) * one
    → (x * p ≤ z) × (z < (x + 1) * p)
floor_bounds q x p y z e lo hi l r =
    let below : x * one * p ≤ q * p = mul-le-mul_right p l in
    let above : (q + 1) * p ≤ (x + 1) * one * p = mul-le-mul_right p r in omega arith

floor_floor :
    (y p z : ℕ) → 0 < p → y ≡ z * one → (y / p / one * p ≤ z) × (z < (y / p / one + 1) * p)
floor_floor y p z h e =
    floor_bounds (y / p) (y / p / one) p y z e (div-mul-le_self y p) (lt-div-mul-add h)
      (omega arith) (omega arith)

module _ ⦃dec : Decimals⦄ where
  open dec use {
    new_dec_from_int, quo_truncate, mul, mul_truncate, mul_int, ceil, truncate_int,
    new_dec_from_int_units, quo_truncate_floor, mul_whole, mul_truncate_floor, mul_int_exact,
    ceil_up, truncate_int_down,
  }

  -- Amount / price, rounded down to whole coins: the largest amount whose price is paid.
  pub floor_quo_bounds :
      (a : ℕ) (p : Decimal)
      → 0 < p
      → let x = truncate_int (quo_truncate (new_dec_from_int a) p) in
        (x * p ≤ a * one) × (a * one < (x + 1) * p)
  floor_quo_bounds a p h =
      rw (truncate_int_down, new_dec_from_int_units, quo_truncate_floor _ _ h)
        (floor_floor (a * one * one) p (a * one) h refl)

  -- Amount * price, rounded up to whole coins: the least amount that pays the price.
  pub ceil_mul :
      (a : ℕ) (p : Decimal)
      → truncate_int (ceil (mul (new_dec_from_int a) p)) ≡ (a * p + (one - 1)) / one
  ceil_mul a p = rw (truncate_int_down, ceil_up, new_dec_from_int_units, mul_whole) (omega arith)

  pub ceil_mul_int :
      (a : ℕ) (p : Decimal) → truncate_int (ceil (mul_int p a)) ≡ (a * p + (one - 1)) / one
  ceil_mul_int a p = rw (truncate_int_down, ceil_up, mul_int_exact) (omega arith)

  pub floor_mul :
      (a : ℕ) (w : Decimal) → truncate_int (mul_truncate (new_dec_from_int a) w) ≡ a * w / one
  floor_mul a w = rw (truncate_int_down, mul_truncate_floor, new_dec_from_int_units) (omega arith)
