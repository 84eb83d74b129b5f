-- ===== src/Sdk/Outcome.antt =====
-- The outcome of a call: a value, an `error`, or a panic.
use fundraising.Prelude.{Bool, Option, false, if◌then◌else◌, none, refl, some, true, ◌≡◌}

-- The errors that the module returns: the sentinels of types/errors.go, those of `sdkerrors` that it
-- wraps, and `bank` for an error of the bank or distribution keeper.
pub data Error : Type 0 where
  invalid_auction_type invalid_start_price invalid_vesting_schedules invalid_auction_status : Error
  invalid_max_bid_amount incorrect_auction_type incorrect_coin_denom empty_allowed_bidders : Error
  not_allowed_bidder over_max_bid_amount_limit insufficient_remaining_amount : Error
  insufficient_min_bid_price : Error
  invalid_address invalid_request invalid_coins not_found unauthorized bank : Error

pub data Result {ℓ} (A : Type ℓ) : Type ℓ where
  ok : A → Result A
  err : Error → Result A
  panic : Result A

-- For code that changes no state: a call, and what follows it unless it failed.
module _ {ℓ κ} {A : Type ℓ} {B : Type κ} where
  infixl 5 ◌>>=◌
  abbrev pub ◌>>=◌ : Result A → (A → Result B) → Result B
  panic >>= next = panic
  err e >>= next = err e
  ok a >>= next = next a

infixl 5 ◌>>◌
abbrev pub ◌>>◌ {κ} : {B : Type κ} → Result (Unit {0}) → Result B → Result B
check >> next = check >>= λ _. next

-- `if b { return e }`
abbrev pub fail_if : Bool → Error → Result (Unit {0})
fail_if b e = if b then err e else ok tt

-- A loop that may stop early with nothing, `return nil, false`.
abbrev pub and_then {ℓ κ} :
    {A : Type ℓ} {B : Type κ} → Result (Option A) → (A → Result (Option B)) → Result (Option B)
and_then (ok (some a)) f = f a
and_then (ok none) f = ok none
and_then (err e) f = err e
and_then panic f = panic

pub and_then-some {ℓ κ} :
    {A : Type ℓ} {B : Type κ} (m : Result (Option A)) (f : A → Result (Option B)) {b : B}
    → and_then m f ≡ ok (some b)
    → (a : A) × (m ≡ ok (some a)) × (f a ≡ ok (some b))
and_then-some (ok (some a)) f h = (a, refl, h)
and_then-some (ok none) f h = cc
and_then-some (err e) f h = cc
and_then-some panic f h = cc

-- A check that was passed, and what comes after it.
pub fail_if-passed {κ} :
    {B : Type κ} (b : Bool) (e : Error) (next : Result B) {y : B}
    → (fail_if b e >> next) ≡ ok y
    → (b ≡ false) × (next ≡ ok y)
fail_if-passed true e next h = cc
fail_if-passed false e next h = (refl, h)
