-- ===== src/Sdk.antt =====
-- What the module takes from the Cosmos SDK and the Go libraries: names and amounts, decimals, and
-- the outcome of a call. The SDK's code is not in the repository, so its operations are parameters.
pub mod Decimals
pub mod Outcome
pub mod Accounts
pub mod Coins
pub mod Encodings
pub mod Pages
use fundraising.Prelude.{ℕ, ◌*◌}

-- An account, by its bech32 text in canonical form; only equality, order and validity are read.
abbrev pub Address : Type 0
Address = ℕ

abbrev pub Denom : Type 0
Denom = ℕ

-- `time.Time` in UTC, as nanoseconds since year 1.
abbrev pub Time : Type 0
Time = ℕ

-- `sdk.Int`; no amount of the module is negative.
abbrev pub Amount : Type 0
Amount = ℕ

-- A day of `time.Time.AddDate` in UTC.
abbrev pub day : Time
day = 86400 * 1000000000

pub record Coin : Type 0 where
  pub denom : Denom
  pub amount : Amount

abbrev pub new_coin : Denom → Amount → Coin
new_coin d a = record { denom = d; amount = a }
