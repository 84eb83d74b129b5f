-- ===== src/Sdk/Accounts.antt =====
-- Addresses and denominations as the SDK reads them: its parsers, and the hashes that a module's own
-- accounts are derived by.
use fundraising.Prelude.{Bool, List, ℕ, ◌≡◌}
use fundraising.Sdk.{Address, Coin, Denom}

-- The name of a reserve account: one of the three prefixes of types/auction.go, and the auction id
-- behind the splitter.
pub data ReservePrefix : Type 0 where
  selling_reserve paying_reserve vesting_reserve : ReservePrefix

pub record Accounts : Type 0 where
  -- `AccAddressFromBech32` and `ValidateDenom` succeed.
  pub valid_address : Address → Bool
  pub valid_denom : Denom → Bool
  -- `Coin.Validate` and `Coins.Validate` succeed.
  pub validate_coin : Coin → Bool
  pub valid_coins : List Coin → Bool
  -- `address.Module` and `crypto.AddressHash`, of the module's name and this name.
  pub address_module : ReservePrefix → ℕ → Address
  pub address_hash : ReservePrefix → ℕ → Address
  -- The addresses are hashes: two names have two addresses.
  pub address_module_inj :
      (p q : ReservePrefix) (i j : ℕ) → address_module p i ≡ address_module q j → (p ≡ q) × (i ≡ j)
