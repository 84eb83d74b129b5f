-- ===== src/Types/Auctions.antt =====
-- x/fundraising/types/auction.go, and `DeriveAddress` of utils.go: reserve accounts, constructors,
-- and the checks of an auction.
use fundraising.Prelude.{Bool, List, Option, [], ltb, none, not, some, ℕ, ◌==◌, ◌∷◌}
use fundraising.Sdk.{Address, Coin, Denom, Time}
use fundraising.Sdk.Accounts.{
  Accounts, ReservePrefix, paying_reserve, selling_reserve, vesting_reserve,
}
use fundraising.Sdk.Decimals.{Decimal}
use fundraising.Sdk.Outcome.{
  Result, fail_if, invalid_address, invalid_auction_type, invalid_coins, invalid_request, panic,
  ◌>>◌,
}
use fundraising.Types.{
  Auction, AuctionStatus, AuctionType, BaseAuction, VestingSchedule, batch_auction,
  fixed_price_auction, type_eq,
}
use fundraising.Types.Vesting.{validate_vesting_schedules}

pub data AddressType : Type 0 where
  bytes_32 bytes_20 unknown_length : AddressType

abbrev pub reserve_address_type : AddressType
reserve_address_type = bytes_32

abbrev pub empty_address : Address
empty_address = 0

unfoldable pub set_status : AuctionStatus → Auction → Auction
set_status status a = record a { base = record a.base { status = status } }

unfoldable pub set_end_times : List Time → Auction → Auction
set_end_times ts a = record a { base = record a.base { end_times = ts } }

unfoldable pub new_base_auction :
    ℕ
    → AuctionType
    → Address
    → Address
    → Address
    → Decimal
    → Coin
    → Denom
    → Address
    → List VestingSchedule
    → Time
    → List Time
    → AuctionStatus
    → BaseAuction
new_base_auction id typ auctioneer selling paying start_price coin denom vesting schedules start
      ends status =
    record {
      id = id;
      typ = typ;
      auctioneer = auctioneer;
      selling_reserve_address = selling;
      paying_reserve_address = paying;
      start_price = start_price;
      selling_coin = coin;
      paying_coin_denom = denom;
      vesting_reserve_address = vesting;
      vesting_schedules = schedules;
      start_time = start;
      end_times = ends;
      status = status;
    }

unfoldable pub new_fixed_price_auction : BaseAuction → Coin → Auction
new_fixed_price_auction b remaining = record { base = b; kind = fixed_price_auction remaining }

unfoldable pub new_batch_auction : BaseAuction → Decimal → Decimal → ℕ → Decimal → Auction
new_batch_auction b min_bid_price matched_price max_extended_round extended_round_rate = record {
  base = b;
  kind = batch_auction (record {
    min_bid_price = min_bid_price;
    matched_price = matched_price;
    max_extended_round = max_extended_round;
    extended_round_rate = extended_round_rate;
  });
}

unfoldable pub should_auction_started : Time → Auction → Bool
should_auction_started t a = not (ltb t a.start_time)

-- `ts[len(ts)-1]`, where an empty slice makes the index panic.
unfoldable pub last_time : List Time → Option Time
last_time [] = none
last_time (t ∷ []) = some t
last_time (t ∷ u ∷ ts) = last_time (u ∷ ts)

-- `ShouldAuctionClosed`; `none` is the panic.
unfoldable pub should_auction_closed : Time → Auction → Option Bool
unfolding last_time
should_auction_closed t a = elim (last_time a.end_times) [
  | none ↦ none
  | some e ↦ some (not (ltb t e))
]

module _ ⦃acc : Accounts⦄ where
  open acc use {validate_coin, valid_address, valid_denom, address_module, address_hash}

  unfoldable pub derive_address : AddressType → ReservePrefix → ℕ → Address
  derive_address bytes_32 prefix id = address_module prefix id
  derive_address bytes_20 prefix id = address_hash prefix id
  derive_address unknown_length prefix id = empty_address

  unfoldable pub selling_reserve_address : ℕ → Address
  unfolding derive_address
  selling_reserve_address id = derive_address reserve_address_type selling_reserve id

  unfoldable pub paying_reserve_address : ℕ → Address
  unfolding derive_address
  paying_reserve_address id = derive_address reserve_address_type paying_reserve id

  unfoldable pub vesting_reserve_address : ℕ → Address
  unfolding derive_address
  vesting_reserve_address id = derive_address reserve_address_type vesting_reserve id

  -- `BaseAuction.Validate`
  unfoldable pub validate_auction : BaseAuction → Result (Unit {0})
  validate_auction a = do
    fail_if (type_eq a.typ AuctionType.nil) invalid_auction_type
    fail_if (not (valid_address a.auctioneer)) invalid_address
    fail_if (not (valid_address a.selling_reserve_address)) invalid_address
    fail_if (not (valid_address a.paying_reserve_address)) invalid_address
    fail_if (not (valid_address a.vesting_reserve_address)) invalid_address
    fail_if (a.start_price == 0) invalid_request
    fail_if (not (validate_coin a.selling_coin)) invalid_coins
    fail_if (a.selling_coin.denom == a.paying_coin_denom) invalid_request
    fail_if (not (valid_denom a.paying_coin_denom)) invalid_request
    elim (last_time a.end_times) [
      | none ↦ panic
      | some end_time ↦ validate_vesting_schedules a.vesting_schedules end_time
    ]
