-- ===== src/Types/Bids.antt =====
-- x/fundraising/types/bid.go and allowed_bidder.go: the conversions of a bid between the two coins,
-- and the check of an allowed bidder.
use fundraising.Prelude.{Bool, arith, if◌then◌else◌, not, ◌*◌, ◌+◌, ◌<◌, ◌==◌, ◌≤◌}
use fundraising.Sdk.{Address, Amount, Denom}
use fundraising.Sdk.Decimals.{Decimals, ceil_mul, floor_quo_bounds, one}
use fundraising.Sdk.Outcome.{Result, fail_if, invalid_address, invalid_max_bid_amount, ◌>>◌}
use fundraising.Types.{AllowedBidder, Bid}

unfoldable pub set_matched : Bool → Bid → Bid
set_matched status b = record b { is_matched = status }

module _ ⦃dec : Decimals⦄ where
  open dec use {new_dec_from_int, quo_truncate, mul, ceil, truncate_int}

  unfoldable pub convert_to_selling_amount : Denom → Bid → Amount
  convert_to_selling_amount denom b =
      if b.coin.denom == denom
      then truncate_int (quo_truncate (new_dec_from_int b.coin.amount) b.price)
      else b.coin.amount

  unfoldable pub convert_to_paying_amount : Denom → Bid → Amount
  convert_to_paying_amount denom b =
      if b.coin.denom == denom
      then b.coin.amount
      else truncate_int (ceil (mul (new_dec_from_int b.coin.amount) b.price))

  -- At a positive price, and in whichever coin the bid is stated, what the bidder pays covers the
  -- price of what the bidder gets, and exceeds it by less than the price of one selling coin (for a
  -- bid in the paying coin) or by less than one paying coin (for a bid in the selling coin).
  pub convert_amounts_cover :
      (denom : Denom) (b : Bid)
      → 0 < b.price
      → let pays = convert_to_paying_amount denom b in
        let gets = convert_to_selling_amount denom b in
        (gets * b.price ≤ pays * one)
        × (pays * one < gets * b.price + (if b.coin.denom == denom then b.price else one))
  unfolding convert_to_selling_amount convert_to_paying_amount
  convert_amounts_cover denom b h =
      ground (arith, floor_quo_bounds b.coin.amount b.price h, ceil_mul b.coin.amount b.price)

-- `AllowedBidder.Validate`; the parser of addresses is the SDK's.
unfoldable pub validate_allowed_bidder : (Address → Bool) → AllowedBidder → Result (Unit {0})
validate_allowed_bidder valid_address ab = do
  fail_if (not (valid_address ab.bidder)) invalid_address
  fail_if (ab.max_bid_amount == 0) invalid_max_bid_amount
