-- ===== src/Types/Msgs.antt =====
-- x/fundraising/types/msgs.go: `ValidateBasic` of each message, the checks that need no state.
use fundraising.Prelude.{Bool, false, ltb, not, true, ◌==◌}
use fundraising.Sdk.Accounts.{Accounts}
use fundraising.Sdk.Outcome.{Result, fail_if, invalid_address, invalid_request, ◌>>◌}
use fundraising.Types.{
  BidType, MsgAddAllowedBidder, MsgCancelAuction, MsgCreateBatchAuction, MsgCreateFixedPriceAuction,
  MsgModifyBid, MsgPlaceBid,
}
use fundraising.Types.Vesting.{validate_vesting_schedules}

abbrev pub is_bid_type : BidType → Bool
is_bid_type BidType.nil = false
is_bid_type BidType.fixed_price = true
is_bid_type BidType.batch_worth = true
is_bid_type BidType.batch_many = true

module _ ⦃acc : Accounts⦄ where
  open acc use {validate_coin, valid_address, valid_denom}

  unfoldable pub validate_create_fixed_price_auction :
      MsgCreateFixedPriceAuction → Result (Unit {0})
  validate_create_fixed_price_auction msg = do
    fail_if (not (valid_address msg.auctioneer)) invalid_address
    fail_if (msg.start_price == 0) invalid_request
    fail_if (not (validate_coin msg.selling_coin)) invalid_request
    fail_if (msg.selling_coin.amount == 0) invalid_request
    fail_if (msg.selling_coin.denom == msg.paying_coin_denom) invalid_request
    fail_if (not (valid_denom msg.paying_coin_denom)) invalid_request
    fail_if (not (ltb msg.start_time msg.end_time)) invalid_request
    validate_vesting_schedules msg.vesting_schedules msg.end_time

  unfoldable pub validate_create_batch_auction : MsgCreateBatchAuction → Result (Unit {0})
  validate_create_batch_auction msg = do
    fail_if (not (valid_address msg.auctioneer)) invalid_address
    fail_if (msg.start_price == 0) invalid_request
    fail_if (msg.min_bid_price == 0) invalid_request
    fail_if (not (validate_coin msg.selling_coin)) invalid_request
    fail_if (msg.selling_coin.amount == 0) invalid_request
    fail_if (msg.selling_coin.denom == msg.paying_coin_denom) invalid_request
    fail_if (not (valid_denom msg.paying_coin_denom)) invalid_request
    fail_if (not (ltb msg.start_time msg.end_time)) invalid_request
    validate_vesting_schedules msg.vesting_schedules msg.end_time
    fail_if (msg.extended_round_rate == 0) invalid_request

  unfoldable pub validate_cancel_auction : MsgCancelAuction → Result (Unit {0})
  validate_cancel_auction msg = fail_if (not (valid_address msg.auctioneer)) invalid_address

  unfoldable pub validate_place_bid : MsgPlaceBid → Result (Unit {0})
  validate_place_bid msg = do
    fail_if (not (valid_address msg.bidder)) invalid_address
    fail_if (msg.price == 0) invalid_request
    fail_if (not (validate_coin msg.coin)) invalid_request
    fail_if (msg.coin.amount == 0) invalid_request
    fail_if (not (is_bid_type msg.bid_type)) invalid_request

  unfoldable pub validate_modify_bid : MsgModifyBid → Result (Unit {0})
  validate_modify_bid msg = do
    fail_if (not (valid_address msg.bidder)) invalid_address
    fail_if (msg.price == 0) invalid_request
    fail_if (not (validate_coin msg.coin)) invalid_request
    fail_if (msg.coin.amount == 0) invalid_request

  unfoldable pub validate_add_allowed_bidder : MsgAddAllowedBidder → Result (Unit {0})
  validate_add_allowed_bidder msg =
      fail_if (not (valid_address msg.allowed_bidder.bidder)) invalid_address
