-- ===== src/Keeper/Bids/Modify.antt =====
-- x/fundraising/keeper/bid.go: modifying a bid.
use fundraising.Keeper.Action.{
  Action, found_or, gets, lift, modify, pure, return_if, throw, ◌>>=◌, ◌>>◌,
}
use fundraising.Keeper.Bids.{as_batch}
use fundraising.Keeper.Env.{Env, call_hooks}
use fundraising.Keeper.Fees.{reserve_paying_coin}
use fundraising.Keeper.State.{before_bid_modified}
use fundraising.Keeper.Tables.{get_auction, get_bid, set_bid}
use fundraising.Prelude.{if◌then◌else◌, ltb, not, ◌&&◌, ◌-◌, ◌==◌, ◌||◌}
use fundraising.Sdk.{Amount, new_coin}
use fundraising.Sdk.Accounts.{Accounts}
use fundraising.Sdk.Coins.{Coins}
use fundraising.Sdk.Decimals.{Decimal, Decimals}
use fundraising.Sdk.Outcome.{
  incorrect_auction_type, incorrect_coin_denom, insufficient_min_bid_price, invalid_auction_status,
  invalid_request, not_found, unauthorized,
}
use fundraising.Types.{
  Auction, AuctionStatus, AuctionType, Bid, BidType, MsgModifyBid, status_eq, type_eq,
}

abbrev pub raise_bid : Bid → MsgModifyBid → Bid
raise_bid b msg = record b { price = msg.price; coin = msg.coin }

module _ ⦃dec : Decimals⦄ where
  open dec use {new_dec_from_int, mul, ceil}

  -- The ceiling of amount * price, as a decimal.
  unfoldable pub reserve_decimal : Amount → Decimal → Decimal
  reserve_decimal amt price = ceil (mul (new_dec_from_int amt) price)

module _ ⦃dec : Decimals⦄ ⦃coins : Coins⦄ ⦃acc : Accounts⦄ ⦃env : Env⦄ where
  open coins use {sub_coin}
  open dec use {truncate_int}

  -- The `switch` of `ModifyBid`: reserve the difference, if there is one.
  unfoldable pub reserve_difference : Auction → Bid → MsgModifyBid → BidType → Action (Unit {0})
  reserve_difference a b msg BidType.nil = pure tt
  reserve_difference a b msg BidType.fixed_price = pure tt
  reserve_difference a b msg BidType.batch_worth = do
    diff ← lift (sub_coin msg.coin b.coin)
    if ltb 0 diff.amount then reserve_paying_coin msg.auction_id msg.bidder diff else pure tt
  reserve_difference a b msg BidType.batch_many = do
    let prev = reserve_decimal b.coin.amount b.price
    let curr = reserve_decimal msg.coin.amount msg.price
    -- A negative difference makes `NewCoin` panic.
    if ltb curr prev then throw else pure tt
    let diff = new_coin a.paying_coin_denom (truncate_int (curr - prev))
    if ltb 0 diff.amount then reserve_paying_coin msg.auction_id msg.bidder diff else pure tt

  -- `ModifyBid`
  unfoldable pub modify_bid : MsgModifyBid → Action (Unit {0})
  modify_bid msg = do
    stored ← gets (get_auction msg.auction_id)
    a ← found_or stored not_found
    return_if (not (status_eq a.status AuctionStatus.started)) invalid_auction_status
    return_if (not (type_eq a.typ AuctionType.batch)) incorrect_auction_type
    placed ← gets (get_bid msg.auction_id msg.bid_id)
    b ← found_or placed not_found
    return_if (not (b.bidder == msg.bidder)) unauthorized
    f ← lift (as_batch a.kind)
    return_if (ltb msg.price f.min_bid_price) insufficient_min_bid_price
    return_if (not (b.coin.denom == msg.coin.denom)) incorrect_coin_denom
    return_if (ltb msg.price b.price || ltb msg.coin.amount b.coin.amount) invalid_request
    return_if (msg.price == b.price && msg.coin.amount == b.coin.amount) invalid_request
    reserve_difference a b msg b.typ
    let b' = raise_bid b msg
    modify (call_hooks (before_bid_modified b'.auction_id b'.id b'.bidder b'.typ b'.price b'.coin))
    modify (set_bid b')
