-- ===== src/Keeper/Bids.antt =====
-- x/fundraising/keeper/bid.go: placing and modifying a bid.
pub mod Modify
pub mod Consistent
pub mod Stored
pub mod ByBidder
pub mod Steps
pub mod Numbered
pub mod Untouched
pub mod Blocks
pub mod Place
pub mod PlaceBatch
pub mod Raise
pub mod Difference
use fundraising.Keeper.Action.{Action, found_or, gets, lift, modify, pure, return_if, ◌>>=◌, ◌>>◌}
use fundraising.Keeper.Env.{Env, call_hooks}
use fundraising.Keeper.Fees.{pay_place_bid_fee, reserve_paying_coin}
use fundraising.Keeper.State.{before_bid_placed}
use fundraising.Keeper.Tables.{
  get_allowed_bidder, get_auction, get_bids_by_bidder, get_next_bid_id_with_update, set_auction,
  set_bid,
}
use fundraising.Prelude.{List, [], false, if◌then◌else◌, ltb, not, true, ℕ, ◌&&◌, ◌+◌, ◌==◌, ◌∷◌}
use fundraising.Sdk.{Amount, Coin, Denom, new_coin}
use fundraising.Sdk.Accounts.{Accounts}
use fundraising.Sdk.Coins.{Coins}
use fundraising.Sdk.Decimals.{Decimal, Decimals}
use fundraising.Sdk.Outcome.{
  Result, incorrect_auction_type, incorrect_coin_denom, insufficient_min_bid_price,
  insufficient_remaining_amount, invalid_auction_status, invalid_start_price, not_allowed_bidder,
  not_found, ok, over_max_bid_amount_limit, panic,
}
use fundraising.Types.{
  Auction, AuctionStatus, AuctionType, BatchFields, Bid, BidType, Kind, MsgPlaceBid, batch_auction,
  fixed_price_auction, status_eq, type_eq,
}
use fundraising.Types.Bids.{convert_to_paying_amount, convert_to_selling_amount, set_matched}

-- The type assertions `auction.(*types.BatchAuction)` and `auction.(*types.FixedPriceAuction)`,
-- which panic on the other type.
abbrev pub as_batch : Kind → Result BatchFields
as_batch (batch_auction f) = ok f
as_batch (fixed_price_auction c) = panic

abbrev pub as_fixed_price : Kind → Result Coin
as_fixed_price (fixed_price_auction c) = ok c
as_fixed_price (batch_auction f) = panic

abbrev pub new_bid : MsgPlaceBid → ℕ → Bid
new_bid msg id = record {
  auction_id = msg.auction_id;
  bidder = msg.bidder;
  id = id;
  typ = msg.bid_type;
  price = msg.price;
  coin = msg.coin;
  is_matched = false;
}

module _ ⦃dec : Decimals⦄ where
  -- The loop of `ValidateFixedPriceBid` over the bids of the bidder.
  unfoldable pub total_bid_amount : ℕ → Denom → List Bid → Amount
  total_bid_amount auction_id denom [] = 0
  total_bid_amount auction_id denom (b ∷ bs) =
      (if b.auction_id == auction_id then convert_to_selling_amount denom b else 0)
      + total_bid_amount auction_id denom bs

module _ ⦃dec : Decimals⦄ ⦃coins : Coins⦄ where
  open coins use {is_lt}

  unfoldable pub validate_fixed_price_bid : Auction → Bid → Action (Unit {0})
  validate_fixed_price_bid a b = do
    return_if (not (type_eq a.typ AuctionType.fixed_price)) incorrect_auction_type
    return_if
        (not (b.coin.denom == a.paying_coin_denom) && not (b.coin.denom == a.selling_coin.denom))
        incorrect_coin_denom
    return_if (not (b.price == a.start_price)) invalid_start_price
    let bid_amt = convert_to_selling_amount a.paying_coin_denom b
    remaining ← lift (as_fixed_price a.kind)
    short ← lift (is_lt remaining (new_coin a.selling_coin.denom bid_amt))
    return_if short insufficient_remaining_amount
    bids ← gets (get_bids_by_bidder b.bidder)
    let total = total_bid_amount a.id a.paying_coin_denom bids
    listed ← gets (get_allowed_bidder b.auction_id b.bidder)
    allowed ← found_or listed not_found
    return_if (ltb allowed.max_bid_amount (total + bid_amt)) over_max_bid_amount_limit

module _ ⦃dec : Decimals⦄ where
  -- `ValidateBatchWorthBid` and `ValidateBatchManyBid`, which differ in the denomination.
  unfoldable pub validate_batch_bid : Denom → Auction → Bid → Action (Unit {0})
  validate_batch_bid denom a b = do
    return_if (not (type_eq a.typ AuctionType.batch)) incorrect_auction_type
    return_if (not (b.coin.denom == denom)) incorrect_coin_denom
    listed ← gets (get_allowed_bidder b.auction_id b.bidder)
    allowed ← found_or listed not_found
    return_if (ltb allowed.max_bid_amount (convert_to_selling_amount a.paying_coin_denom b))
        over_max_bid_amount_limit

  unfoldable pub validate_batch_worth_bid : Auction → Bid → Action (Unit {0})
  unfolding validate_batch_bid
  validate_batch_worth_bid a b = validate_batch_bid a.paying_coin_denom a b

  unfoldable pub validate_batch_many_bid : Auction → Bid → Action (Unit {0})
  unfolding validate_batch_bid
  validate_batch_many_bid a b = validate_batch_bid a.selling_coin.denom a b

module _ ⦃dec : Decimals⦄ ⦃coins : Coins⦄ ⦃acc : Accounts⦄ ⦃env : Env⦄ where
  open coins use {sub_coin}

  -- The `switch` of `PlaceBid`: check the bid, reserve what it pays, and, for a fixed price, take
  -- what it gets from the remaining coin. The result is the bid to store.
  unfoldable pub place_by_type : Auction → Bid → BidType → Action Bid
  place_by_type a b BidType.nil = pure b
  place_by_type a b BidType.fixed_price = do
    validate_fixed_price_bid a b
    remaining ← lift (as_fixed_price a.kind)
    let denom = a.paying_coin_denom
    reserve_paying_coin b.auction_id b.bidder (new_coin denom (convert_to_paying_amount denom b))
    left ←
        lift
          (sub_coin remaining (new_coin a.selling_coin.denom (convert_to_selling_amount denom b)))
    modify (set_auction (record a { kind = fixed_price_auction left }))
    pure (set_matched true b)
  place_by_type a b BidType.batch_worth = do
    validate_batch_worth_bid a b
    reserve_paying_coin b.auction_id b.bidder b.coin
    pure b
  place_by_type a b BidType.batch_many = do
    validate_batch_many_bid a b
    let denom = a.paying_coin_denom
    reserve_paying_coin b.auction_id b.bidder (new_coin denom (convert_to_paying_amount denom b))
    pure b

  -- The minimum price of a batch auction.
  unfoldable pub check_min_bid_price : Auction → Decimal → Action (Unit {0})
  check_min_bid_price a price =
      if type_eq a.typ AuctionType.batch
      then (lift (as_batch a.kind) >>= λ f.
          return_if (ltb price f.min_bid_price) insufficient_min_bid_price)
      else pure tt

  -- `PlaceBid`
  unfoldable pub place_bid : MsgPlaceBid → Action Bid
  place_bid msg = do
    stored ← gets (get_auction msg.auction_id)
    a ← found_or stored not_found
    return_if (not (status_eq a.status AuctionStatus.started)) invalid_auction_status
    check_min_bid_price a msg.price
    listed ← gets (get_allowed_bidder a.id msg.bidder)
    _ ← found_or listed not_allowed_bidder
    pay_place_bid_fee msg.bidder
    id ← get_next_bid_id_with_update a.id
    let b = new_bid msg id
    b' ← place_by_type a b b.typ
    modify (call_hooks (before_bid_placed b'.auction_id b'.id b'.bidder b'.typ b'.price b'.coin))
    modify (set_bid b')
    pure b'
