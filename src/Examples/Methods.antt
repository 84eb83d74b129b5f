-- ===== src/Examples/Methods.antt =====
-- Examples for the methods of the keeper: a state with an auction of each type.
use fundraising.Examples.World.{fixed_point, no_hooks, numbered_accounts, plain_coins, simple_bank}
use fundraising.Keeper.Action.{◌>>=◌}
use fundraising.Keeper.Auctions.{cancel_auction, cancelled_auction}
use fundraising.Keeper.Auctions.Cancel.{cancel_auction_lem}
use fundraising.Keeper.Bids.{place_by_type, total_bid_amount, validate_fixed_price_bid}
use fundraising.Keeper.Bids.Difference.{reserve_difference_many, reserve_difference_worth}
use fundraising.Keeper.Bids.Modify.{modify_bid, raise_bid, reserve_decimal, reserve_difference}
use fundraising.Keeper.Bids.Place.{place_fixed_price_lem}
use fundraising.Keeper.Bids.Raise.{modify_bid_lem}
use fundraising.Keeper.Execution.{begin_blocker}
use fundraising.Keeper.Execution.Lifecycle.{Evolves, begin_blocker-Evolves, begin_blocker_adds_none}
use fundraising.Keeper.Fees.{reserve_paying_coin, send_coins}
use fundraising.Keeper.Inversion.{Moves}
use fundraising.Keeper.Matching.{calculate_fixed_price_allocation}
use fundraising.Keeper.Matching.FixedPrice.{
  calculate_fixed_price_allocation_total, total_allocated, total_selling,
}
use fundraising.Keeper.State.{State}
use fundraising.Keeper.Tables.{
  get_allowed_bidder, get_auction, get_bid, get_bids_by_auction_id, get_bids_by_bidder,
  index_auctions, index_bids, set_bid,
}
use fundraising.Keeper.Vesting.{split_queues}
use fundraising.Keeper.Vesting.Split.{QueuesFor, split_queues_total, total_queued}
use fundraising.Prelude.{
  List, [], arith, false, length, none, refl, some, true, ℕ, ◌*◌, ◌+◌, ◌/◌, ◌∷◌, ◌≡◌, ◌≤◌,
}
use fundraising.Prelude.Store.{lookup}
use fundraising.Sdk.{Amount, Coin, new_coin}
use fundraising.Sdk.Decimals.{one}
use fundraising.Sdk.Outcome.{ok}
use fundraising.Types.{
  AllowedBidder, Auction, AuctionStatus, AuctionType, BaseAuction, Bid, BidType, Kind,
  MsgCancelAuction, MsgModifyBid, VestingQueue, batch_auction, fixed_price_auction,
}
use fundraising.Types.Auctions.{paying_reserve_address}
use fundraising.Types.Bids.{convert_to_paying_amount, convert_to_selling_amount, set_matched}

abbrev pub base_of : ℕ → AuctionType → AuctionStatus → BaseAuction
base_of id typ status = record {
  id = id;
  typ = typ;
  auctioneer = 5;
  selling_reserve_address = 1000 + 3 * id;
  paying_reserve_address = 1001 + 3 * id;
  start_price = one;
  selling_coin = new_coin 1 100;
  paying_coin_denom = 2;
  vesting_reserve_address = 1002 + 3 * id;
  vesting_schedules =
      record { release_time = 50; weight = one / 4 }
      ∷ record { release_time = 60; weight = one / 4 * 3 }
      ∷ [];
  start_time = 10;
  end_times = 40 ∷ [];
  status = status;
}

-- 100 coins at a fixed price, started.
abbrev pub fixed_sale : Auction
fixed_sale = record {
  base = base_of 1 AuctionType.fixed_price AuctionStatus.started;
  kind = fixed_price_auction (new_coin 1 100);
}

abbrev batch_kind : Kind
batch_kind = batch_auction (record {
  min_bid_price = one;
  matched_price = 0;
  max_extended_round = 1;
  extended_round_rate = one / 5;
})

abbrev pub batch_sale : Auction
batch_sale = record { base = base_of 2 AuctionType.batch AuctionStatus.started; kind = batch_kind }

abbrev pub idle_sale : Auction
idle_sale = record { base = base_of 3 AuctionType.batch AuctionStatus.stand_by; kind = batch_kind }

-- 30 coins at the price 2, by the bidder 11.
abbrev pub many_bid : Bid
many_bid = record {
  auction_id = 2;
  bidder = 11;
  id = 1;
  typ = BidType.batch_many;
  price = 2 * one;
  coin = new_coin 1 30;
  is_matched = false;
}

abbrev allowed_11 : AllowedBidder
allowed_11 = record { bidder = 11; max_bid_amount = 60 }

abbrev pub market : State
market = record {
  params = record { auction_creation_fee = []; place_bid_fee = []; extended_period = 1 };
  last_auction_id = 3;
  last_bid_ids = (2, 1) ∷ [];
  auctions = (1, fixed_sale) ∷ (2, batch_sale) ∷ (3, idle_sale) ∷ [];
  allowed_bidders = (1, (11, allowed_11) ∷ []) ∷ (2, (11, allowed_11) ∷ []) ∷ [];
  bids = (2, (1, many_bid) ∷ []) ∷ [];
  bid_index = (11, (2, (1, tt) ∷ []) ∷ []) ∷ [];
  matched_bids_lens = [];
  vesting_queues = [];
  bank = λ x d. 1000;
}

abbrev fixed_bid : Bid
fixed_bid = record {
  auction_id = 1;
  bidder = 11;
  id = 1;
  typ = BidType.fixed_price;
  price = one;
  coin = new_coin 2 40;
  is_matched = false;
}

abbrev raise : MsgModifyBid
raise = record { auction_id = 2; bidder = 11; bid_id = 1; price = 3 * one; coin = new_coin 1 30 }

split_queues_total_example :
    (qs : List VestingQueue) × (split_queues fixed_sale 101 fixed_sale.vesting_schedules 101
      ≡ ok qs)
    × (total_queued qs ≡ 101)
    × QueuesFor fixed_sale fixed_sale.vesting_schedules qs
split_queues_total_example =
    split_queues_total fixed_sale 101 fixed_sale.vesting_schedules (cc) refl

-- The states after a sale at the fixed price, a raised bid, a cancelled auction, and a block.
abbrev after_sale : State
after_sale = (place_by_type fixed_sale fixed_bid BidType.fixed_price market).1

abbrev after_raise : State
after_raise = (modify_bid raise market).1

abbrev cancel : MsgCancelAuction
cancel = record { auctioneer = 5; auction_id = 3 }

abbrev after_cancel : State
after_cancel = (cancel_auction cancel market).1

place_fixed_price_lem_example :
    (allowed : AllowedBidder) × (remaining : Coin) × (left : Coin) × (one ≡ one)
    × (get_allowed_bidder 1 11 market ≡ some allowed)
    × (total_bid_amount 1 2 (get_bids_by_bidder 11 market) + convert_to_selling_amount 2 fixed_bid
        ≤ allowed.max_bid_amount)
    × (fixed_sale.kind ≡ fixed_price_auction remaining)
    × (left.amount + convert_to_selling_amount 2 fixed_bid ≡ remaining.amount)
    × (get_auction 1 after_sale ≡ some (record fixed_sale { kind = fixed_price_auction left }))
    × Moves 11
        (paying_reserve_address 1)
        (new_coin 2 (convert_to_paying_amount 2 fixed_bid))
        market
        after_sale
    × (set_matched true fixed_bid ≡ set_matched true fixed_bid)
unfolding place_by_type ◌>>=◌ validate_fixed_price_bid get_bids_by_bidder index_auctions index_bids
    get_bid total_bid_amount get_allowed_bidder lookup reserve_paying_coin send_coins
    convert_to_selling_amount convert_to_paying_amount fixed_point simple_bank plain_coins
    numbered_accounts
place_fixed_price_lem_example =
    place_fixed_price_lem fixed_sale fixed_bid (set_matched true fixed_bid) market after_sale refl

modify_bid_lem_example :
    (a : Auction) × (b : Bid) × (get_auction 2 market ≡ some a)
    × (a.status ≡ AuctionStatus.started)
    × (get_bid 2 1 market ≡ some b)
    × (b.bidder ≡ 11)
    × (b.coin.denom ≡ 1)
    × (b.price ≤ 3 * one)
    × (b.coin.amount ≤ 30)
    × ¬ ((3 * one ≡ b.price) × (30 ≡ b.coin.amount))
    × (get_bid b.auction_id b.id after_raise ≡ some (raise_bid b raise))
unfolding modify_bid ◌>>=◌ get_auction get_bid lookup reserve_difference reserve_decimal
    reserve_paying_coin send_coins fixed_point simple_bank plain_coins numbered_accounts
modify_bid_lem_example = modify_bid_lem raise market after_raise refl

cancel_auction_lem_example :
    (a : Auction) × (get_auction 3 market ≡ some a)
    × (a.auctioneer ≡ 5)
    × (a.status ≡ AuctionStatus.stand_by)
    × (a' : Auction) × (get_auction a.id after_cancel ≡ some a')
    × (a'.status ≡ AuctionStatus.cancelled)
    × (let reserve = a.selling_reserve_address in
        let denom = a.selling_coin.denom in
        Moves reserve a.auctioneer (new_coin denom (market.bank reserve denom)) market after_cancel)
unfolding cancel_auction ◌>>=◌ get_auction lookup cancelled_auction send_coins simple_bank
cancel_auction_lem_example = cancel_auction_lem cancel market after_cancel no_hooks refl

begin_blocker-Evolves_example :
    (b : Auction) × (get_auction 3 (begin_blocker 20 market).1 ≡ some b) × Evolves idle_sale b
unfolding get_auction lookup
begin_blocker-Evolves_example =
    begin_blocker-Evolves no_hooks 20 market (omega arith) (refl, (refl, (refl, tt))) 3 idle_sale
      refl

begin_blocker_adds_none_example : get_auction 4 (begin_blocker 20 market).1 ≡ none
unfolding get_auction lookup
begin_blocker_adds_none_example =
    begin_blocker_adds_none no_hooks 20 market (omega arith) (refl, (refl, (refl, tt))) 4 refl

reserve_difference_many_example :
    (diff : Amount) × (diff + convert_to_paying_amount 2 many_bid
      ≡ convert_to_paying_amount 2 (raise_bid many_bid raise))
    × Moves 11
        (paying_reserve_address 2)
        (new_coin 2 diff)
        market
        (reserve_difference batch_sale many_bid raise BidType.batch_many market).1
unfolding reserve_difference ◌>>=◌ reserve_decimal reserve_paying_coin send_coins fixed_point
    simple_bank plain_coins numbered_accounts
reserve_difference_many_example =
    reserve_difference_many batch_sale many_bid raise market
      (reserve_difference batch_sale many_bid raise BidType.batch_many market).1 refl (omega arith)
      refl

abbrev worth_bid : Bid
worth_bid = record many_bid { typ = BidType.batch_worth; coin = new_coin 2 30 }

abbrev raise_worth : MsgModifyBid
raise_worth = record raise { coin = new_coin 2 50 }

reserve_difference_worth_example :
    (diff : Amount) × (diff + convert_to_paying_amount 2 worth_bid
      ≡ convert_to_paying_amount 2 (raise_bid worth_bid raise_worth))
    × Moves 11
        (paying_reserve_address 2)
        (new_coin 2 diff)
        market
        (reserve_difference batch_sale worth_bid raise_worth BidType.batch_worth market).1
unfolding reserve_difference ◌>>=◌ reserve_paying_coin send_coins simple_bank plain_coins
    numbered_accounts
reserve_difference_worth_example =
    reserve_difference_worth batch_sale worth_bid raise_worth market
      (reserve_difference batch_sale worth_bid raise_worth BidType.batch_worth market).1 refl refl

abbrev sold_one : State
sold_one = set_bid (set_matched true fixed_bid) after_sale

calculate_fixed_price_allocation_total_example :
    let info = calculate_fixed_price_allocation fixed_sale sold_one in
    let bids = get_bids_by_auction_id 1 sold_one in
    (total_allocated info.allocation_map ≡ total_selling 2 bids)
    × (info.total_matched_amount ≡ total_selling 2 bids)
    × (info.matched_len ≡ length bids)
calculate_fixed_price_allocation_total_example =
    calculate_fixed_price_allocation_total fixed_sale sold_one
