-- ===== src/Types/Signers.antt =====
-- x/fundraising/types/msgs.go: the constructors of the messages, and who signs them.
use fundraising.Prelude.{List, [], if◌then◌else◌, ℕ, ◌∷◌}
use fundraising.Sdk.{Address, Coin, Denom, Time}
use fundraising.Sdk.Accounts.{Accounts}
use fundraising.Sdk.Decimals.{Decimal}
use fundraising.Sdk.Outcome.{Result, ok, panic, ◌>>=◌}
use fundraising.Types.{
  AllowedBidder, BidType, MsgAddAllowedBidder, MsgCancelAuction, MsgCreateBatchAuction,
  MsgCreateFixedPriceAuction, MsgModifyBid, MsgPlaceBid, VestingSchedule,
}

abbrev pub new_msg_create_fixed_price_auction :
    Address
    → Decimal
    → Coin
    → Denom
    → List VestingSchedule
    → Time
    → Time
    → MsgCreateFixedPriceAuction
new_msg_create_fixed_price_auction auctioneer start_price selling_coin paying_coin_denom schedules
      start_time end_time =
    record {
      auctioneer = auctioneer;
      start_price = start_price;
      selling_coin = selling_coin;
      paying_coin_denom = paying_coin_denom;
      vesting_schedules = schedules;
      start_time = start_time;
      end_time = end_time;
    }

abbrev pub new_msg_create_batch_auction :
    Address
    → Decimal
    → Decimal
    → Coin
    → Denom
    → List VestingSchedule
    → ℕ
    → Decimal
    → Time
    → Time
    → MsgCreateBatchAuction
new_msg_create_batch_auction auctioneer start_price min_bid_price selling_coin paying_coin_denom
      schedules rounds rate start_time end_time =
    record {
      auctioneer = auctioneer;
      start_price = start_price;
      min_bid_price = min_bid_price;
      selling_coin = selling_coin;
      paying_coin_denom = paying_coin_denom;
      vesting_schedules = schedules;
      max_extended_round = rounds;
      extended_round_rate = rate;
      start_time = start_time;
      end_time = end_time;
    }

abbrev pub new_msg_cancel_auction : Address → ℕ → MsgCancelAuction
new_msg_cancel_auction auctioneer auction_id = record {
  auctioneer = auctioneer;
  auction_id = auction_id;
}

abbrev pub new_msg_place_bid : ℕ → Address → BidType → Decimal → Coin → MsgPlaceBid
new_msg_place_bid auction_id bidder bid_type price coin = record {
  auction_id = auction_id;
  bidder = bidder;
  bid_type = bid_type;
  price = price;
  coin = coin;
}

abbrev pub new_msg_modify_bid : ℕ → Address → ℕ → Decimal → Coin → MsgModifyBid
new_msg_modify_bid auction_id bidder bid_id price coin = record {
  auction_id = auction_id;
  bidder = bidder;
  bid_id = bid_id;
  price = price;
  coin = coin;
}

abbrev pub new_msg_add_allowed_bidder : ℕ → AllowedBidder → MsgAddAllowedBidder
new_msg_add_allowed_bidder auction_id allowed_bidder = record {
  auction_id = auction_id;
  allowed_bidder = allowed_bidder;
}

module _ ⦃acc : Accounts⦄ where
  open acc use {valid_address}

  -- `AccAddressFromBech32`, with a panic on an error.
  abbrev pub must_address : Address → Result Address
  must_address x = if valid_address x then ok x else panic

  -- The one signer.
  abbrev pub one_signer : Address → Result (List Address)
  one_signer x = must_address x >>= λ addr. ok (addr ∷ [])

  unfoldable pub create_fixed_price_auction_signers :
      MsgCreateFixedPriceAuction → Result (List Address)
  create_fixed_price_auction_signers msg = one_signer msg.auctioneer

  unfoldable pub create_fixed_price_auction_auctioneer : MsgCreateFixedPriceAuction → Result Address
  create_fixed_price_auction_auctioneer msg = must_address msg.auctioneer

  unfoldable pub create_batch_auction_signers : MsgCreateBatchAuction → Result (List Address)
  create_batch_auction_signers msg = one_signer msg.auctioneer

  unfoldable pub create_batch_auction_auctioneer : MsgCreateBatchAuction → Result Address
  create_batch_auction_auctioneer msg = must_address msg.auctioneer

  unfoldable pub cancel_auction_signers : MsgCancelAuction → Result (List Address)
  cancel_auction_signers msg = one_signer msg.auctioneer

  unfoldable pub cancel_auction_auctioneer : MsgCancelAuction → Result Address
  cancel_auction_auctioneer msg = must_address msg.auctioneer

  unfoldable pub place_bid_signers : MsgPlaceBid → Result (List Address)
  place_bid_signers msg = one_signer msg.bidder

  unfoldable pub place_bid_bidder : MsgPlaceBid → Result Address
  place_bid_bidder msg = must_address msg.bidder

  unfoldable pub modify_bid_signers : MsgModifyBid → Result (List Address)
  modify_bid_signers msg = one_signer msg.bidder

  unfoldable pub modify_bid_bidder : MsgModifyBid → Result Address
  modify_bid_bidder msg = must_address msg.bidder

  unfoldable pub add_allowed_bidder_signers : MsgAddAllowedBidder → Result (List Address)
  add_allowed_bidder_signers msg = one_signer msg.allowed_bidder.bidder
