-- ===== src/Examples/Batch.antt =====
-- Examples for batch auctions: one is created, and a bid is placed in another.
use fundraising.Keeper.Action.{◌>>=◌}
use fundraising.Examples.Creation.{before_sale}
use fundraising.Examples.Methods.{batch_sale}
use fundraising.Examples.Tables.{another, stocked}
use fundraising.Examples.World.{fixed_point, no_hooks, numbered_accounts, plain_coins, simple_bank}
use fundraising.Keeper.Auctions.{create_batch_auction, start_if_due}
use fundraising.Keeper.Auctions.CreateBatch.{create_batch_auction_lem}
use fundraising.Keeper.Bids.{new_bid, place_by_type, validate_batch_bid, validate_batch_many_bid}
use fundraising.Keeper.Bids.PlaceBatch.{PlacedAs, place_batch_lem}
use fundraising.Keeper.Fees.{
  fund_community_pool, pay_creation_fee, reserve_paying_coin, reserve_selling_coin, send_coins,
}
use fundraising.Keeper.Inversion.{Moves}
use fundraising.Keeper.State.{Balances, State}
use fundraising.Keeper.Tables.{
  get_allowed_bidder, get_auction, get_next_auction_id_with_update, set_bid,
}
use fundraising.Prelude.{[], refl, some, ◌%◌, ◌/◌, ◌<◌, ◌^◌, ◌∷◌, ◌≡◌, ◌≤◌, ◌⊎◌}
use fundraising.Prelude.Store.{insert, lookup}
use fundraising.Sdk.{new_coin}
use fundraising.Sdk.Decimals.{one}
use fundraising.Types.{
  Auction, AuctionStatus, AuctionType, Bid, BidType, MsgCreateBatchAuction, batch_auction,
}
use fundraising.Types.Auctions.{
  derive_address, new_base_auction, new_batch_auction, paying_reserve_address,
  selling_reserve_address, vesting_reserve_address,
}
use fundraising.Types.Bids.{convert_to_paying_amount, convert_to_selling_amount}

abbrev pub batch_message : MsgCreateBatchAuction
batch_message = record {
  auctioneer = 5;
  start_price = one;
  min_bid_price = one;
  selling_coin = new_coin 1 100;
  paying_coin_denom = 2;
  vesting_schedules = [];
  max_extended_round = 3;
  extended_round_rate = one / 5;
  start_time = 30;
  end_time = 40;
}

abbrev batch_created : Auction
batch_created =
    new_batch_auction
      (new_base_auction 1 AuctionType.batch 5 (selling_reserve_address 1) (paying_reserve_address 1)
        one (new_coin 1 100) 2 (vesting_reserve_address 1) [] 30 (40 ∷ []) AuctionStatus.stand_by)
      one 0 3 (one / 5)

abbrev after_batch : State
after_batch = (create_batch_auction 20 batch_message before_sale).1

create_batch_auction_lem_example :
    (m : Balances) × (20 ≤ 40)
    × (0 ≤ 100)
    × (3 ≤ 30)
    × (batch_created.id ≡ 1 % 2 ^ 64)
    × (batch_created.kind
        ≡ batch_auction (record {
          min_bid_price = one;
          matched_price = 0;
          max_extended_round = 3;
          extended_round_rate = one / 5;
        }))
    × (((30 ≤ 20) × (batch_created.status ≡ AuctionStatus.started))
        ⊎ ((20 < 30) × (batch_created.status ≡ AuctionStatus.stand_by)))
    × (get_auction batch_created.id after_batch ≡ some batch_created)
    × (simple_bank.fund_community_pool (new_coin 2 7 ∷ []) 5 (λ x d. 1000) ≡ some m)
    × Moves 5
        (selling_reserve_address batch_created.id)
        (new_coin 1 100)
        (record before_sale { bank = m })
        after_batch
unfolding create_batch_auction ◌>>=◌ get_next_auction_id_with_update pay_creation_fee
    reserve_selling_coin fund_community_pool send_coins start_if_due new_base_auction
    new_batch_auction selling_reserve_address paying_reserve_address vesting_reserve_address
    derive_address simple_bank numbered_accounts
create_batch_auction_lem_example =
    create_batch_auction_lem 20 batch_message batch_created before_sale after_batch no_hooks refl

abbrev next_bid : Bid
next_bid = new_bid another 2

abbrev reserved : State
reserved = (place_by_type batch_sale next_bid BidType.batch_many stocked).1

place_batch_lem_example : PlacedAs batch_sale next_bid next_bid stocked reserved 1
unfolding place_by_type ◌>>=◌ validate_batch_many_bid validate_batch_bid get_allowed_bidder lookup
    set_bid insert reserve_paying_coin send_coins convert_to_selling_amount convert_to_paying_amount
    fixed_point simple_bank plain_coins numbered_accounts
place_batch_lem_example =
    place_batch_lem batch_sale next_bid next_bid stocked reserved BidType.batch_many 1 refl refl
