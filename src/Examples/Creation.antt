-- ===== src/Examples/Creation.antt =====
-- An example for the creation of an auction: 100 coins at a fixed price, in an empty state.
use fundraising.Examples.World.{no_hooks, numbered_accounts, simple_bank}
use fundraising.Keeper.Action.{◌>>=◌}
use fundraising.Keeper.Auctions.{create_fixed_price_auction, start_if_due}
use fundraising.Keeper.Auctions.Create.{create_fixed_price_auction_lem}
use fundraising.Keeper.Fees.{
  fund_community_pool, pay_creation_fee, reserve_selling_coin, send_coins,
}
use fundraising.Keeper.Inversion.{Moves}
use fundraising.Keeper.State.{Balances, State}
use fundraising.Keeper.Tables.{get_auction, get_next_auction_id_with_update}
use fundraising.Prelude.{[], refl, some, ◌%◌, ◌^◌, ◌∷◌, ◌≡◌, ◌≤◌}
use fundraising.Sdk.{new_coin}
use fundraising.Sdk.Decimals.{one}
use fundraising.Types.{
  Auction, AuctionStatus, AuctionType, MsgCreateFixedPriceAuction, fixed_price_auction,
}
use fundraising.Types.Auctions.{
  derive_address, new_base_auction, new_fixed_price_auction, paying_reserve_address,
  selling_reserve_address, vesting_reserve_address,
}

abbrev sale : MsgCreateFixedPriceAuction
sale = record {
  auctioneer = 5;
  start_price = one;
  selling_coin = new_coin 1 100;
  paying_coin_denom = 2;
  vesting_schedules = [];
  start_time = 10;
  end_time = 40;
}

abbrev pub before_sale : State
before_sale = record {
  params = record {
    auction_creation_fee = new_coin 2 7 ∷ [];
    place_bid_fee = [];
    extended_period = 1;
  };
  last_auction_id = 0;
  last_bid_ids = [];
  auctions = [];
  allowed_bidders = [];
  bids = [];
  bid_index = [];
  matched_bids_lens = [];
  vesting_queues = [];
  bank = λ x d. 1000;
}

abbrev created : Auction
created =
    new_fixed_price_auction
      (new_base_auction 1 AuctionType.fixed_price 5 (selling_reserve_address 1)
        (paying_reserve_address 1) one (new_coin 1 100) 2 (vesting_reserve_address 1) [] 10
        (40 ∷ []) AuctionStatus.started)
      (new_coin 1 100)

abbrev after_creation : State
after_creation = (create_fixed_price_auction 20 sale before_sale).1

create_fixed_price_auction_lem_example :
    (m : Balances) × (20 ≤ 40)
    × (0 ≤ 100)
    × (created.id ≡ 1 % 2 ^ 64)
    × (created.kind ≡ fixed_price_auction (new_coin 1 100))
    × (get_auction created.id after_creation ≡ some created)
    × (simple_bank.fund_community_pool (new_coin 2 7 ∷ []) 5 (λ x d. 1000) ≡ some m)
    × Moves 5
        (selling_reserve_address created.id)
        (new_coin 1 100)
        (record before_sale { bank = m })
        after_creation
unfolding create_fixed_price_auction ◌>>=◌ get_next_auction_id_with_update pay_creation_fee
    reserve_selling_coin fund_community_pool send_coins start_if_due new_base_auction
    new_fixed_price_auction selling_reserve_address paying_reserve_address vesting_reserve_address
    derive_address simple_bank numbered_accounts
create_fixed_price_auction_lem_example =
    create_fixed_price_auction_lem 20 sale created before_sale after_creation no_hooks refl
