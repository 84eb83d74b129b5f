-- ===== src/Examples/Runs.antt =====
-- An example for runs: a bid is placed, then a block begins.
use fundraising.Examples.Tables.{another, few, stocked, stocked-IsConsistent}
use fundraising.Examples.World.{fixed_point, no_hooks, numbered_accounts, plain_coins, simple_bank}
use fundraising.Keeper.Bids.{
  check_min_bid_price, place_bid, place_by_type, validate_batch_bid, validate_batch_many_bid,
}
use fundraising.Keeper.Bids.Consistent.{IsConsistent}
use fundraising.Keeper.Env.{call_hooks}
use fundraising.Keeper.Execution.{begin_blocker}
use fundraising.Keeper.Fees.{
  fund_community_pool, pay_place_bid_fee, reserve_paying_coin, send_coins,
}
use fundraising.Keeper.Messages.{handle, place_bid_msg, validate_basic}
use fundraising.Keeper.Messages.Runs.{Run, Run-IsConsistent, block, message, start}
use fundraising.Keeper.State.{State}
use fundraising.Keeper.Tables.{
  get_allowed_bidder, get_auction, get_last_bid_id, get_next_bid_id_with_update, set_bid,
}
use fundraising.Prelude.{false, refl, ℕ, ◌+◌, ◌≤◌}
use fundraising.Prelude.Store.{insert, lookup}
use fundraising.Keeper.Action.{◌>>=◌}
use fundraising.Types.Bids.{convert_to_paying_amount, convert_to_selling_amount}
use fundraising.Types.Msgs.{validate_place_bid}

abbrev placed : State
placed = (handle false 20 (place_bid_msg another) stocked).1

abbrev later : State
later = (begin_blocker 45 placed).1

bid_then_block : Run false stocked 1 later
unfolding handle place_bid ◌>>=◌ get_auction lookup set_bid insert check_min_bid_price
    get_allowed_bidder pay_place_bid_fee fund_community_pool get_next_bid_id_with_update
    get_last_bid_id place_by_type validate_batch_many_bid validate_batch_bid
    convert_to_selling_amount convert_to_paying_amount reserve_paying_coin send_coins call_hooks
    validate_basic validate_place_bid fixed_point plain_coins numbered_accounts simple_bank
bid_then_block =
    block 1 placed later 45 (message 0 stocked placed 20 (place_bid_msg another) start refl refl)
      refl

Run-IsConsistent_example :
    IsConsistent later × ((k : ℕ) → get_last_bid_id k later ≤ get_last_bid_id k stocked + 1)
Run-IsConsistent_example =
    Run-IsConsistent false stocked no_hooks stocked-IsConsistent 1 later bid_then_block few
