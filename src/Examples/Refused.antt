-- ===== src/Examples/Refused.antt =====
-- Examples for the checks of messages: a bid in a coin that the auction does not sell, and a signer.
use fundraising.Keeper.Action.{◌>>=◌}
use fundraising.Examples.Tables.{another, stocked}
use fundraising.Examples.World.{fixed_point, no_hooks, numbered_accounts, plain_coins, simple_bank}
use fundraising.Keeper.Bids.{
  check_min_bid_price, place_bid, place_by_type, validate_batch_bid, validate_batch_many_bid,
}
use fundraising.Keeper.Fees.{fund_community_pool, pay_place_bid_fee}
use fundraising.Keeper.Messages.{handle, place_bid_msg, validate_basic}
use fundraising.Keeper.Messages.Signers.{get_signers, get_signers_lem}
use fundraising.Types.Msgs.{validate_place_bid}
use fundraising.Keeper.Messages.Refused.{SameTables, handle_refused_lem}
use fundraising.Keeper.State.{State}
use fundraising.Keeper.Tables.{
  get_allowed_bidder, get_auction, get_last_bid_id, get_next_bid_id_with_update, set_bid,
}
use fundraising.Prelude.{[], false, refl, ◌∷◌, ◌≡◌}
use fundraising.Prelude.Store.{insert, lookup}
use fundraising.Sdk.{new_coin}
use fundraising.Sdk.Outcome.{incorrect_coin_denom, ok}
use fundraising.Types.{MsgPlaceBid}

abbrev foreign : MsgPlaceBid
foreign = record another { coin = new_coin 7 20 }

abbrev refused : State
refused = (handle false 20 (place_bid_msg foreign) stocked).1

handle_refused_lem_example : SameTables stocked refused
unfolding handle place_bid ◌>>=◌ get_auction lookup set_bid insert check_min_bid_price
    get_allowed_bidder pay_place_bid_fee fund_community_pool get_next_bid_id_with_update
    get_last_bid_id place_by_type validate_batch_many_bid validate_batch_bid fixed_point plain_coins
    numbered_accounts simple_bank
handle_refused_lem_example =
    handle_refused_lem no_hooks false 20 (place_bid_msg foreign) stocked refused
      incorrect_coin_denom refl

get_signers_lem_example : get_signers (place_bid_msg another) ≡ ok (11 ∷ [])
unfolding validate_basic validate_place_bid numbered_accounts
get_signers_lem_example = get_signers_lem (place_bid_msg another) refl
