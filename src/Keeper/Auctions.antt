-- ===== src/Keeper/Auctions.antt =====
-- x/fundraising/keeper/auction.go: creating and cancelling an auction, and its allowed bidders. The
-- events that are emitted are not kept.
pub mod Cancel
pub mod Create
pub mod CreateBatch
pub mod Untouched
use fundraising.Keeper.Action.{Action, found_or, gets, lift, modify, pure, return_if, ◌>>=◌, ◌>>◌}
use fundraising.Keeper.Bids.{as_fixed_price}
use fundraising.Keeper.Env.{Env, call_hooks}
use fundraising.Keeper.Fees.{pay_creation_fee, reserve_selling_coin, send_coins}
use fundraising.Keeper.State.{
  after_batch_auction_created, after_fixed_price_auction_created, before_allowed_bidder_updated,
  before_allowed_bidders_added, before_auction_canceled, before_batch_auction_created,
  before_fixed_price_auction_created,
}
use fundraising.Keeper.Tables.{
  get_allowed_bidder, get_auction, get_next_auction_id_with_update, set_allowed_bidder, set_auction,
}
use fundraising.Prelude.{Bool, List, [], false, if◌then◌else◌, length, ltb, not, true, ℕ, ◌==◌, ◌∷◌}
use fundraising.Sdk.{Address, Amount, Time, new_coin}
use fundraising.Sdk.Accounts.{Accounts}
use fundraising.Sdk.Outcome.{
  Result, empty_allowed_bidders, insufficient_remaining_amount, invalid_auction_status,
  invalid_request, not_found, ok, panic, unauthorized,
}
use fundraising.Types.{
  AllowedBidder, Auction, AuctionStatus, AuctionType, BaseAuction, MsgCancelAuction,
  MsgCreateBatchAuction, MsgCreateFixedPriceAuction, fixed_price_auction, status_eq, type_eq,
}
use fundraising.Types.Auctions.{
  new_base_auction, new_batch_auction, new_fixed_price_auction, paying_reserve_address,
  selling_reserve_address, set_status, vesting_reserve_address,
}
use fundraising.Types.Bids.{validate_allowed_bidder}

abbrev pub max_num_vesting_schedules : ℕ
max_num_vesting_schedules = 100

abbrev pub max_extended_round : ℕ
max_extended_round = 30

-- "Update status if the start time is already passed".
unfoldable pub start_if_due : Time → BaseAuction → BaseAuction
start_if_due now b =
    if not (ltb now b.start_time) then record b { status = AuctionStatus.started } else b

abbrev pub is_empty {ℓ} : {A : Type ℓ} → List A → Bool
is_empty [] = true
is_empty (x ∷ xs) = false

-- What `CancelAuction` does to the fields of the auction, with the type assertion.
unfoldable pub cancelled_auction : Auction → Result Auction
cancelled_auction a =
    if type_eq a.typ AuctionType.fixed_price
    then elim (as_fixed_price a.kind) [
      | ok _ ↦ ok (record (set_status AuctionStatus.cancelled a) {
        kind = fixed_price_auction (new_coin a.selling_coin.denom 0);
      })
      | _ ↦ panic
    ]
    else ok (set_status AuctionStatus.cancelled a)

module _ ⦃acc : Accounts⦄ ⦃env : Env⦄ where
  open acc use {valid_address}

  unfoldable pub create_fixed_price_auction : Time → MsgCreateFixedPriceAuction → Action Auction
  create_fixed_price_auction now msg = do
    return_if (ltb msg.end_time now) invalid_request
    return_if (ltb max_num_vesting_schedules (length msg.vesting_schedules)) invalid_request
    id ← get_next_auction_id_with_update
    pay_creation_fee msg.auctioneer
    reserve_selling_coin id msg.auctioneer msg.selling_coin
    let base = start_if_due now (
        new_base_auction id AuctionType.fixed_price msg.auctioneer (selling_reserve_address id)
          (paying_reserve_address id) msg.start_price msg.selling_coin msg.paying_coin_denom
          (vesting_reserve_address id) msg.vesting_schedules msg.start_time (msg.end_time ∷ [])
          AuctionStatus.stand_by)
    let a = new_fixed_price_auction base msg.selling_coin
    modify (
        call_hooks (
          before_fixed_price_auction_created a.auctioneer a.start_price a.selling_coin
            a.paying_coin_denom a.vesting_schedules a.start_time msg.end_time))
    modify (set_auction a)
    modify (
        call_hooks (
          after_fixed_price_auction_created a.id a.auctioneer a.start_price a.selling_coin
            a.paying_coin_denom a.vesting_schedules a.start_time msg.end_time))
    pure a

  unfoldable pub create_batch_auction : Time → MsgCreateBatchAuction → Action Auction
  create_batch_auction now msg = do
    return_if (ltb msg.end_time now) invalid_request
    return_if (ltb max_num_vesting_schedules (length msg.vesting_schedules)) invalid_request
    return_if (ltb max_extended_round msg.max_extended_round) invalid_request
    id ← get_next_auction_id_with_update
    pay_creation_fee msg.auctioneer
    reserve_selling_coin id msg.auctioneer msg.selling_coin
    let base = start_if_due now (
        new_base_auction id AuctionType.batch msg.auctioneer (selling_reserve_address id)
          (paying_reserve_address id) msg.start_price msg.selling_coin msg.paying_coin_denom
          (vesting_reserve_address id) msg.vesting_schedules msg.start_time (msg.end_time ∷ [])
          AuctionStatus.stand_by)
    let a =
        new_batch_auction base msg.min_bid_price 0 msg.max_extended_round msg.extended_round_rate
    modify (
        call_hooks (
          before_batch_auction_created a.auctioneer a.start_price msg.min_bid_price a.selling_coin
            a.paying_coin_denom a.vesting_schedules msg.max_extended_round msg.extended_round_rate
            a.start_time msg.end_time))
    modify (set_auction a)
    modify (
        call_hooks (
          after_batch_auction_created a.id a.auctioneer a.start_price msg.min_bid_price
            a.selling_coin a.paying_coin_denom a.vesting_schedules msg.max_extended_round
            msg.extended_round_rate a.start_time msg.end_time))
    pure a

  unfoldable pub cancel_auction : MsgCancelAuction → Action (Unit {0})
  cancel_auction msg = do
    stored ← gets (get_auction msg.auction_id)
    a ← found_or stored not_found
    return_if (not (a.auctioneer == msg.auctioneer)) unauthorized
    return_if (not (status_eq a.status AuctionStatus.stand_by)) invalid_auction_status
    spendable ← gets (λ s. s.bank a.selling_reserve_address a.selling_coin.denom)
    send_coins a.selling_reserve_address a.auctioneer (new_coin a.selling_coin.denom spendable)
    modify (call_hooks (before_auction_canceled msg.auction_id msg.auctioneer))
    a' ← lift (cancelled_auction a)
    modify (set_auction a')

  -- The loop of `AddAllowedBidders`: what comes before an error is stored.
  unfoldable pub store_allowed_bidders : Auction → ℕ → List AllowedBidder → Action (Unit {0})
  store_allowed_bidders a auction_id [] = pure tt
  store_allowed_bidders a auction_id (ab ∷ abs) = do
    lift (validate_allowed_bidder valid_address ab)
    return_if (ltb a.selling_coin.amount ab.max_bid_amount) insufficient_remaining_amount
    modify (set_allowed_bidder auction_id ab)
    store_allowed_bidders a auction_id abs

  unfoldable pub add_allowed_bidders : ℕ → List AllowedBidder → Action (Unit {0})
  add_allowed_bidders auction_id abs = do
    return_if (is_empty abs) empty_allowed_bidders
    stored ← gets (get_auction auction_id)
    a ← found_or stored not_found
    modify (call_hooks (before_allowed_bidders_added abs))
    store_allowed_bidders a auction_id abs

  unfoldable pub update_allowed_bidder : ℕ → Address → Amount → Action (Unit {0})
  update_allowed_bidder auction_id bidder max_bid_amount = do
    stored ← gets (get_auction auction_id)
    _ ← found_or stored not_found
    listed ← gets (get_allowed_bidder auction_id bidder)
    _ ← found_or listed not_found
    let ab : AllowedBidder = record { bidder = bidder; max_bid_amount = max_bid_amount }
    lift (validate_allowed_bidder valid_address ab)
    modify (call_hooks (before_allowed_bidder_updated auction_id bidder max_bid_amount))
    modify (set_allowed_bidder auction_id ab)
