-- ===== src/Keeper/Vesting.antt =====
-- x/fundraising/keeper/vesting.go: splitting the raised coins over the vesting queues.
pub mod Split
use fundraising.Keeper.Action.{Action, gets, lift, modify, ◌>>=◌, ◌>>◌}
use fundraising.Keeper.Env.{Env}
use fundraising.Keeper.Fees.{send_coins}
use fundraising.Keeper.State.{State}
use fundraising.Keeper.Tables.{set_auction, set_vesting_queue}
use fundraising.Prelude.{List, [], false, if◌then◌else◌, ltb, ◌-◌, ◌∷◌}
use fundraising.Sdk.{Amount, Coin, new_coin}
use fundraising.Sdk.Decimals.{Decimal, Decimals}
use fundraising.Sdk.Outcome.{Result, err, ok, panic}
use fundraising.Types.{Auction, AuctionStatus, VestingQueue, VestingSchedule}
use fundraising.Types.Auctions.{set_status}

abbrev pub new_queue : Auction → VestingSchedule → Amount → VestingQueue
new_queue a schedule amt = record {
  auction_id = a.id;
  auctioneer = a.auctioneer;
  paying_coin = new_coin a.paying_coin_denom amt;
  release_time = schedule.release_time;
  released = false;
}

module _ ⦃dec : Decimals⦄ where
  open dec use {new_dec_from_int, mul_truncate, truncate_int}

  -- The share of a schedule: the floor of amount * weight.
  unfoldable pub weighted_amount : Amount → Decimal → Amount
  weighted_amount reserve weight = truncate_int (mul_truncate (new_dec_from_int reserve) weight)

  -- The loop over the schedules: the queues that it stores, with what remains in `remaining`. The
  -- last one takes all that remains; below zero `SubAmount` panics.
  unfoldable pub split_queues :
      Auction → Amount → List VestingSchedule → Amount → Result (List VestingQueue)
  split_queues a reserve [] remaining = ok []
  split_queues a reserve (s ∷ []) remaining = ok (new_queue a s remaining ∷ [])
  split_queues a reserve (s ∷ t ∷ ss) remaining =
      let amt = weighted_amount reserve s.weight in
      let rest = split_queues a reserve (t ∷ ss) (remaining - amt) in
      if ltb remaining amt
      then panic
      else elim rest [ ok qs ↦ ok (new_queue a s amt ∷ qs) | err e ↦ err e | panic ↦ panic ]

unfoldable pub set_vesting_queues : List VestingQueue → State → State
set_vesting_queues [] s = s
set_vesting_queues (q ∷ qs) s = set_vesting_queues qs (set_vesting_queue q s)

module _ ⦃dec : Decimals⦄ ⦃env : Env⦄ where
  -- The two branches, by the number of schedules.
  unfoldable pub apply_schedules : Auction → Coin → List VestingSchedule → Action (Unit {0})
  apply_schedules a reserve [] = do
    send_coins a.paying_reserve_address a.auctioneer reserve
    modify (set_auction (set_status AuctionStatus.finished a))
  apply_schedules a reserve (s ∷ ss) = do
    send_coins a.paying_reserve_address a.vesting_reserve_address reserve
    queues ← lift (split_queues a reserve.amount (s ∷ ss) reserve.amount)
    modify (set_vesting_queues queues)
    modify (set_auction (set_status AuctionStatus.vesting a))

  -- `ApplyVestingSchedules`
  unfoldable pub apply_vesting_schedules : Auction → Action (Unit {0})
  apply_vesting_schedules a = do
    spendable ← gets (λ s. s.bank a.paying_reserve_address a.paying_coin_denom)
    let reserve = new_coin a.paying_coin_denom spendable
    apply_schedules a reserve a.vesting_schedules
