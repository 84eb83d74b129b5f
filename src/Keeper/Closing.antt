-- ===== src/Keeper/Closing.antt =====
-- x/fundraising/keeper/auction.go: closing an auction, that is, giving out the selling coins,
-- refunding, vesting, extending a round, and releasing vested coins.
pub mod Release
use fundraising.Keeper.Action.{Action, gets, lift, modify, must, throw, ◌>>=◌, ◌>>◌}
use fundraising.Keeper.Bids.{as_batch}
use fundraising.Keeper.Env.{Env, call_hooks}
use fundraising.Keeper.Fees.{input_output_coins, send_coins}
use fundraising.Keeper.Matching.{
  MatchingInfo, calculate_batch_allocation, calculate_fixed_price_allocation,
}
use fundraising.Keeper.State.{before_selling_coins_allocated}
use fundraising.Keeper.Tables.{get_last_matched_bids_len, set_auction}
use fundraising.Keeper.Vesting.{apply_vesting_schedules}
use fundraising.Prelude.{
  Bool, List, Option, [], false, if◌then◌else◌, leb, length, none, some, ℕ, ◌%◌, ◌*◌, ◌++◌, ◌+◌,
  ◌==◌, ◌^◌, ◌||◌, ◌∷◌,
}
use fundraising.Prelude.Store.{Store}
use fundraising.Sdk.{Address, Amount, Coin, Denom, Time, day, new_coin}
use fundraising.Sdk.Decimals.{Decimal, Decimals, one}
use fundraising.Sdk.Outcome.{Result, err, ok, panic}
use fundraising.Types.{Auction, BatchFields}
use fundraising.Types.Auctions.{last_time, set_end_times}

-- The inputs and outputs of `AllocateSellingCoin` and `RefundPayingCoin`, in the order of the bidders'
-- addresses; a zero amount is left out.
unfoldable pub transfers_to : Denom → Store Amount → List (Address × Coin)
transfers_to denom [] = []
transfers_to denom ((bidder, amt) ∷ m) =
    if amt == 0 then transfers_to denom m else (bidder, new_coin denom amt) ∷ transfers_to denom m

unfoldable pub transfers_from : Address → List (Address × Coin) → List (Address × Coin)
transfers_from reserve [] = []
transfers_from reserve ((bidder, c) ∷ ts) = (reserve, c) ∷ transfers_from reserve ts

-- The amounts of the refund map; a negative one makes `NewCoin` panic.
unfoldable pub refund_amounts : Store (Option Amount) → Result (Store Amount)
refund_amounts [] = ok []
refund_amounts ((k, none) ∷ m) = panic
refund_amounts ((k, some amt) ∷ m) = elim (refund_amounts m) [
  | ok rest ↦ ok ((k, amt) ∷ rest)
  | err e ↦ err e
  | panic ↦ panic
]

module _ ⦃env : Env⦄ where
  unfoldable pub allocate_selling_coin : Auction → MatchingInfo → Action (Unit {0})
  allocate_selling_coin a info = do
    modify (call_hooks (before_selling_coins_allocated a.id info.allocation_map info.refund_map))
    let outputs = transfers_to a.selling_coin.denom info.allocation_map
    input_output_coins (transfers_from a.selling_reserve_address outputs) outputs

  unfoldable pub refund_remaining_selling_coin : Auction → Action (Unit {0})
  refund_remaining_selling_coin a = do
    spendable ← gets (λ s. s.bank a.selling_reserve_address a.selling_coin.denom)
    send_coins a.selling_reserve_address a.auctioneer (new_coin a.selling_coin.denom spendable)

  -- The bidders' addresses are those of stored bids, so they parse.
  unfoldable pub refund_paying_coin : Auction → MatchingInfo → Action (Unit {0})
  refund_paying_coin a info = do
    amounts ← lift (refund_amounts info.refund_map)
    let outputs = transfers_to a.paying_coin_denom amounts
    input_output_coins (transfers_from a.paying_reserve_address outputs) outputs

-- `ExtendRound`: another end time, `ExtendedPeriod` days after the last; an index of -1 panics.
unfoldable pub extend_from : Auction → Option Time → Action (Unit {0})
extend_from a none = throw
extend_from a (some t) = do
  params ← gets (λ s. s.params)
  modify (set_auction (set_end_times (a.end_times ++ (t + params.extended_period * day) ∷ []) a))

unfoldable pub extend_round : Auction → Action (Unit {0})
unfolding extend_from
extend_round a = extend_from a (last_time a.end_times)

module _ ⦃dec : Decimals⦄ ⦃env : Env⦄ where
  open dec use {new_dec_from_int, quo}

  unfoldable pub close_fixed_price_auction : Auction → Action (Unit {0})
  close_fixed_price_auction a = do
    info ← gets (calculate_fixed_price_allocation a)
    must (allocate_selling_coin a info)
    must (refund_remaining_selling_coin a)
    must (apply_vesting_schedules a)

  -- The four steps that end a batch auction.
  unfoldable pub finish_batch_auction : Auction → MatchingInfo → Action (Unit {0})
  finish_batch_auction a info = do
    must (allocate_selling_coin a info)
    must (refund_remaining_selling_coin a)
    must (refund_paying_coin a info)
    must (apply_vesting_schedules a)

  -- 1 - current / last is at least the rate, with the subtraction on the other side.
  abbrev pub reduced_by : Decimal → ℕ → ℕ → Bool
  reduced_by rate current last =
      leb (rate + quo (new_dec_from_int current) (new_dec_from_int last)) one

  -- Whether another round follows: not after the last one, always if nothing was matched before, and
  -- else if the number of matched bids has gone down by the rate.
  unfoldable pub needs_extended_round : BatchFields → ℕ → ℕ → ℕ → Bool
  needs_extended_round f rounds last current =
      if (f.max_extended_round + 1) % 2 ^ 32 == rounds % 2 ^ 32
      then false
      else (last == 0 || reduced_by f.extended_round_rate current last)

  unfoldable pub close_batch_auction : Auction → Action (Unit {0})
  close_batch_auction a = do
    f ← lift (as_batch a.kind)
    last ← gets (get_last_matched_bids_len a.id)
    info ← calculate_batch_allocation a
    if needs_extended_round f (length a.end_times) last info.matched_len
        then extend_round a
        else finish_batch_auction a info
