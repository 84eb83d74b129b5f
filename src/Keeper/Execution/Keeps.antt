-- ===== src/Keeper/Execution/Keeps.antt =====
-- A relation between the states before and after a block (x/fundraising/abci.go), from the writes that
-- the methods of a block are made of.
use fundraising.Keeper.Action.{modify, must}
use fundraising.Keeper.Closing.{
  allocate_selling_coin, close_batch_auction, close_fixed_price_auction, extend_from, extend_round,
  finish_batch_auction, refund_paying_coin, refund_remaining_selling_coin,
}
use fundraising.Keeper.Closing.Release.{
  is_last, release_queue, release_queues, release_vesting_paying_coin,
}
use fundraising.Keeper.Env.{Env, call_hooks}
use fundraising.Keeper.Execution.{
  begin_blocker, close_auction, close_if, execute_auction, execute_auctions,
  execute_stand_by_status, execute_started_status, execute_vesting_status,
}
use fundraising.Keeper.Fees.{input_output_coins, keep_balances, send_coins}
use fundraising.Keeper.Frame.{>>=-Relates, IsFrame, Relates, if-Relates, must-Relates}
use fundraising.Keeper.Matching.{MatchingInfo, calculate_batch_allocation}
use fundraising.Keeper.State.{Balances, HookCall, State}
use fundraising.Keeper.Tables.{set_auction, set_vesting_queue}
use fundraising.Keeper.Vesting.{apply_schedules, apply_vesting_schedules, set_vesting_queues}
use fundraising.Prelude.{Bool, List, Option, [], false, none, some, true, ◌∷◌}
use fundraising.Sdk.{Address, Coin, Time}
use fundraising.Sdk.Decimals.{Decimals}
use fundraising.Types.{Auction, AuctionStatus, AuctionType, VestingQueue, VestingSchedule}
use fundraising.Types.Auctions.{last_time, should_auction_closed}

-- The writes that every method may make, and the allocation of a batch auction.
pub record KeptByBlock ⦃dec : Decimals⦄ ⦃env : Env⦄ (R : State → State → Type 0) : Type 0 where
  pub frame : IsFrame R
  pub bank_kept : (s : State) (m : Balances) → R s (record s { bank = m })
  pub hooks_kept : (c : HookCall) → Relates R (modify (call_hooks c))
  pub auction_kept : (a : Auction) → Relates R (modify (set_auction a))
  pub queue_kept : (q : VestingQueue) → Relates R (modify (set_vesting_queue q))
  pub allocation_kept : (a : Auction) → Relates R (calculate_batch_allocation a)

module _ ⦃dec : Decimals⦄ ⦃env : Env⦄ (R : State → State → Type 0) (kept : KeptByBlock R) where
  open kept use {frame, bank_kept, hooks_kept, auction_kept, queue_kept, allocation_kept}

  keep_balances-R : (o : Option Balances) (s : State) → R s (keep_balances s o).1
  keep_balances-R none s = frame.same s
  keep_balances-R (some m) s = bank_kept s m

  send_coins-R : (from to : Address) (c : Coin) → Relates R (send_coins from to c)
  unfolding send_coins
  send_coins-R from to c s = keep_balances-R (env.send_coins from to c s.bank) s

  input_output_coins-R :
      (ins outs : List (Address × Coin)) → Relates R (input_output_coins ins outs)
  unfolding input_output_coins
  input_output_coins-R ins outs s = keep_balances-R (env.input_output_coins ins outs s.bank) s

  module _ (a : Auction) where
    allocate_selling_coin-R :
        (info : MatchingInfo) → Relates R (must (allocate_selling_coin a info))
    unfolding allocate_selling_coin
    allocate_selling_coin-R info =
        must-Relates R frame _
          (>>=-Relates R frame _ _ (hooks_kept _) (λ _. input_output_coins-R _ _))

    refund_remaining_selling_coin-R : Relates R (must (refund_remaining_selling_coin a))
    unfolding refund_remaining_selling_coin
    refund_remaining_selling_coin-R =
        must-Relates R frame _
          (>>=-Relates R frame _ _ (λ s. frame.same s) (λ _. send_coins-R _ _ _))

    refund_paying_coin-R : (info : MatchingInfo) → Relates R (must (refund_paying_coin a info))
    unfolding refund_paying_coin
    refund_paying_coin-R info =
        must-Relates R frame _
          (>>=-Relates R frame _ _ (λ s. frame.same s) (λ _. input_output_coins-R _ _))

    set_vesting_queues-R : (qs : List VestingQueue) → Relates R (modify (set_vesting_queues qs))
    unfolding set_vesting_queues
    set_vesting_queues-R [] s = frame.same s
    set_vesting_queues-R (q ∷ qs) s =
        frame.then_also s (set_vesting_queue q s) _ (queue_kept q s) (set_vesting_queues-R qs _)

    apply_schedules-R :
        (reserve : Coin) (ss : List VestingSchedule) → Relates R (apply_schedules a reserve ss)
    unfolding apply_schedules
    apply_schedules-R reserve [] =
        >>=-Relates R frame _ _ (send_coins-R _ _ _) (λ _. auction_kept _)
    apply_schedules-R reserve (x ∷ ss) = >>=-Relates R frame _ _ (send_coins-R _ _ _) (λ _.
        >>=-Relates R frame _ _ (λ s. frame.same s)
          (λ qs. >>=-Relates R frame _ _ (set_vesting_queues-R qs) (λ _. auction_kept _)))

    apply_vesting_schedules-R : Relates R (must (apply_vesting_schedules a))
    unfolding apply_vesting_schedules
    apply_vesting_schedules-R =
        must-Relates R frame _ (
          >>=-Relates R frame _ _ (λ s. frame.same s)
            (λ _. apply_schedules-R _ a.vesting_schedules))

    close_fixed_price_auction-R : Relates R (close_fixed_price_auction a)
    unfolding close_fixed_price_auction
    close_fixed_price_auction-R =
        >>=-Relates R frame _ _ (λ s. frame.same s)
          (λ info. >>=-Relates R frame _ _ (allocate_selling_coin-R info) (λ _.
            >>=-Relates R frame _ _ refund_remaining_selling_coin-R
              (λ _. apply_vesting_schedules-R)))

    finish_batch_auction-R : (info : MatchingInfo) → Relates R (finish_batch_auction a info)
    unfolding finish_batch_auction
    finish_batch_auction-R info = >>=-Relates R frame _ _ (allocate_selling_coin-R info) (λ _.
        >>=-Relates R frame _ _ refund_remaining_selling_coin-R (λ _.
          >>=-Relates R frame _ _ (refund_paying_coin-R info) (λ _. apply_vesting_schedules-R)))

    extend_from-R : (o : Option Time) → Relates R (extend_from a o)
    unfolding extend_from
    extend_from-R none = λ s. frame.same s
    extend_from-R (some t) = >>=-Relates R frame _ _ (λ s. frame.same s) (λ _. auction_kept _)

    extend_round-R : Relates R (extend_round a)
    unfolding extend_round
    extend_round-R = extend_from-R (last_time a.end_times)

    close_batch_auction-R : Relates R (close_batch_auction a)
    unfolding close_batch_auction
    close_batch_auction-R =
        >>=-Relates R frame _ _ (λ s. frame.same s)
          (λ f.
            >>=-Relates R frame _ _ (λ s. frame.same s)
              (λ last.
                >>=-Relates R frame _ _ (allocation_kept a)
                  (λ info. if-Relates R frame _ _ _ extend_round-R (finish_batch_auction-R info))))

    release_queue-R :
        (now : Time) (q : VestingQueue) (last : Bool) → Relates R (release_queue now a q last)
    unfolding release_queue
    release_queue-R now q last =
        if-Relates R frame _ _ _
          (>>=-Relates R frame _ _ (send_coins-R _ _ _) (λ _.
            >>=-Relates R frame _ _ (queue_kept _)
              (λ _. if-Relates R frame _ _ _ (auction_kept _) (λ s. frame.same s))))
          (λ s. frame.same s)

    release_queues-R : (now : Time) (qs : List VestingQueue) → Relates R (release_queues now a qs)
    unfolding release_queues
    release_queues-R now [] = λ s. frame.same s
    release_queues-R now (q ∷ qs) =
        >>=-Relates R frame _ _ (release_queue-R now q (is_last qs)) (λ _. release_queues-R now qs)

    close_auction-R : (typ : AuctionType) → Relates R (close_auction a typ)
    close_auction-R AuctionType.nil = λ s. frame.same s
    close_auction-R AuctionType.fixed_price = close_fixed_price_auction-R
    close_auction-R AuctionType.batch = close_batch_auction-R

    close_if-R : (o : Option Bool) → Relates R (close_if a o)
    close_if-R none = λ s. frame.same s
    close_if-R (some true) = close_auction-R a.typ
    close_if-R (some false) = λ s. frame.same s

    pub execute_auction-R : (now : Time) (st : AuctionStatus) → Relates R (execute_auction now a st)
    unfolding execute_auction execute_stand_by_status execute_started_status execute_vesting_status
        release_vesting_paying_coin
    execute_auction-R now AuctionStatus.stand_by =
        if-Relates R frame _ _ _ (auction_kept _) (λ s. frame.same s)
    execute_auction-R now AuctionStatus.started = close_if-R (should_auction_closed now a)
    execute_auction-R now AuctionStatus.vesting =
        must-Relates R frame _
          (>>=-Relates R frame _ _ (λ s. frame.same s) (λ qs. release_queues-R now qs))
    execute_auction-R now AuctionStatus.nil = λ s. frame.same s
    execute_auction-R now AuctionStatus.finished = λ s. frame.same s
    execute_auction-R now AuctionStatus.cancelled = λ s. frame.same s

  execute_auctions-R : (now : Time) (as' : List Auction) → Relates R (execute_auctions now as')
  unfolding execute_auctions
  execute_auctions-R now [] = λ s. frame.same s
  execute_auctions-R now (a ∷ as') =
      >>=-Relates R frame _ _ (execute_auction-R a now a.status) (λ _. execute_auctions-R now as')

  pub begin_blocker-Relates : (now : Time) → Relates R (begin_blocker now)
  unfolding begin_blocker
  begin_blocker-Relates now =
      >>=-Relates R frame _ _ (λ s. frame.same s) (λ as'. execute_auctions-R now as')
