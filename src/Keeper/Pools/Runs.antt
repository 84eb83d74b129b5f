-- ===== src/Keeper/Pools/Runs.antt =====
-- The reserves over runs of blocks (x/fundraising/abci.go) that do not panic, and of messages
-- (x/fundraising/handler.go) from accounts that are no reserve.
use fundraising.Keeper.Bids.Consistent.{IsConsistent}
use fundraising.Keeper.Env.{Env}
use fundraising.Keeper.Execution.{begin_blocker}
use fundraising.Keeper.Frame.{QuietHooks}
use fundraising.Keeper.Invariants.{
  paying_pool_reserve_amount_invariant, selling_pool_reserve_amount_invariant,
}
use fundraising.Keeper.Messages.{Msg, handle, validate_basic}
use fundraising.Keeper.Messages.Numbers.{begin_blocker-last_auction_id, handle-last_auction_id}
use fundraising.Keeper.Messages.Runs.{Run, Run-IsConsistent, block, message, start}
use fundraising.Keeper.Messages.Signers.{sender}
use fundraising.Keeper.Pools.{Everyone, IsFunded}
use fundraising.Keeper.Pools.Blocks.{begin_blocker-IsFunded}
use fundraising.Keeper.Pools.Messages.{handle-IsFunded}
use fundraising.Keeper.Pools.Placing.{IsOutside}
use fundraising.Keeper.Pools.Unbroken.{IsFunded-pool_invariants}
use fundraising.Keeper.State.{State}
use fundraising.Keeper.Tables.{get_last_bid_id}
use fundraising.Prelude.{Bool, ap, arith, false, subst, ℕ, ◌+◌, ◌<◌, ◌^◌, ◌≡◌, ◌≤◌}
use fundraising.Sdk.{Time}
use fundraising.Sdk.Accounts.{Accounts}
use fundraising.Sdk.Coins.{Coins}
use fundraising.Sdk.Decimals.{Decimals}
use fundraising.Sdk.Outcome.{ok}

module _ ⦃dec : Decimals⦄ ⦃coins : Coins⦄ ⦃acc : Accounts⦄ ⦃env : Env⦄ (enabled : Bool)
    (s : State) where
  -- From the state `s`, with the number of messages. A panic in a block stops the chain, and a message
  -- that fails is rolled back, so neither is a step.
  pub data LiveRun : ℕ → State → Type 0 where
    begins : LiveRun 0 s
    then_block :
        (n : ℕ) (t u : State) (now : Time)
        → LiveRun n t
        → begin_blocker now t ≡ (ok tt, u)
        → LiveRun n u
    then_message :
        (n : ℕ) (t u : State) (now : Time) (msg : Msg)
        → LiveRun n t
        → IsOutside (sender msg)
        → validate_basic msg ≡ ok tt
        → handle enabled now msg t ≡ (ok tt, u)
        → LiveRun (n + 1) u

  as-Run : (n : ℕ) (t : State) → LiveRun n t → Run enabled s n t
  as-Run n t begins = start
  as-Run n u (then_block m t u' now r e) = block n t u now (as-Run m t r) (ap (λ x. x.1) e)
  as-Run n u (then_message m t u' now msg r out valid e) =
      message m t u now msg (as-Run m t r) valid e

  module _ (quiet : QuietHooks) (c : IsConsistent s) (f : IsFunded Everyone s) where
    last_id_below : (n : ℕ) (t : State) → LiveRun n t → t.last_auction_id ≤ s.last_auction_id + n
    last_id_below n t begins = omega arith
    last_id_below n u (then_block m t u' now r e) =
        let same = begin_blocker-last_auction_id quiet now t in
        let le = last_id_below m t r in
        subst (λ x. x.last_auction_id ≤ s.last_auction_id + n) (ap (λ x. x.1) e) (rw same le)
    last_id_below n u (then_message m t u' now msg r out valid e) =
        let more = handle-last_auction_id quiet enabled now msg t in
        let le = last_id_below m t r in
        subst (λ x. x.last_auction_id ≤ s.last_auction_id + (m + 1)) (ap (λ x. x.1) e) (omega arith)

    run_stays-IsFunded :
        (n : ℕ) (t : State)
        → LiveRun n t
        → ((k : ℕ) → get_last_bid_id k s + n < 2 ^ 64)
        → s.last_auction_id + n < 2 ^ 64
        → IsFunded Everyone t
    run_stays-IsFunded n t begins ids room = f
    run_stays-IsFunded n u (then_block m t u' now r e) ids room =
        begin_blocker-IsFunded quiet now t u
          (Run-IsConsistent enabled s quiet c m t (as-Run m t r) ids).0
          (run_stays-IsFunded m t r ids room) e
    run_stays-IsFunded n u (then_message m t u' now msg r out valid e) ids room =
        let fewer : (k : ℕ) → get_last_bid_id k s + m < 2 ^ 64 = λ k. omega (arith, ids k) in
        handle-IsFunded quiet enabled now msg t u
          (Run-IsConsistent enabled s quiet c m t (as-Run m t r) fewer).0
          (run_stays-IsFunded m t r fewer (omega arith)) out (omega (arith, last_id_below m t r))
          valid e

    -- From consistent tables of bids and funded reserves, every run of blocks that do not panic and of
    -- messages from accounts that are no paying or selling reserve, shorter than the ids that are left,
    -- leads to a state in which the registered checks of the selling and of the paying reserves find
    -- nothing broken; the hooks of other modules are taken to leave the state alone.
    pub LiveRun-pool_invariants :
        (n : ℕ) (t : State)
        → LiveRun n t
        → ((k : ℕ) → get_last_bid_id k s + n < 2 ^ 64)
        → s.last_auction_id + n < 2 ^ 64
        → (selling_pool_reserve_amount_invariant t ≡ false)
          × (paying_pool_reserve_amount_invariant t ≡ false)
    LiveRun-pool_invariants n t r ids room =
        IsFunded-pool_invariants t (run_stays-IsFunded n t r ids room)
