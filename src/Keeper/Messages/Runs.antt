-- ===== src/Keeper/Messages/Runs.antt =====
-- Runs of the module: blocks (x/fundraising/abci.go) and messages (x/fundraising/handler.go) in any
-- order. The SDK rolls a message that fails back, so it is no step.
use fundraising.Keeper.Bids.Consistent.{IsConsistent}
use fundraising.Keeper.Env.{Env}
use fundraising.Keeper.Execution.{begin_blocker}
use fundraising.Keeper.Execution.Consistent.{begin_blocker-IsConsistent}
use fundraising.Keeper.Frame.{QuietHooks}
use fundraising.Keeper.Messages.{Msg, handle, validate_basic}
use fundraising.Keeper.Messages.Consistent.{handle-IsConsistent}
use fundraising.Keeper.Messages.Growth.{begin_blocker-SameLastIds, handle-GrowsByOne}
use fundraising.Keeper.Messages.LastIds.{last_ids-same}
use fundraising.Keeper.State.{State}
use fundraising.Keeper.Tables.{get_last_bid_id}
use fundraising.Prelude.{Bool, ap, arith, subst, ℕ, ◌+◌, ◌<◌, ◌^◌, ◌≡◌, ◌≤◌}
use fundraising.Sdk.{Time}
use fundraising.Sdk.Accounts.{Accounts}
use fundraising.Sdk.Coins.{Coins}
use fundraising.Sdk.Decimals.{Decimals}
use fundraising.Sdk.Outcome.{ok}

module _ ⦃dec : Decimals⦄ ⦃coins : Coins⦄ ⦃acc : Accounts⦄ ⦃env : Env⦄ (enabled : Bool)
    (s : State) where
  -- From the state `s`, with the number of messages that have succeeded.
  pub data Run : ℕ → State → Type 0 where
    start : Run 0 s
    block : (n : ℕ) (t u : State) (now : Time) → Run n t → (begin_blocker now t).1 ≡ u → Run n u
    message :
        (n : ℕ) (t u : State) (now : Time) (msg : Msg)
        → Run n t
        → validate_basic msg ≡ ok tt
        → handle enabled now msg t ≡ (ok tt, u)
        → Run (n + 1) u

  module _ (quiet : QuietHooks) (c : IsConsistent s) where
    -- From consistent tables of bids, every run of blocks and messages that is shorter than the ids that
    -- are left leads to consistent tables, and gives out at most one id of a bid for each message; the
    -- hooks of other modules are taken to leave the state alone.
    pub Run-IsConsistent :
        (n : ℕ) (t : State)
        → Run n t
        → ((k : ℕ) → get_last_bid_id k s + n < 2 ^ 64)
        → IsConsistent t × ((k : ℕ) → get_last_bid_id k t ≤ get_last_bid_id k s + n)
    Run-IsConsistent n t start room = (c, λ k. omega arith)
    Run-IsConsistent n u (block m t u' now run e) room =
        let (ct, le) = Run-IsConsistent m t run room in
        subst (λ x. IsConsistent x × ((k : ℕ) → get_last_bid_id k x ≤ get_last_bid_id k s + n)) e
          (
            begin_blocker-IsConsistent quiet now t ct,
            λ k.
                rw
                  (last_ids-same t (begin_blocker now t).1 k
                    (begin_blocker-SameLastIds quiet now t))
                  (le k),
          )
    Run-IsConsistent n u (message m t u' now msg run valid e) room =
        let (ct, le) = Run-IsConsistent m t run (λ k. omega (arith, room k)) in
        subst (λ x. IsConsistent x × ((k : ℕ) → get_last_bid_id k x ≤ get_last_bid_id k s + n))
          (ap (λ r. r.1) e)
          (
            handle-IsConsistent quiet enabled now msg t ct (λ k. omega (arith, room k, le k)),
            λ k. omega (arith, handle-GrowsByOne quiet enabled now msg t k, le k),
          )
