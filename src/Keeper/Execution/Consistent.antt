-- ===== src/Keeper/Execution/Consistent.antt =====
-- A block (x/fundraising/abci.go) and the tables of bids (x/fundraising/keeper/store.go).
use fundraising.Keeper.Action.{modify}
use fundraising.Keeper.Bids.Blocks.{StaysConsistent, calculate_batch_allocation-StaysConsistent}
use fundraising.Keeper.Bids.Consistent.{IsConsistent, KeepsBids, KeepsBids-IsConsistent}
use fundraising.Keeper.Bids.Untouched.{
  bank-KeepsBids, call_hooks-KeepsBids, set_auction-KeepsBids, set_vesting_queue-KeepsBids,
}
use fundraising.Keeper.Env.{Env}
use fundraising.Keeper.Execution.{begin_blocker}
use fundraising.Keeper.Execution.Keeps.{KeptByBlock, begin_blocker-Relates}
use fundraising.Keeper.Frame.{IsFrame, QuietHooks, Relates}
use fundraising.Keeper.State.{State}
use fundraising.Sdk.{Time}
use fundraising.Sdk.Decimals.{Decimals}

StaysConsistent-IsFrame : IsFrame StaysConsistent
StaysConsistent-IsFrame = record { same = λ s c. c; then_also = λ s t u f g c. g (f c) }

KeepsBids-StaysConsistent :
    (f : State → State) → Relates KeepsBids (modify f) → Relates StaysConsistent (modify f)
KeepsBids-StaysConsistent f k s = KeepsBids-IsConsistent s (f s) (k s)

module _ ⦃dec : Decimals⦄ ⦃env : Env⦄ (quiet : QuietHooks) where
  pub StaysConsistent-KeptByBlock : KeptByBlock StaysConsistent
  StaysConsistent-KeptByBlock = record {
    frame = StaysConsistent-IsFrame;
    bank_kept = λ s m. KeepsBids-IsConsistent s _ (bank-KeepsBids s m);
    hooks_kept = λ c. KeepsBids-StaysConsistent _ (call_hooks-KeepsBids quiet c);
    auction_kept = λ a. KeepsBids-StaysConsistent _ (set_auction-KeepsBids a);
    queue_kept = λ q. KeepsBids-StaysConsistent _ (set_vesting_queue-KeepsBids q);
    allocation_kept = calculate_batch_allocation-StaysConsistent;
  }

  -- Where the hooks of other modules leave the state alone, a block that begins with consistent tables
  -- of bids ends with consistent ones, however it ends: every auction and every bid stands under its own
  -- id, the bids of an auction in order under ids that were given out, and the index by bidder has
  -- exactly the bids of each bidder.
  pub begin_blocker-IsConsistent :
      (now : Time) (s : State) → IsConsistent s → IsConsistent (begin_blocker now s).1
  begin_blocker-IsConsistent now s c =
      begin_blocker-Relates StaysConsistent StaysConsistent-KeptByBlock now s c
