-- ===== src/Keeper/Closing/Release.antt =====
-- x/fundraising/keeper/auction.go: `ReleaseVestingPayingCoin`.
use fundraising.Keeper.Action.{Action, gets, modify, pure, ◌>>=◌, ◌>>◌}
use fundraising.Keeper.Env.{Env}
use fundraising.Keeper.Fees.{send_coins}
use fundraising.Keeper.Tables.{get_vesting_queues_by_auction_id, set_auction, set_vesting_queue}
use fundraising.Prelude.{Bool, List, [], false, if◌then◌else◌, true, ◌∷◌}
use fundraising.Sdk.{Time}
use fundraising.Types.{Auction, AuctionStatus, VestingQueue}
use fundraising.Types.Auctions.{set_status}
use fundraising.Types.Vesting.{should_release}

abbrev pub mark_released : VestingQueue → VestingQueue
mark_released q = record q { released = true }

abbrev pub is_last {ℓ} : {A : Type ℓ} → List A → Bool
is_last [] = true
is_last (x ∷ xs) = false

module _ ⦃env : Env⦄ where
  -- One round of the loop, on a queue and those after it.
  unfoldable pub release_queue : Time → Auction → VestingQueue → Bool → Action (Unit {0})
  release_queue now a q last =
      if should_release q now
      then (do
        send_coins a.vesting_reserve_address a.auctioneer q.paying_coin
        modify (set_vesting_queue (mark_released q))
        if last then modify (set_auction (set_status AuctionStatus.finished a)) else pure tt)
      else pure tt

  unfoldable pub release_queues : Time → Auction → List VestingQueue → Action (Unit {0})
  release_queues now a [] = pure tt
  release_queues now a (q ∷ qs) = release_queue now a q (is_last qs) >> release_queues now a qs

  unfoldable pub release_vesting_paying_coin : Time → Auction → Action (Unit {0})
  release_vesting_paying_coin now a = do
    queues ← gets (get_vesting_queues_by_auction_id a.id)
    release_queues now a queues
