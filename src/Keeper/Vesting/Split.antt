-- ===== src/Keeper/Vesting/Split.antt =====
-- x/fundraising/keeper/vesting.go: no coin is lost or made by the split over the vesting queues.
use fundraising.Keeper.Vesting.{new_queue, split_queues, weighted_amount}
use fundraising.Prelude.{List, [], ap, arith, false, refl, ℕ, ◌*◌, ◌+◌, ◌-◌, ◌∷◌, ◌≡◌, ◌≢◌, ◌≤◌}
use fundraising.Sdk.{Amount}
use fundraising.Sdk.Decimals.{Decimal, Decimals, floor_mul, one}
use fundraising.Sdk.Outcome.{ok}
use fundraising.Types.{Auction, VestingQueue, VestingSchedule}
use fundraising.Types.Genesis.{each}
use fundraising.Types.Vesting.{total_weight}
use native.Mathlib.Nat.{le_of_eq}

abbrev pub total_queued : List VestingQueue → Amount
total_queued [] = 0
total_queued (q ∷ qs) = q.paying_coin.amount + total_queued qs

-- The queues are those of the schedules, in order, in the auction's paying coin and not released.
abbrev pub QueuesFor : Auction → List VestingSchedule → List VestingQueue → Type 0
QueuesFor a [] [] = Unit {0}
QueuesFor a [] (q ∷ qs) = ⊥
QueuesFor a (s ∷ ss) [] = ⊥
QueuesFor a (s ∷ ss) (q ∷ qs) =
    (q.release_time ≡ s.release_time)
    × (q.paying_coin.denom ≡ a.paying_coin_denom)
    × (q.auction_id ≡ a.id)
    × (q.released ≡ false)
    × QueuesFor a ss qs

module _ ⦃dec : Decimals⦄ (a : Auction) (reserve : Amount) where
  weighted_amount-le : (w : Decimal) → weighted_amount reserve w * one ≤ reserve * w
  unfolding weighted_amount
  weighted_amount-le w = omega (arith, floor_mul reserve w)

  -- While the weights that are left are covered by what remains, the split goes through.
  split_queues-covered :
      (s : VestingSchedule) (ss : List VestingSchedule) (remaining : Amount)
      → reserve * total_weight (s ∷ ss) ≤ remaining * one
      → (qs : List VestingQueue) × (split_queues a reserve (s ∷ ss) remaining ≡ ok qs)
        × (total_queued qs ≡ remaining)
        × QueuesFor a (s ∷ ss) qs
  unfolding split_queues
  split_queues-covered s [] remaining h =
      (new_queue a s remaining ∷ [], refl, omega arith, (refl, refl, refl, refl, tt))
  split_queues-covered s (t ∷ ss) remaining h =
      let amt = weighted_amount reserve s.weight in
      let (qs, e, sum, each) =
        split_queues-covered t ss (remaining - amt) (omega (arith, weighted_amount-le s.weight)) in
      (
        new_queue a s amt ∷ qs,
        ground (arith, weighted_amount-le s.weight),
        omega (arith, weighted_amount-le s.weight),
        (refl, refl, refl, refl, each),
      )

-- For schedules whose weights add up to one, the split of any reserve succeeds: there is a queue for
-- each schedule, at its release time, in the paying coin and unreleased, and the queued amounts add
-- up to the reserve exactly.
pub split_queues_total :
    ⦃dec : Decimals⦄ (a : Auction) (reserve : Amount) (ss : List VestingSchedule)
    → ss ≢ []
    → total_weight ss ≡ one
    → (qs : List VestingQueue) × (split_queues a reserve ss reserve ≡ ok qs)
      × (total_queued qs ≡ reserve)
      × QueuesFor a ss qs
split_queues_total a reserve [] h e = absurd (h refl)
split_queues_total a reserve (s ∷ ss) h e =
    split_queues-covered a reserve s ss reserve (le_of_eq (ap (λ (t : ℕ). reserve * t) e))
