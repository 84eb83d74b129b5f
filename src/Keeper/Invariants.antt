-- ===== src/Keeper/Invariants.antt =====
-- x/fundraising/keeper/invariants.go: the checks of the three reserve accounts. A check gives `true`
-- where it is broken; the messages are not kept.
use fundraising.Keeper.State.{State}
use fundraising.Keeper.Tables.{
  get_auctions, get_bids_by_auction_id, get_vesting_queues_by_auction_id,
}
use fundraising.Prelude.{
  Bool, List, [], false, if◌then◌else◌, ltb, true, ◌&&◌, ◌+◌, ◌==◌, ◌||◌, ◌∷◌,
}
use fundraising.Sdk.{Amount, Denom}
use fundraising.Sdk.Decimals.{Decimals}
use fundraising.Sdk.Outcome.{Result, err, ok, panic}
use fundraising.Types.{Auction, AuctionStatus, Bid, VestingQueue, status_eq}
use fundraising.Types.Bids.{convert_to_paying_amount}

module _ ⦃dec : Decimals⦄ where
  -- The total of the bids in the paying coin.
  unfoldable pub total_bids : Denom → List Bid → Amount
  total_bids denom [] = 0
  total_bids denom (b ∷ bs) = convert_to_paying_amount denom b + total_bids denom bs

  unfoldable pub selling_pool_broken : State → Auction → Bool
  selling_pool_broken s a =
      status_eq a.status AuctionStatus.started
      && ltb (s.bank a.selling_reserve_address a.selling_coin.denom) a.selling_coin.amount

  unfoldable pub paying_pool_broken : State → Auction → Bool
  paying_pool_broken s a =
      let total =
        if status_eq a.status AuctionStatus.started
        then total_bids a.paying_coin_denom (get_bids_by_auction_id a.id s)
        else 0 in
      ltb (s.bank a.paying_reserve_address a.paying_coin_denom) total

-- The total of the queues that are not released; a queue in another coin makes `Coin.Add` panic.
unfoldable pub total_unreleased : Denom → List VestingQueue → Result Amount
total_unreleased denom [] = ok 0
total_unreleased denom (q ∷ qs) = elim (total_unreleased denom qs) [
  | ok rest ↦
      if q.released
      then ok rest
      else if q.paying_coin.denom == denom
      then ok (q.paying_coin.amount + rest)
      else panic
  | err e ↦ err e
  | panic ↦ panic
]

unfoldable pub vesting_pool_broken : State → Auction → Result Bool
vesting_pool_broken s a =
    elim (if status_eq a.status AuctionStatus.vesting
      then total_unreleased a.paying_coin_denom (get_vesting_queues_by_auction_id a.id s)
      else ok 0) [
        | ok total ↦ ok (ltb (s.bank a.vesting_reserve_address a.paying_coin_denom) total)
        | err e ↦ err e
        | panic ↦ panic
      ]

-- The loop over the auctions, which counts the broken ones.
unfoldable pub any_broken : (Auction → Bool) → List Auction → Bool
any_broken broken [] = false
any_broken broken (a ∷ as') = broken a || any_broken broken as'

unfoldable pub any_broken_result : (Auction → Result Bool) → List Auction → Result Bool
any_broken_result broken [] = ok false
any_broken_result broken (a ∷ as') = elim (broken a) [
  | ok b ↦ elim (any_broken_result broken as') [
    | ok c ↦ ok (b || c)
    | err e ↦ err e
    | panic ↦ panic
  ]
  | err e ↦ err e
  | panic ↦ panic
]

module _ ⦃dec : Decimals⦄ where
  unfoldable pub selling_pool_reserve_amount_invariant : State → Bool
  selling_pool_reserve_amount_invariant s = any_broken (selling_pool_broken s) (get_auctions s)

  unfoldable pub paying_pool_reserve_amount_invariant : State → Bool
  paying_pool_reserve_amount_invariant s = any_broken (paying_pool_broken s) (get_auctions s)

  unfoldable pub vesting_pool_reserve_amount_invariant : State → Result Bool
  vesting_pool_reserve_amount_invariant s =
      any_broken_result (vesting_pool_broken s) (get_auctions s)

  -- `AllInvariants`: the first broken one stops.
  unfoldable pub all_invariants : State → Result Bool
  all_invariants s =
      if selling_pool_reserve_amount_invariant s
      then ok true
      else if paying_pool_reserve_amount_invariant s
      then ok true
      else vesting_pool_reserve_amount_invariant s
