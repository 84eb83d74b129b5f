-- ===== src/Keeper/Pools/Unbroken.antt =====
-- The checks of the selling and paying reserves that the module registers
-- (x/fundraising/keeper/invariants.go), and the reserves that are kept funded.
use fundraising.Keeper.Invariants.{
  any_broken, paying_pool_broken, paying_pool_reserve_amount_invariant, selling_pool_broken,
  selling_pool_reserve_amount_invariant, total_bids,
}
use fundraising.Keeper.Pools.{Everyone, IsFunded, IsWellMade, is_open}
use fundraising.Keeper.State.{State}
use fundraising.Keeper.Tables.{get_auction, get_auctions, get_bids_by_auction_id}
use fundraising.Prelude.{
  Bool, [], ap, arith, false, if◌then◌else◌, ltb, refl, some, ℕ, ◌&&◌, ◌∷◌, ◌≡◌,
}
use fundraising.Prelude.Store.{IsOrdered, Store, lookup, lookup-Above, lookup_or, values}
use fundraising.Sdk.Accounts.{Accounts}
use fundraising.Sdk.Decimals.{Decimals}
use fundraising.Types.{Auction, AuctionStatus, status_eq}

-- A loop over stored auctions finds none broken, if none of them is.
any_broken-none :
    (broken : Auction → Bool) (m : Store Auction)
    → IsOrdered m
    → ((k : ℕ) (a : Auction) → lookup k m ≡ some a → broken a ≡ false)
    → any_broken broken (values m) ≡ false
unfolding any_broken lookup
any_broken-none broken [] o h = refl
any_broken-none broken ((k, a) ∷ m) o h =
    let head = h k a (ground arith) in
    let tail =
      any_broken-none broken m o.1 (λ j x e. h j x (ground (arith, e, lookup-Above k m o.0))) in
    cc

module _ ⦃dec : Decimals⦄ ⦃acc : Accounts⦄ where
  pool_covers :
      (s : State) (k : ℕ) (a : Auction)
      → IsFunded Everyone s
      → get_auction k s ≡ some a
      → paying_pool_broken s a ≡ false
  unfolding paying_pool_broken get_bids_by_auction_id
  pool_covers s k a f e = go a.status refl
    where
      w : IsWellMade k a
      w = f.well_made k a e

      go :
          (st : AuctionStatus)
          → a.status ≡ st
          → ltb (s.bank a.paying_reserve_address a.paying_coin_denom) (
              if status_eq st AuctionStatus.started
              then total_bids a.paying_coin_denom (values (lookup_or [] a.id s.bids))
              else 0)
            ≡ false
      go AuctionStatus.started g =
          let held = f.funded k a tt e (ap is_open g) in
          rw (w.own_paying, w.own_id) (ground (arith, held))
      go AuctionStatus.stand_by g = ground arith
      go AuctionStatus.vesting g = ground arith
      go AuctionStatus.nil g = ground arith
      go AuctionStatus.finished g = ground arith
      go AuctionStatus.cancelled g = ground arith

  stock_covers :
      (s : State) (k : ℕ) (a : Auction)
      → IsFunded Everyone s
      → get_auction k s ≡ some a
      → selling_pool_broken s a ≡ false
  unfolding selling_pool_broken
  stock_covers s k a f e = go a.status refl
    where
      go :
          (st : AuctionStatus)
          → a.status ≡ st
          → (status_eq st AuctionStatus.started
              && ltb (s.bank a.selling_reserve_address a.selling_coin.denom) a.selling_coin.amount)
            ≡ false
      go AuctionStatus.started g =
          let held = f.stocked k a tt e (ap is_open g) in
          rw (f.well_made k a e).own_selling (ground (arith, held))
      go AuctionStatus.stand_by g = refl
      go AuctionStatus.vesting g = refl
      go AuctionStatus.nil g = refl
      go AuctionStatus.finished g = refl
      go AuctionStatus.cancelled g = refl

  pub IsFunded-pool_invariants :
      (s : State)
      → IsFunded Everyone s
      → (selling_pool_reserve_amount_invariant s ≡ false)
        × (paying_pool_reserve_amount_invariant s ≡ false)
  unfolding paying_pool_reserve_amount_invariant selling_pool_reserve_amount_invariant get_auctions
      get_auction
  IsFunded-pool_invariants s f = (
    any_broken-none (selling_pool_broken s) s.auctions f.auctions_ordered
        (λ k a e. stock_covers s k a f e),
    any_broken-none (paying_pool_broken s) s.auctions f.auctions_ordered
        (λ k a e. pool_covers s k a f e),
  )
