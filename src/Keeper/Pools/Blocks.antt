-- ===== src/Keeper/Pools/Blocks.antt =====
-- The blocks (x/fundraising/abci.go, x/fundraising/keeper/execution.go) and the reserves.
use fundraising.Keeper.Action.{>>=-inv, modify, pure, ◌>>=◌}
use fundraising.Keeper.Bids.{as_batch}
use fundraising.Keeper.Bids.Blocks.{StaysConsistent}
use fundraising.Keeper.Bids.Consistent.{IsConsistent}
use fundraising.Keeper.Bids.Untouched.{found}
use fundraising.Keeper.Closing.{
  close_batch_auction, extend_from, extend_round, finish_batch_auction,
}
use fundraising.Keeper.Closing.Release.{release_vesting_paying_coin}
use fundraising.Keeper.Env.{Env}
use fundraising.Keeper.Execution.{
  begin_blocker, close_auction, close_if, execute_auction, execute_auctions,
  execute_stand_by_status, execute_started_status, execute_vesting_status,
}
use fundraising.Keeper.Execution.Consistent.{StaysConsistent-KeptByBlock}
use fundraising.Keeper.Execution.Keeps.{execute_auction-R}
use fundraising.Keeper.Execution.Lifecycle.{EvolvesAt, execute_auction-Writes}
use fundraising.Keeper.Execution.Writes.{Writes}
use fundraising.Keeper.Frame.{QuietHooks}
use fundraising.Keeper.Inversion.{lift-inv, must-inv}
use fundraising.Keeper.Matching.{MatchingInfo, calculate_batch_allocation}
use fundraising.Keeper.Pools.{Everyone, IsFunded, is_open}
use fundraising.Keeper.Pools.Auctions.{kept_open-IsFunded}
use fundraising.Keeper.Pools.Closing.{
  Holds, close_fixed_price_auction-IsFunded, ends, finish_batch_auction-IsFunded,
}
use fundraising.Keeper.Pools.Marked.{calculate_batch_allocation-IsFunded}
use fundraising.Keeper.Pools.Releasing.{release_queues-IsFunded}
use fundraising.Keeper.State.{State}
use fundraising.Keeper.Tables.{
  get_auction, get_auctions, get_vesting_queues_by_auction_id, set_auction,
}
use fundraising.Prelude.{
  Bool, Option, [], ap, arith, false, if◌then◌else◌, inl, inr, none, refl, some, subst, true, ℕ,
  ◌*◌, ◌++◌, ◌+◌, ◌∙◌, ◌∷◌, ◌≡◌,
}
use fundraising.Prelude.Store.{Above, IsOrdered, Store, lookup, lookup-Above, values}
use fundraising.Sdk.{Time, day}
use fundraising.Sdk.Accounts.{Accounts}
use fundraising.Sdk.Decimals.{Decimals}
use fundraising.Sdk.Outcome.{ok}
use fundraising.Types.{Auction, AuctionStatus, AuctionType}
use fundraising.Types.Auctions.{
  last_time, set_end_times, set_status, should_auction_closed, should_auction_started,
}
use mathlib.Core.Path.{sym}

module _ ⦃dec : Decimals⦄ ⦃acc : Accounts⦄ ⦃env : Env⦄ (quiet : QuietHooks) where
  module _ (a : Auction) where
    extend_from-IsFunded :
        (o : Option Time) (s t : State)
        → Holds quiet a Everyone s
        → extend_from a o s ≡ (ok tt, t)
        → IsFunded Everyone t
    unfolding extend_from set_end_times ◌>>=◌
    extend_from-IsFunded none s t h e = cc
    extend_from-IsFunded (some last) s t h e =
        let ts = a.end_times ++ (last + s.params.extended_period * day) ∷ [] in
        subst (IsFunded Everyone) (ap (λ r. r.1) e)
          (kept_open-IsFunded s a a.status ts a.kind h.0 h.1 (λ o. o))

    end_round :
        (c : Bool) (info : MatchingInfo) (s t : State)
        → Holds quiet a Everyone s
        → (if c then extend_round a else finish_batch_auction a info) s ≡ (ok tt, t)
        → IsFunded Everyone t
    unfolding extend_round
    end_round true info s t h e = extend_from-IsFunded (last_time a.end_times) s t h e
    end_round false info s t h e = finish_batch_auction-IsFunded quiet a info s t h e

    close_batch_auction-IsFunded :
        (s t : State)
        → IsConsistent s
        → Holds quiet a Everyone s
        → close_batch_auction a s ≡ (ok tt, t)
        → IsFunded Everyone t
    unfolding close_batch_auction ◌>>=◌ get_auction
    close_batch_auction-IsFunded s t c h e =
        let (f, _, e1) = lift-inv (as_batch a.kind) _ s t e in
        let (info, u, allocated, e2) = >>=-inv (calculate_batch_allocation a) _ s t e1 in
        let (f1, same) = calculate_batch_allocation-IsFunded a s c h.0 in
        let after : u ≡ (calculate_batch_allocation a s).1 = sym (ap (λ r. r.1) allocated) in
        let held : Holds quiet a Everyone u = (
          subst (IsFunded Everyone) (sym after) f1,
          ap (λ v. lookup a.id v.auctions) after ∙ ap (lookup a.id) same ∙ h.1,
        ) in
        end_round _ info u t held e2

    close_if-IsFunded :
        (o : Option Bool) (s t : State)
        → IsConsistent s
        → Holds quiet a Everyone s
        → close_if a o s ≡ (ok tt, t)
        → IsFunded Everyone t
    close_if-IsFunded none s t c h e = cc
    close_if-IsFunded (some false) s t c h e = subst (IsFunded Everyone) (ap (λ r. r.1) e) h.0
    close_if-IsFunded (some true) s t c h e = close a.typ e
      where
        close : (typ : AuctionType) → close_auction a typ s ≡ (ok tt, t) → IsFunded Everyone t
        close AuctionType.nil e = subst (IsFunded Everyone) (ap (λ r. r.1) e) h.0
        close AuctionType.fixed_price e = close_fixed_price_auction-IsFunded quiet a s t h e
        close AuctionType.batch e = close_batch_auction-IsFunded s t c h e

    execute_auction-IsFunded :
        (now : Time) (s t : State)
        → IsConsistent s
        → Holds quiet a Everyone s
        → execute_auction now a a.status s ≡ (ok tt, t)
        → IsFunded Everyone t
    unfolding execute_auction execute_stand_by_status execute_started_status execute_vesting_status
        release_vesting_paying_coin set_status ◌>>=◌
    execute_auction-IsFunded now s t c h e = go a.status refl e
      where
        opened :
            (b : Bool)
            → a.status ≡ AuctionStatus.stand_by
            → (if b then modify (set_auction (set_status AuctionStatus.started a)) else pure tt) s
              ≡ (ok tt, t)
            → IsFunded Everyone t
        opened false g e = subst (IsFunded Everyone) (ap (λ r. r.1) e) h.0
        opened true g e = subst (IsFunded Everyone) (ap (λ r. r.1) e) (
            kept_open-IsFunded s a AuctionStatus.started a.end_times a.kind h.0 h.1
              (λ o. ap is_open g))

        go :
            (st : AuctionStatus)
            → a.status ≡ st
            → execute_auction now a st s ≡ (ok tt, t)
            → IsFunded Everyone t
        go AuctionStatus.stand_by g e = opened (should_auction_started now a) g e
        go AuctionStatus.started g e = close_if-IsFunded (should_auction_closed now a) s t c h e
        go AuctionStatus.vesting g e =
            release_queues-IsFunded quiet now a (get_vesting_queues_by_auction_id a.id s) s t h
              (must-inv (release_vesting_paying_coin now a) s t e)
        go AuctionStatus.nil g e = subst (IsFunded Everyone) (ap (λ r. r.1) e) h.0
        go AuctionStatus.finished g e = subst (IsFunded Everyone) (ap (λ r. r.1) e) h.0
        go AuctionStatus.cancelled g e = subst (IsFunded Everyone) (ap (λ r. r.1) e) h.0

  -- The auctions that were read are still those that are stored.
  abbrev StillStored : State → Store Auction → Type 0
  StillStored s m = (j : ℕ) (a : Auction) → lookup j m ≡ some a → lookup j s.auctions ≡ some a

  rest_stored :
      (now : Time) (k : ℕ) (a : Auction) (m : Store Auction) (s t : State)
      → Above k m
      → a.id ≡ k
      → StillStored s ((k, a) ∷ m)
      → execute_auction now a a.status s ≡ (ok tt, t)
      → StillStored t m
  unfolding lookup
  rest_stored now k a m s t above own h e j x found =
      elim (ends (Writes (EvolvesAt quiet a)) (execute_auction now a a.status) s t
        (execute_auction-Writes quiet now a) e j) [
          | inl same ↦ same ∙ h j x (ground (arith, found, lookup-Above k m above))
          | inr (b, w, g) ↦ absurd (ground (arith, found, w.0, lookup-Above k m above))
        ]

  execute_auctions-IsFunded :
      (now : Time) (m : Store Auction) (s t : State)
      → IsOrdered m
      → StillStored s m
      → IsConsistent s
      → IsFunded Everyone s
      → execute_auctions now (values m) s ≡ (ok tt, t)
      → IsFunded Everyone t
  unfolding execute_auctions get_auction lookup
  execute_auctions-IsFunded now [] s t o h c f e = subst (IsFunded Everyone) (ap (λ r. r.1) e) f
  execute_auctions-IsFunded now ((k, a) ∷ m) s t o h c f e =
      let (_, u, e1, e2) = >>=-inv (execute_auction now a a.status) _ s t e in
      let stands = h k a (ground arith) in
      let own = (f.well_made k a stands).own_id in
      let f1 =
        execute_auction-IsFunded a now s u c
          (f, subst (λ i. lookup i s.auctions ≡ some a) (sym own) stands) e1 in
      let c1 =
        ends StaysConsistent (execute_auction now a a.status) s u
          (execute_auction-R StaysConsistent (StaysConsistent-KeptByBlock quiet) a now a.status) e1
          c in
      execute_auctions-IsFunded now m u t o.1 (rest_stored now k a m s u o.0 own h e1) c1 f1 e2

  -- If the hooks of other modules leave the state alone, and the tables of bids are consistent, a block
  -- that ends without a panic keeps the reserves funded: if before it each auction that is on stand-by or
  -- started had at least as much in its paying reserve as its bids have reserved, and in its selling
  -- reserve as it sells, then so has each after it; and auctions and bids stay stated as `IsFunded` asks
  -- besides.
  pub begin_blocker-IsFunded :
      (now : Time) (s t : State)
      → IsConsistent s
      → IsFunded Everyone s
      → begin_blocker now s ≡ (ok tt, t)
      → IsFunded Everyone t
  unfolding begin_blocker ◌>>=◌ get_auctions
  begin_blocker-IsFunded now s t c f e =
      execute_auctions-IsFunded now s.auctions s t f.auctions_ordered (λ j a g. g) c f e
