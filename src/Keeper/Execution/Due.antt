-- ===== src/Keeper/Execution/Due.antt =====
-- What a block does to the auctions that are due (x/fundraising/abci.go, keeper/execution.go).
use fundraising.Keeper.Action.{>>=-inv, modify, pure, ◌>>=◌}
use fundraising.Keeper.Bids.Untouched.{found}
use fundraising.Keeper.Env.{Env}
use fundraising.Keeper.Execution.{
  begin_blocker, close_auction, close_if, execute_auction, execute_auctions,
  execute_stand_by_status, execute_started_status,
}
use fundraising.Keeper.Execution.Lifecycle.{
  EvolvesAny, IsKeyed, evolved_from, execute_auctions-Writes,
}
use fundraising.Keeper.Execution.Progress.{
  Closed, Extended, close_batch_auction-Progress, close_fixed_price_auction-Closed, stored_as,
}
use fundraising.Keeper.Execution.Writes.{Writes}
use fundraising.Keeper.Frame.{QuietHooks}
use fundraising.Keeper.State.{State}
use fundraising.Keeper.Tables.{get_auction, get_auctions, set_auction}
use fundraising.Prelude.{
  Bool, Bool-cases, [], arith, false, if◌then◌else◌, inl, inr, ltb, none, not, refl, some, subst,
  true, ℕ, ◌==◌, ◌∙◌, ◌∷◌, ◌≡◌, ◌≢◌, ◌≤◌, ◌⊎◌,
}
use fundraising.Prelude.Store.{Above, IsOrdered, Store, lookup, lookup-Above, values}
use fundraising.Sdk.{Time}
use fundraising.Sdk.Decimals.{Decimals}
use fundraising.Sdk.Outcome.{ok}
use fundraising.Types.{Auction, AuctionStatus, AuctionType}
use fundraising.Types.Auctions.{
  last_time, set_status, should_auction_closed, should_auction_started,
}
use mathlib.Core.Path.{sym}

-- What the loop of a block has done to one of its auctions: it was handled, in some state, and is
-- stored as that left it.
record Handled ⦃dec : Decimals⦄ ⦃env : Env⦄ (now : Time) (a : Auction) (t : State) : Type 0 where
  before : State
  behind : State
  handled : execute_auction now a a.status before ≡ (ok tt, behind)
  left_as : get_auction a.id t ≡ get_auction a.id behind

module _ ⦃dec : Decimals⦄ ⦃env : Env⦄ (quiet : QuietHooks) (now : Time) where
  left_alone :
      (k : ℕ) (m : Store Auction) (u t : State)
      → Above k m
      → IsOrdered m
      → IsKeyed m
      → execute_auctions now (values m) u ≡ (ok tt, t)
      → get_auction k t ≡ get_auction k u
  unfolding get_auction
  left_alone k m u t above o key e =
      elim (subst (λ r. Writes (EvolvesAny quiet (values m)) u r.1) e
        (execute_auctions-Writes quiet now (values m) u) k) [
          | inl same ↦ same
          | inr (b, w, _) ↦
              let (x, found, _) = evolved_from quiet m k b o key w in
              absurd (ground (arith, found, lookup-Above k m above))
        ]

  loop-Handled :
      (m : Store Auction) (j : ℕ) (a : Auction) (s t : State)
      → IsOrdered m
      → IsKeyed m
      → lookup j m ≡ some a
      → execute_auctions now (values m) s ≡ (ok tt, t)
      → Handled now a t
  unfolding execute_auctions lookup
  loop-Handled [] j a s t o key found h = cc
  loop-Handled ((k, x) ∷ m) j a s t o key found h =
      let (_, u, e, e1) = >>=-inv (execute_auction now x x.status) _ s t h in
      elim (Bool-cases (j == k)) [
        | inl p ↦
            let same : x ≡ a = ground (arith, found) in
            subst (λ y. Handled now y t) same
              (record {
                before = s;
                behind = u;
                handled = e;
                left_as =
                    left_alone x.id m u t (subst (λ i. Above i m) (sym key.0) o.0) o.1 key.1 e1;
              })
        | inr p ↦ loop-Handled m j a u t o.1 key.1 (ground (arith, found)) e1
      ]

  block-Handled :
      (s t : State) (j : ℕ) (a : Auction)
      → IsOrdered s.auctions
      → IsKeyed s.auctions
      → get_auction j s ≡ some a
      → begin_blocker now s ≡ (ok tt, t)
      → Handled now a t
  unfolding begin_blocker ◌>>=◌ get_auctions get_auction
  block-Handled s t j a o key found h = loop-Handled s.auctions j a s t o key found h

  started_now :
      (a : Auction) (u v : State)
      → a.status ≡ AuctionStatus.stand_by
      → a.start_time ≤ now
      → execute_auction now a a.status u ≡ (ok tt, v)
      → get_auction a.id v ≡ some (set_status AuctionStatus.started a)
  unfolding execute_auction execute_stand_by_status should_auction_started
  started_now a u v e due h =
      let h1 : execute_stand_by_status now a u ≡ (ok tt, v) =
        subst (λ st. execute_auction now a st u ≡ (ok tt, v)) e h in
      go (not (ltb now a.start_time)) (ground arith) h1
    where
      go :
          (c : Bool)
          → c ≡ true
          → (if c then modify (set_auction (set_status AuctionStatus.started a)) else pure tt) u
            ≡ (ok tt, v)
          → get_auction a.id v ≡ some (set_status AuctionStatus.started a)
      go true p h = stored_as a AuctionStatus.started u v h
      go false p h = cc

  due_end :
      (a : Auction) (end_time : Time) (u v : State)
      → a.status ≡ AuctionStatus.started
      → a.typ ≢ AuctionType.nil
      → last_time a.end_times ≡ some end_time
      → end_time ≤ now
      → execute_auction now a a.status u ≡ (ok tt, v)
      → Closed a v ⊎ ((a.typ ≡ AuctionType.batch) × Extended a v)
  unfolding execute_auction execute_started_status should_auction_closed
  due_end a end_time u v e typed last due h =
      let h1 : close_if a (should_auction_closed now a) u ≡ (ok tt, v) =
        subst (λ st. execute_auction now a st u ≡ (ok tt, v)) e h in
      let over : should_auction_closed now a ≡ some true =
        subst (λ o. elim o [ none ↦ none | some x ↦ some (not (ltb now x)) ] ≡ some true) (sym last)
          (ground arith) in
      go a.typ refl (subst (λ o. close_if a o u ≡ (ok tt, v)) over h1)
    where
      go :
          (typ : AuctionType)
          → a.typ ≡ typ
          → close_auction a typ u ≡ (ok tt, v)
          → Closed a v ⊎ ((a.typ ≡ AuctionType.batch) × Extended a v)
      go AuctionType.nil g h = absurd (typed g)
      go AuctionType.fixed_price g h = inl (close_fixed_price_auction-Closed a u v h)
      go AuctionType.batch g h = elim (close_batch_auction-Progress a u v h) [
        | inl c ↦ inl c
        | inr x ↦ inr (g, x)
      ]

  -- If the hooks leave the state alone, a block that ends without a panic leaves every auction that was on
  -- stand-by, and whose start time has come, stored as started and otherwise as it was.
  pub begin_blocker_starts :
      (s t : State) (a : Auction)
      → IsOrdered s.auctions
      → IsKeyed s.auctions
      → get_auction a.id s ≡ some a
      → a.status ≡ AuctionStatus.stand_by
      → a.start_time ≤ now
      → begin_blocker now s ≡ (ok tt, t)
      → get_auction a.id t ≡ some (set_status AuctionStatus.started a)
  begin_blocker_starts s t a o key found st due h =
      let r = block-Handled s t a.id a o key found h in
      r.left_as ∙ started_now a r.before r.behind st due r.handled

  pub begin_blocker_closes :
      (s t : State) (a : Auction) (end_time : Time)
      → IsOrdered s.auctions
      → IsKeyed s.auctions
      → get_auction a.id s ≡ some a
      → a.status ≡ AuctionStatus.started
      → a.typ ≢ AuctionType.nil
      → last_time a.end_times ≡ some end_time
      → end_time ≤ now
      → begin_blocker now s ≡ (ok tt, t)
      → Closed a t ⊎ ((a.typ ≡ AuctionType.batch) × Extended a t)
  begin_blocker_closes s t a end_time o key found st typed last due h =
      let r = block-Handled s t a.id a o key found h in
      elim (due_end a end_time r.before r.behind st typed last due r.handled) [
        | inl c ↦ inl (r.left_as ∙ c)
        | inr (g, (f, k, n, e, x)) ↦ inr (g, (f, k, n, e, r.left_as ∙ x))
      ]
