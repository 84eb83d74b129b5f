-- ===== src/Keeper/Pools/Closing.antt =====
-- Closing an auction and releasing its vested coins (x/fundraising/keeper/auction.go, vesting.go), and
-- the reserves.
use fundraising.Keeper.Action.{>>=-inv, Action, must, ◌>>=◌}
use fundraising.Keeper.Closing.{
  allocate_selling_coin, close_fixed_price_auction, finish_batch_auction, refund_paying_coin,
  refund_remaining_selling_coin,
}
use fundraising.Keeper.Env.{Env}
use fundraising.Keeper.Fees.{send_coins}
use fundraising.Keeper.Frame.{>>=-Relates, QuietHooks, Relates}
use fundraising.Keeper.Inversion.{lift-inv, must-inv}
use fundraising.Keeper.Matching.{MatchingInfo, calculate_fixed_price_allocation}
use fundraising.Keeper.Pools.{
  Everyone, IsApart, IsFunded, Others, Spares, Spares-IsFrame, Spares-IsFunded, Spares-stored,
}
use fundraising.Keeper.Pools.Auctions.{renewed-IsFunded}
use fundraising.Keeper.Pools.Transfers.{
  call_hooks-Spares, pay_out-Spares, paying-injective, paying-not_selling, selling-injective,
  send_coins-Spares, set_vesting_queues-Spares,
}
use fundraising.Keeper.State.{State}
use fundraising.Keeper.Tables.{get_auction}
use fundraising.Keeper.Vesting.{
  apply_schedules, apply_vesting_schedules, set_vesting_queues, split_queues,
}
use fundraising.Prelude.{List, [], ap, some, subst, ℕ, ◌∙◌, ◌∷◌, ◌≡◌}
use fundraising.Sdk.{Address, Coin}
use fundraising.Sdk.Accounts.{Accounts}
use fundraising.Sdk.Decimals.{Decimals}
use fundraising.Sdk.Outcome.{Result, ok}
use fundraising.Types.{Auction, AuctionStatus, VestingSchedule}
use fundraising.Types.Auctions.{set_status}
use mathlib.Core.Path.{sym}

-- A relation at an action that is known to have ended.
pub ends :
    {A : Type 0} (R : State → State → Type 0) (m : Action A) (s t : State) {r : Result A}
    → Relates R m
    → m s ≡ (r, t)
    → R s t
ends R m s t h e = subst (R s) (ap (λ x. x.1) e) (h s)

module _ ⦃dec : Decimals⦄ ⦃acc : Accounts⦄ ⦃env : Env⦄ (quiet : QuietHooks) (a : Auction) where
  -- The auction is stored, and the reserves of the auctions that `P` admits are funded.
  abbrev pub Holds : (ℕ → Type 0) → State → Type 0
  Holds P s = IsFunded P s × (get_auction a.id s ≡ some a)

  pub spare :
      (P Q : ℕ → Type 0) (s t : State)
      → ((k : ℕ) → Q k → P k)
      → Spares Q s t
      → Holds P s
      → Holds Q t
  spare P Q s t sub k (f, e) = (Spares-IsFunded P Q s t sub k f, Spares-stored Q s t k a.id a e)

  -- The reserves of this auction are apart from those of the others.
  paying-IsApart :
      (s : State)
      → Holds (Others a.id) s
      → (k : ℕ) → Others a.id k
      → IsApart k a.paying_reserve_address
  paying-IsApart s h k n =
      let own = ((h.0).well_made a.id a h.1).own_paying in
      (λ p. n (paying-injective k a.id (p ∙ own)), λ p. paying-not_selling a.id k (sym (p ∙ own)))

  -- What takes nothing from the reserves of the others leaves them funded.
  apart-Holds :
      (m : Action (Unit {0})) (s t : State)
      → Holds (Others a.id) s
      → Relates (Spares (Others a.id)) m
      → m s ≡ (ok tt, t)
      → Holds (Others a.id) t
  apart-Holds m s t h spares e =
      spare (Others a.id) (Others a.id) s t (λ k n. n) (ends (Spares (Others a.id)) m s t spares e)
        h

  weaken : (s : State) → Holds Everyone s → Holds (Others a.id) s
  weaken s h =
      spare Everyone (Others a.id) s s (λ k _. tt) ((Spares-IsFrame (Others a.id)).same s) h

  selling-IsApart :
      (s : State)
      → Holds (Others a.id) s
      → (k : ℕ) → Others a.id k
      → IsApart k a.selling_reserve_address
  selling-IsApart s h k n =
      let own = ((h.0).well_made a.id a h.1).own_selling in
      (λ p. paying-not_selling k a.id (p ∙ own), λ p. n (selling-injective k a.id (p ∙ own)))

  allocate_selling_coin-Holds :
      (info : MatchingInfo) (s t : State)
      → Holds (Others a.id) s
      → must (allocate_selling_coin a info) s ≡ (ok tt, t)
      → Holds (Others a.id) t
  unfolding allocate_selling_coin
  allocate_selling_coin-Holds info s t h e =
      apart-Holds (allocate_selling_coin a info) s t h
        (>>=-Relates (Spares (Others a.id)) (Spares-IsFrame (Others a.id)) _ _
          (call_hooks-Spares (Others a.id) quiet _)
          (λ _. pay_out-Spares (Others a.id) a.selling_reserve_address _ (selling-IsApart s h)))
        (must-inv (allocate_selling_coin a info) s t e)

  refund_remaining_selling_coin-Holds :
      (s t : State)
      → Holds (Others a.id) s
      → must (refund_remaining_selling_coin a) s ≡ (ok tt, t)
      → Holds (Others a.id) t
  unfolding refund_remaining_selling_coin
  refund_remaining_selling_coin-Holds s t h e =
      apart-Holds (refund_remaining_selling_coin a) s t h
        (>>=-Relates (Spares (Others a.id)) (Spares-IsFrame (Others a.id)) _ _
          (λ s. (Spares-IsFrame (Others a.id)).same s)
          (λ c.
            send_coins-Spares (Others a.id) a.selling_reserve_address a.auctioneer _
              (selling-IsApart s h)))
        (must-inv (refund_remaining_selling_coin a) s t e)

  refund_paying_coin-Holds :
      (info : MatchingInfo) (s t : State)
      → Holds (Others a.id) s
      → must (refund_paying_coin a info) s ≡ (ok tt, t)
      → Holds (Others a.id) t
  unfolding refund_paying_coin
  refund_paying_coin-Holds info s t h e =
      apart-Holds (refund_paying_coin a info) s t h
        (>>=-Relates (Spares (Others a.id)) (Spares-IsFrame (Others a.id)) _ _
          (λ s. (Spares-IsFrame (Others a.id)).same s)
          (λ c. pay_out-Spares (Others a.id) a.paying_reserve_address _ (paying-IsApart s h)))
        (must-inv (refund_paying_coin a info) s t e)

  pay_raised-Holds :
      (to : Address) (c : Coin) (s t : State)
      → Holds (Others a.id) s
      → send_coins a.paying_reserve_address to c s ≡ (ok tt, t)
      → Holds (Others a.id) t
  pay_raised-Holds to c s t h e =
      apart-Holds (send_coins a.paying_reserve_address to c) s t h
        (send_coins-Spares (Others a.id) a.paying_reserve_address to c (paying-IsApart s h)) e

  apply_schedules-IsFunded :
      (reserve : Coin) (ss : List VestingSchedule) (s t : State)
      → Holds (Others a.id) s
      → apply_schedules a reserve ss s ≡ (ok tt, t)
      → IsFunded Everyone t
  unfolding apply_schedules ◌>>=◌ set_status
  apply_schedules-IsFunded reserve [] s t h e =
      let (_, u, sent, e1) =
        >>=-inv (send_coins a.paying_reserve_address a.auctioneer reserve) _ s t e in
      let (f, stands) = pay_raised-Holds a.auctioneer reserve s u h sent in
      subst (IsFunded Everyone) (ap (λ r. r.1) e1) (
        renewed-IsFunded u a AuctionStatus.finished a.end_times a.kind f stands (λ o. cc) (λ o. cc))
  apply_schedules-IsFunded reserve (x ∷ ss) s t h e =
      let (_, u, sent, e1) =
        >>=-inv (send_coins a.paying_reserve_address a.vesting_reserve_address reserve) _ s t e in
      let held = pay_raised-Holds a.vesting_reserve_address reserve s u h sent in
      let (queues, _, e2) =
        lift-inv (split_queues a reserve.amount (x ∷ ss) reserve.amount) _ u t e1 in
      let v = set_vesting_queues queues u in
      let (f, stands) =
        spare (Others a.id) (Others a.id) u v (λ k n. n)
          (set_vesting_queues-Spares (Others a.id) queues u) held in
      subst (IsFunded Everyone) (ap (λ r. r.1) e2)
        (renewed-IsFunded v a AuctionStatus.vesting a.end_times a.kind f stands (λ o. cc) (λ o. cc))

  apply_vesting_schedules-IsFunded :
      (s t : State)
      → Holds (Others a.id) s
      → must (apply_vesting_schedules a) s ≡ (ok tt, t)
      → IsFunded Everyone t
  unfolding apply_vesting_schedules ◌>>=◌
  apply_vesting_schedules-IsFunded s t h e =
      apply_schedules-IsFunded _ a.vesting_schedules s t h
        (must-inv (apply_vesting_schedules a) s t e)

  pub close_fixed_price_auction-IsFunded :
      (s t : State)
      → Holds Everyone s
      → close_fixed_price_auction a s ≡ (ok tt, t)
      → IsFunded Everyone t
  unfolding close_fixed_price_auction ◌>>=◌
  close_fixed_price_auction-IsFunded s t h e =
      let info = calculate_fixed_price_allocation a s in
      let (_, u, e1, e2) = >>=-inv (must (allocate_selling_coin a info)) _ s t e in
      let (_, v, e3, e4) = >>=-inv (must (refund_remaining_selling_coin a)) _ u t e2 in
      let held =
        refund_remaining_selling_coin-Holds u v
          (allocate_selling_coin-Holds info s u (weaken s h) e1) e3 in
      apply_vesting_schedules-IsFunded v t held e4

  pub finish_batch_auction-IsFunded :
      (info : MatchingInfo) (s t : State)
      → Holds Everyone s
      → finish_batch_auction a info s ≡ (ok tt, t)
      → IsFunded Everyone t
  unfolding finish_batch_auction ◌>>=◌
  finish_batch_auction-IsFunded info s t h e =
      let (_, u, e1, e2) = >>=-inv (must (allocate_selling_coin a info)) _ s t e in
      let (_, v, e3, e4) = >>=-inv (must (refund_remaining_selling_coin a)) _ u t e2 in
      let (_, w, e5, e6) = >>=-inv (must (refund_paying_coin a info)) _ v t e4 in
      let held =
        refund_remaining_selling_coin-Holds u v
          (allocate_selling_coin-Holds info s u (weaken s h) e1) e3 in
      apply_vesting_schedules-IsFunded w t (refund_paying_coin-Holds info v w held e5) e6
