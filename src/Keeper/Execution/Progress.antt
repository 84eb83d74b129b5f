-- ===== src/Keeper/Execution/Progress.antt =====
-- How an auction is stored after it was closed (x/fundraising/keeper/auction.go).
use fundraising.Keeper.Action.{>>=-inv, modify, must, ◌>>=◌}
use fundraising.Keeper.Bids.{as_batch}
use fundraising.Keeper.Closing.{
  allocate_selling_coin, close_batch_auction, close_fixed_price_auction, extend_from, extend_round,
  finish_batch_auction, needs_extended_round, reduced_by, refund_paying_coin,
  refund_remaining_selling_coin,
}
use fundraising.Keeper.Env.{Env}
use fundraising.Keeper.Fees.{send_coins}
use fundraising.Keeper.Inversion.{lift-inv, must-inv}
use fundraising.Keeper.Matching.{
  MatchingInfo, calculate_batch_allocation, calculate_fixed_price_allocation,
}
use fundraising.Keeper.State.{State}
use fundraising.Keeper.Tables.{get_auction, get_last_matched_bids_len, set_auction}
use fundraising.Keeper.Vesting.{
  apply_schedules, apply_vesting_schedules, set_vesting_queues, split_queues,
}
use fundraising.Prelude.{
  ==_iff, Bool, List, Option, [], ap, arith, false, if◌then◌else◌, inl, inr, length, none, refl,
  some, subst, true, ℕ, ◌%◌, ◌*◌, ◌++◌, ◌+◌, ◌==◌, ◌^◌, ◌||◌, ◌∙◌, ◌∷◌, ◌≡◌, ◌≢◌, ◌⊎◌,
}
use fundraising.Prelude.Store.{lookup-insert}
use fundraising.Sdk.{Coin, Time, day}
use fundraising.Sdk.Decimals.{Decimals}
use fundraising.Sdk.Outcome.{ok}
use fundraising.Types.{
  Auction, AuctionStatus, BatchFields, Kind, VestingSchedule, batch_auction, fixed_price_auction,
}
use fundraising.Types.Auctions.{last_time, set_end_times, set_status}

-- How an auction is stored once it is closed: with vesting to come, or not.
abbrev pub closed_status : List VestingSchedule → AuctionStatus
closed_status [] = AuctionStatus.finished
closed_status (x ∷ xs) = AuctionStatus.vesting

get_auction-set_auction : (a : Auction) (s : State) → get_auction a.id (set_auction a s) ≡ some a
unfolding get_auction set_auction
get_auction-set_auction a s = lookup-insert a.id a.id a s.auctions ∙ ground arith

module _ (a : Auction) where
  abbrev pub Closed : State → Type 0
  Closed t = get_auction a.id t ≡ some (set_status (closed_status a.vesting_schedules) a)

  -- Another round: a batch auction that has had fewer than all its rounds stays started, with one more
  -- end time.
  abbrev pub Extended : State → Type 0
  Extended t =
      (f : BatchFields) × (a.kind ≡ batch_auction f)
      × (f.max_extended_round + 1) % 2 ^ 32 ≢ length a.end_times % 2 ^ 32
      × (e : Time) × (get_auction a.id t ≡ some (set_end_times (a.end_times ++ e ∷ []) a))

  pub stored_as :
      (st : AuctionStatus) (u t : State)
      → modify (set_auction (set_status st a)) u ≡ (ok tt, t)
      → get_auction a.id t ≡ some (set_status st a)
  unfolding set_status
  stored_as st u t e =
      subst (λ v. get_auction a.id v ≡ some (set_status st a)) (ap (λ r. r.1) e)
        (get_auction-set_auction (set_status st a) u)

module _ ⦃dec : Decimals⦄ ⦃env : Env⦄ (a : Auction) where
  apply_schedules-Closed :
      (c : Coin) (ss : List VestingSchedule) (s t : State)
      → apply_schedules a c ss s ≡ (ok tt, t)
      → get_auction a.id t ≡ some (set_status (closed_status ss) a)
  unfolding apply_schedules ◌>>=◌
  apply_schedules-Closed c [] s t h =
      let (_, u, _, e) = >>=-inv (send_coins a.paying_reserve_address a.auctioneer c) _ s t h in
      stored_as a AuctionStatus.finished u t e
  apply_schedules-Closed c (x ∷ ss) s t h =
      let (_, u, _, e) =
        >>=-inv (send_coins a.paying_reserve_address a.vesting_reserve_address c) _ s t h in
      let (queues, _, e1) = lift-inv (split_queues a c.amount (x ∷ ss) c.amount) _ u t e in
      stored_as a AuctionStatus.vesting (set_vesting_queues queues u) t e1

  apply_vesting_schedules-Closed :
      (s t : State) → must (apply_vesting_schedules a) s ≡ (ok tt, t) → Closed a t
  unfolding apply_vesting_schedules ◌>>=◌
  apply_vesting_schedules-Closed s t h =
      apply_schedules-Closed _ a.vesting_schedules s t (must-inv (apply_vesting_schedules a) s t h)

  pub close_fixed_price_auction-Closed :
      (s t : State) → close_fixed_price_auction a s ≡ (ok tt, t) → Closed a t
  unfolding close_fixed_price_auction ◌>>=◌
  close_fixed_price_auction-Closed s t h =
      let info = calculate_fixed_price_allocation a s in
      let (_, u, _, e) = >>=-inv (must (allocate_selling_coin a info)) _ s t h in
      let (_, v, _, e1) = >>=-inv (must (refund_remaining_selling_coin a)) _ u t e in
      apply_vesting_schedules-Closed v t e1

  finish_batch_auction-Closed :
      (info : MatchingInfo) (s t : State) → finish_batch_auction a info s ≡ (ok tt, t) → Closed a t
  unfolding finish_batch_auction ◌>>=◌
  finish_batch_auction-Closed info s t h =
      let (_, u, _, e) = >>=-inv (must (allocate_selling_coin a info)) _ s t h in
      let (_, v, _, e1) = >>=-inv (must (refund_remaining_selling_coin a)) _ u t e in
      let (_, w, _, e2) = >>=-inv (must (refund_paying_coin a info)) _ v t e1 in
      apply_vesting_schedules-Closed w t e2

  extend_from-Extended :
      (f : BatchFields) (o : Option Time) (s t : State)
      → a.kind ≡ batch_auction f
      → (f.max_extended_round + 1) % 2 ^ 32 ≢ length a.end_times % 2 ^ 32
      → extend_from a o s ≡ (ok tt, t)
      → Extended a t
  unfolding extend_from set_end_times ◌>>=◌
  extend_from-Extended f none s t k n h = cc
  extend_from-Extended f (some last) s t k n h =
      let e = last + s.params.extended_period * day in
      (
        f,
        k,
        n,
        e,
        subst (λ v. get_auction a.id v ≡ some (set_end_times (a.end_times ++ e ∷ []) a))
            (ap (λ r. r.1) h) (get_auction-set_auction (set_end_times (a.end_times ++ e ∷ []) a) s),
      )

  not_last_round :
      (f : BatchFields) (last current : ℕ)
      → needs_extended_round f (length a.end_times) last current ≡ true
      → (f.max_extended_round + 1) % 2 ^ 32 ≢ length a.end_times % 2 ^ 32
  unfolding needs_extended_round
  not_last_round f last current h e = go _ ((==_iff _ _).1 e) h
    where
      go :
          (c : Bool)
          → c ≡ true
          → (if c then false else (last == 0 || reduced_by f.extended_round_rate current last))
            ≡ true
          → ⊥
      go true p q = cc
      go false p q = cc

  pub close_batch_auction-Progress :
      (s t : State) → close_batch_auction a s ≡ (ok tt, t) → Closed a t ⊎ Extended a t
  unfolding close_batch_auction ◌>>=◌ extend_round
  close_batch_auction-Progress s t h =
      let (f, k, e) = lift-inv (as_batch a.kind) _ s t h in
      let (info, u, _, e1) = >>=-inv (calculate_batch_allocation a) _ s t e in
      go f (is_batch a.kind f k) info u
        (needs_extended_round f (length a.end_times) (get_last_matched_bids_len a.id s)
          info.matched_len)
        refl e1
    where
      is_batch : (kd : Kind) (f : BatchFields) → as_batch kd ≡ ok f → kd ≡ batch_auction f
      is_batch (batch_auction g) f e = cc
      is_batch (fixed_price_auction c) f e = cc

      go :
          (f : BatchFields)
          → a.kind ≡ batch_auction f
          → (info : MatchingInfo) (u : State) (c : Bool)
          → needs_extended_round f
              (length a.end_times)
              (get_last_matched_bids_len a.id s)
              info.matched_len
            ≡ c
          → (if c then extend_round a else finish_batch_auction a info) u ≡ (ok tt, t)
          → Closed a t ⊎ Extended a t
      go f k info u true n h =
          inr (extend_from-Extended f (last_time a.end_times) u t k (not_last_round f _ _ n) h)
      go f k info u false n h = inl (finish_batch_auction-Closed info u t h)
