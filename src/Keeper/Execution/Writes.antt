-- ===== src/Keeper/Execution/Writes.antt =====
-- Which entries of the auction table the methods of a block write (x/fundraising/keeper/auction.go,
-- vesting.go).
use fundraising.Keeper.Action.{Action, modify}
use fundraising.Keeper.Closing.{
  allocate_selling_coin, close_batch_auction, close_fixed_price_auction, extend_from, extend_round,
  finish_batch_auction, refund_paying_coin, refund_remaining_selling_coin,
}
use fundraising.Keeper.Closing.Release.{is_last, release_queue, release_queues}
use fundraising.Keeper.Env.{Env, call_hooks}
use fundraising.Keeper.Fees.{input_output_coins, send_coins}
use fundraising.Keeper.Frame.{>>=-Relates, IsFrame, QuietHooks, Relates, if-Relates, must-Relates}
use fundraising.Keeper.Matching.{MatchingInfo, calculate_batch_allocation, store_matched}
use fundraising.Keeper.State.{HookCall, State}
use fundraising.Keeper.Tables.{set_auction, set_bid, set_matched_bids_len, set_vesting_queue}
use fundraising.Keeper.Vesting.{apply_schedules, apply_vesting_schedules, set_vesting_queues}
use fundraising.Prelude.{
  ==_iff, Bool, Bool-cases, List, Option, [], ap, arith, inl, inr, none, refl, some, subst, sym, ℕ,
  ◌++◌, ◌==◌, ◌∙◌, ◌∷◌, ◌≡◌, ◌⊎◌,
}
use fundraising.Prelude.Store.{lookup, lookup-insert}
use fundraising.Sdk.{Address, Coin, Time}
use fundraising.Sdk.Decimals.{Decimals}
use fundraising.Types.{Auction, AuctionStatus, Bid, VestingQueue, VestingSchedule}
use fundraising.Types.Auctions.{last_time, set_end_times, set_status}

-- A table of auctions is written only with entries that `Q` admits.
abbrev pub Writes : (ℕ → Auction → Type 0) → State → State → Type 0
Writes Q s t =
    (j : ℕ)
    → (lookup j t.auctions ≡ lookup j s.auctions)
      ⊎ ((b : Auction) × Q j b × (lookup j t.auctions ≡ some b))

pub Writes-mono :
    (P Q : ℕ → Auction → Type 0)
    → ((j : ℕ) (b : Auction) → P j b → Q j b)
    → {A : Type 0} (m : Action A) → Relates (Writes P) m
    → Relates (Writes Q) m
Writes-mono P Q f m w s j = go (w s j)
  where
    t : State
    t = (m s).1

    go :
        (lookup j t.auctions ≡ lookup j s.auctions)
          ⊎ ((b : Auction) × P j b × (lookup j t.auctions ≡ some b))
        → (lookup j t.auctions ≡ lookup j s.auctions)
          ⊎ ((b : Auction) × Q j b × (lookup j t.auctions ≡ some b))
    go (inl e) = inl e
    go (inr (b, h, e)) = inr (b, f j b h, e)

module _ (Q : ℕ → Auction → Type 0) where
  pub Writes-IsFrame : IsFrame (Writes Q)
  Writes-IsFrame = record {
    same = λ s j. inl refl;
    then_also = λ s t u p q j. both s t u j (p j) (q j);
  }
    where
      both :
          (s t u : State) (j : ℕ)
          → (lookup j t.auctions ≡ lookup j s.auctions)
            ⊎ ((b : Auction) × Q j b × (lookup j t.auctions ≡ some b))
          → (lookup j u.auctions ≡ lookup j t.auctions)
            ⊎ ((b : Auction) × Q j b × (lookup j u.auctions ≡ some b))
          → (lookup j u.auctions ≡ lookup j s.auctions)
            ⊎ ((b : Auction) × Q j b × (lookup j u.auctions ≡ some b))
      both s t u j p (inr q) = inr q
      both s t u j (inl p) (inl q) = inl (q ∙ p)
      both s t u j (inr (b, h, p)) (inl q) = inr (b, h, q ∙ p)

  -- What leaves the table alone.
  same_table : (s t : State) → t.auctions ≡ s.auctions → Writes Q s t
  same_table s t e j = inl (ap (lookup j) e)

  pub set_auction-Writes : (a : Auction) → Q a.id a → Relates (Writes Q) (modify (set_auction a))
  unfolding set_auction
  set_auction-Writes a h s j = elim (Bool-cases (j == a.id)) [
    | inl e ↦ inr (a, subst (λ i. Q i a) (sym ((==_iff j a.id).0 e)) h, rw (lookup-insert, e) refl)
    | inr e ↦ inl (rw (lookup-insert, e) refl)
  ]

  store_matched-auctions : (bs : List Bid) (s : State) → (store_matched bs s).auctions ≡ s.auctions
  unfolding store_matched set_bid
  store_matched-auctions [] s = refl
  store_matched-auctions (b ∷ bs) s = store_matched-auctions bs _

  set_vesting_queues-auctions :
      (qs : List VestingQueue) (s : State) → (set_vesting_queues qs s).auctions ≡ s.auctions
  unfolding set_vesting_queues set_vesting_queue
  set_vesting_queues-auctions [] s = refl
  set_vesting_queues-auctions (q ∷ qs) s = set_vesting_queues-auctions qs _

  module _ ⦃env : Env⦄ where
    pub send_coins-Writes :
        (from to : Address) (c : Coin) → Relates (Writes Q) (send_coins from to c)
    unfolding send_coins
    send_coins-Writes from to c s = same_table s (send_coins from to c s).1 (ground arith)

    pub input_output_coins-Writes :
        (inputs outputs : List (Address × Coin))
        → Relates (Writes Q) (input_output_coins inputs outputs)
    unfolding input_output_coins
    input_output_coins-Writes inputs outputs s =
        same_table s (input_output_coins inputs outputs s).1 (ground arith)

    pub call_hooks-Writes : QuietHooks → (c : HookCall) → Relates (Writes Q) (modify (call_hooks c))
    call_hooks-Writes quiet c s =
        same_table s (call_hooks c s) (ap (λ (t : State). t.auctions) (quiet c s))

    module _ (quiet : QuietHooks) where
      pub allocate_selling_coin-Writes :
          (a : Auction) (info : MatchingInfo) → Relates (Writes Q) (allocate_selling_coin a info)
      unfolding allocate_selling_coin
      allocate_selling_coin-Writes a info =
          >>=-Relates (Writes Q) Writes-IsFrame _ _ (call_hooks-Writes quiet _)
            (λ _. input_output_coins-Writes _ _)

      pub refund_remaining_selling_coin-Writes :
          (a : Auction) → Relates (Writes Q) (refund_remaining_selling_coin a)
      unfolding refund_remaining_selling_coin
      refund_remaining_selling_coin-Writes a =
          >>=-Relates (Writes Q) Writes-IsFrame _ _ (λ s. Writes-IsFrame.same s)
            (λ _. send_coins-Writes _ _ _)

      pub refund_paying_coin-Writes :
          (a : Auction) (info : MatchingInfo) → Relates (Writes Q) (refund_paying_coin a info)
      unfolding refund_paying_coin
      refund_paying_coin-Writes a info =
          >>=-Relates (Writes Q) Writes-IsFrame _ _ (λ s. Writes-IsFrame.same s)
            (λ _. input_output_coins-Writes _ _)

      -- Closing an auction stores it with a later status.
      module _ ⦃dec : Decimals⦄ (a : Auction) (vests : Q a.id (set_status AuctionStatus.vesting a))
          (finishes : Q a.id (set_status AuctionStatus.finished a)) where
        pub apply_schedules-Writes :
            (reserve : Coin) (ss : List VestingSchedule)
            → Relates (Writes Q) (apply_schedules a reserve ss)
        unfolding apply_schedules set_status
        apply_schedules-Writes reserve [] =
            >>=-Relates (Writes Q) Writes-IsFrame _ _ (send_coins-Writes _ _ _)
              (λ _. set_auction-Writes (set_status AuctionStatus.finished a) finishes)
        apply_schedules-Writes reserve (x ∷ ss) =
            >>=-Relates (Writes Q) Writes-IsFrame _ _ (send_coins-Writes _ _ _) (λ _.
              >>=-Relates (Writes Q) Writes-IsFrame _ _ (λ s. Writes-IsFrame.same s)
                (λ qs.
                  >>=-Relates (Writes Q) Writes-IsFrame _ _
                    (λ s. same_table s (set_vesting_queues qs s) (set_vesting_queues-auctions qs s))
                    (λ _. set_auction-Writes (set_status AuctionStatus.vesting a) vests)))

        pub apply_vesting_schedules-Writes : Relates (Writes Q) (apply_vesting_schedules a)
        unfolding apply_vesting_schedules
        apply_vesting_schedules-Writes =
            >>=-Relates (Writes Q) Writes-IsFrame _ _ (λ s. Writes-IsFrame.same s)
              (λ _. apply_schedules-Writes _ a.vesting_schedules)

        pub close_fixed_price_auction-Writes : Relates (Writes Q) (close_fixed_price_auction a)
        unfolding close_fixed_price_auction
        close_fixed_price_auction-Writes =
            >>=-Relates (Writes Q) Writes-IsFrame _ _ (λ s. Writes-IsFrame.same s)
              (λ info.
                >>=-Relates (Writes Q) Writes-IsFrame _ _
                  (must-Relates (Writes Q) Writes-IsFrame _ (allocate_selling_coin-Writes a info))
                  (λ _.
                    >>=-Relates (Writes Q) Writes-IsFrame _ _
                      (must-Relates (Writes Q) Writes-IsFrame _
                        (refund_remaining_selling_coin-Writes a))
                      (λ _.
                        must-Relates (Writes Q) Writes-IsFrame _ apply_vesting_schedules-Writes)))

        pub finish_batch_auction-Writes :
            (info : MatchingInfo) → Relates (Writes Q) (finish_batch_auction a info)
        unfolding finish_batch_auction
        finish_batch_auction-Writes info =
            >>=-Relates (Writes Q) Writes-IsFrame _ _
              (must-Relates (Writes Q) Writes-IsFrame _ (allocate_selling_coin-Writes a info))
              (λ _.
                >>=-Relates (Writes Q) Writes-IsFrame _ _
                  (must-Relates (Writes Q) Writes-IsFrame _
                    (refund_remaining_selling_coin-Writes a))
                  (λ _.
                    >>=-Relates (Writes Q) Writes-IsFrame _ _
                      (must-Relates (Writes Q) Writes-IsFrame _ (refund_paying_coin-Writes a info))
                      (λ _.
                        must-Relates (Writes Q) Writes-IsFrame _ apply_vesting_schedules-Writes)))

        pub calculate_batch_allocation-Writes : Relates (Writes Q) (calculate_batch_allocation a)
        unfolding calculate_batch_allocation set_matched_bids_len
        calculate_batch_allocation-Writes =
            >>=-Relates (Writes Q) Writes-IsFrame _ _ (λ s. Writes-IsFrame.same s)
              (λ _.
                >>=-Relates (Writes Q) Writes-IsFrame _ _ (λ s. Writes-IsFrame.same s)
                  (λ _.
                    >>=-Relates (Writes Q) Writes-IsFrame _ _ (λ s. Writes-IsFrame.same s)
                      (λ _.
                        >>=-Relates (Writes Q) Writes-IsFrame _ _ (λ s. Writes-IsFrame.same s)
                          (λ r.
                            >>=-Relates (Writes Q) Writes-IsFrame _ _
                              (λ s.
                                same_table s (store_matched r.matched_bids s)
                                  (store_matched-auctions r.matched_bids s))
                              (λ _.
                                >>=-Relates (Writes Q) Writes-IsFrame _ _ (λ s j. inl refl)
                                  (λ _ s. Writes-IsFrame.same s))))))

        -- A round that is extended adds one end time.
        pub extend_round-Writes :
            ((t : Time) → Q a.id (set_end_times (a.end_times ++ t ∷ []) a))
            → Relates (Writes Q) (extend_round a)
        unfolding extend_round set_end_times
        extend_round-Writes extends = go (last_time a.end_times)
          where
            go : (o : Option Time) → Relates (Writes Q) (extend_from a o)
            go none = λ s. Writes-IsFrame.same s
            go (some t) =
                >>=-Relates (Writes Q) Writes-IsFrame _ _ (λ s. Writes-IsFrame.same s)
                  (λ params. set_auction-Writes _ (extends _))

        pub close_batch_auction-Writes :
            ((t : Time) → Q a.id (set_end_times (a.end_times ++ t ∷ []) a))
            → Relates (Writes Q) (close_batch_auction a)
        unfolding close_batch_auction
        close_batch_auction-Writes extends =
            >>=-Relates (Writes Q) Writes-IsFrame _ _ (λ s. Writes-IsFrame.same s)
              (λ f.
                >>=-Relates (Writes Q) Writes-IsFrame _ _ (λ s. Writes-IsFrame.same s)
                  (λ last.
                    >>=-Relates (Writes Q) Writes-IsFrame _ _ calculate_batch_allocation-Writes
                      (λ info.
                        if-Relates (Writes Q) Writes-IsFrame _ _ _ (extend_round-Writes extends)
                          (finish_batch_auction-Writes info))))

      pub release_queue-Writes :
          (now : Time) (a : Auction) (q : VestingQueue) (last : Bool)
          → Q a.id (set_status AuctionStatus.finished a)
          → Relates (Writes Q) (release_queue now a q last)
      unfolding release_queue set_vesting_queue set_status
      release_queue-Writes now a q last finishes =
          if-Relates (Writes Q) Writes-IsFrame _ _ _
            (>>=-Relates (Writes Q) Writes-IsFrame _ _ (send_coins-Writes _ _ _) (λ _.
              >>=-Relates (Writes Q) Writes-IsFrame _ _ (λ s j. inl refl)
                (λ _.
                  if-Relates (Writes Q) Writes-IsFrame _ _ _
                    (set_auction-Writes (set_status AuctionStatus.finished a) finishes)
                    (λ s. Writes-IsFrame.same s))))
            (λ s. Writes-IsFrame.same s)

      pub release_queues-Writes :
          (now : Time) (a : Auction) (qs : List VestingQueue)
          → Q a.id (set_status AuctionStatus.finished a)
          → Relates (Writes Q) (release_queues now a qs)
      unfolding release_queues
      release_queues-Writes now a [] finishes = λ s. Writes-IsFrame.same s
      release_queues-Writes now a (q ∷ qs) finishes =
          >>=-Relates (Writes Q) Writes-IsFrame _ _
            (release_queue-Writes now a q (is_last qs) finishes)
            (λ _. release_queues-Writes now a qs finishes)
