-- ===== src/Types/Matching/Reserved.antt =====
-- What `Match` (x/fundraising/types/match.go) makes a bidder pay, against what the bids have
-- reserved, and which bids it matches.
use fundraising.Prelude.{
  All, Bool, Bool-cases, List, [], ap, arith, false, inl, inr, ltb, min, some, subst, ℕ, ◌*◌, ◌+◌,
  ◌<◌, ◌∙◌, ◌∷◌, ◌≡◌, ◌≢◌, ◌≤◌, ◌⊎◌,
}
use fundraising.Prelude.Store.{Store, lookup, lookup_or}
use fundraising.Sdk.{Address, Amount, Denom}
use fundraising.Sdk.Decimals.{Decimal, Decimals, ceil_mul, floor_quo_bounds}
use fundraising.Sdk.Outcome.{and_then-some, ok}
use fundraising.Types.{AllowedBidder, Bid, BidType}
use fundraising.Types.Bids.{convert_to_paying_amount}
use fundraising.Types.Matching.{
  MatchResult, MatchState, bid_amount, bids_by_price, initial_match, match_at, match_bid,
  match_bids, match_prices, paying_amount_at,
}
use fundraising.Types.Matching.Bounds.{
  add_result-paying, paying_amount_at_bounds, paying_in, record_match-results, share,
}
use fundraising.Types.Matching.Groups.{HoldsGroups, bids_by_price-HoldsGroups, bids_by_price-total}
use fundraising.Types.Matching.Limits.{match_at-MatchInv, match_bid-Records}
use fundraising.Types.Matching.OrderBook.{All-map, total_by}
use mathlib.Core.Path.{sym}
use native.Mathlib.Nat.{mul-le-mul, mul-le-mul_right}

some_inj : {A : Type 0} {x y : A} → some x ≡ some y → x ≡ y
some_inj h = cc

same_state : {x y : MatchState} → ok (some x) ≡ ok (some y) → x ≡ y
same_state h = cc

module _ (p : Decimal) where
  le_price : (q : Decimal) (b : Bid) → ltb q p ≡ false → b.price ≡ q → p ≤ b.price
  le_price q b h e = ground arith

-- A bid of a batch auction: stated in the paying coin, or in another one.
abbrev pub IsPayable : Denom → Bid → Type 0
IsPayable denom b =
    (0 < b.price)
    × (((b.typ ≡ BidType.batch_worth) × (b.coin.denom ≡ denom))
        ⊎ ((b.typ ≡ BidType.batch_many) × (b.coin.denom ≢ denom)))

module _ ⦃dec : Decimals⦄ (denom : Denom) where
  -- What the bids of bidder `k` have reserved.
  abbrev pub reserved_by : ℕ → Bid → Amount
  reserved_by k b = share k b.bidder (convert_to_paying_amount denom b)

  abbrev pub reserved_in : ℕ → List Bid → Amount
  reserved_in k = total_by (reserved_by k)

  module _ (p : Decimal) (p_pos : 0 < p) where
    -- At a price that is not above its own, a bid is never charged more than it has reserved.
    paying_amount_at-le :
        (b : Bid) (bid_amt amt : Amount)
        → IsPayable denom b
        → p ≤ b.price
        → bid_amount p b b.typ ≡ some bid_amt
        → amt ≤ bid_amt
        → paying_amount_at p amt ≤ convert_to_paying_amount denom b
    unfolding bid_amount convert_to_paying_amount
    paying_amount_at-le b bid_amt amt (_, inl (worth, paying)) le e below =
        let e' = some_inj (sym (ap (bid_amount p b) worth) ∙ e) in
        let (fits, _) = floor_quo_bounds b.coin.amount p p_pos in
        let (_, ceiling) = paying_amount_at_bounds p amt in
        let scaled : amt * p ≤ bid_amt * p = mul-le-mul_right p below in ground arith
    paying_amount_at-le b bid_amt amt (_, inr (many, other)) le e below =
        let e' = some_inj (sym (ap (bid_amount p b) many) ∙ e) in
        let scaled : amt * p ≤ b.coin.amount * b.price =
          mul-le-mul (subst (λ (x : ℕ). amt ≤ x) (sym e') below) le in
        ground (arith, ceil_mul b.coin.amount b.price, paying_amount_at_bounds p amt)

    module _ (selling_amt : Amount) (k : ℕ) where
      abbrev paying_of : MatchState → Amount
      paying_of st = paying_in k st.res.match_result_by_bidder

      match_bid-paying :
          (b : Bid) (st st' : MatchState)
          → IsPayable denom b
          → p ≤ b.price
          → match_bid p selling_amt b st ≡ ok (some st')
          → paying_of st' ≤ paying_of st + reserved_by k b
      match_bid-paying b st st' payable le h =
          let (x, left, ex, _, _, e) = match_bid-Records p selling_amt b st st' h in
          let amt = min x left in
          let within = paying_amount_at-le b x amt payable le ex (omega arith) in
          let results = record_match-results p selling_amt (λ _. 0) b amt left st in
          let after =
            add_result-paying b.bidder amt (paying_amount_at p amt) st.res.match_result_by_bidder
              k in
          rw (e, results, after) (ground arith)

      match_bids-paying :
          (bs : List Bid) (st st' : MatchState)
          → All (λ b. (p ≤ b.price) × IsPayable denom b) bs
          → match_bids p selling_amt bs st ≡ ok (some st')
          → paying_of st' ≤ paying_of st + reserved_in k bs
      unfolding match_bids
      match_bids-paying [] st st' a h =
          subst (λ t. paying_of t ≤ paying_of st + 0) (same_state h) (omega arith)
      match_bids-paying (b ∷ bs) st st' a h =
          let (t, e, f) =
            and_then-some (match_bid p selling_amt b st) (match_bids p selling_amt bs) h in
          omega (arith, match_bid-paying b st t a.0.1 a.0.0 e, match_bids-paying bs t st' a.1 f)

      -- Over all the prices, a bidder pays at most what the bids at these prices have reserved.
      pub match_prices-paying :
          (by_price : Store (List Bid)) (ps : List Decimal) (st st' : MatchState)
          → HoldsGroups (IsPayable denom) by_price
          → match_prices p selling_amt by_price ps st ≡ ok (some st')
          → paying_of st'
            ≤ paying_of st + total_by (λ (q : ℕ). reserved_in k (lookup_or [] q by_price)) ps
      unfolding match_prices
      match_prices-paying by_price [] st st' g h =
          subst (λ t. paying_of t ≤ paying_of st + 0) (same_state h) (omega arith)
      match_prices-paying by_price (q ∷ ps) st st' g h = elim (Bool-cases (ltb q p)) [
        | inl below ↦
            subst
              (λ t.
                paying_of t
                ≤ paying_of st
                  + total_by (λ (r : ℕ). reserved_in k (lookup_or [] r by_price)) (q ∷ ps))
              (same_state (rw below at h)) (omega arith)
        | inr reached ↦
            let group = lookup_or [] q by_price in
            let (t, e, f) =
              and_then-some (match_bids p selling_amt group st)
                (match_prices p selling_amt by_price ps) (rw reached at h) in
            omega (
              arith,
              match_bids-paying group st t
                  (All-map group (g q) (λ b x. (le_price p q b reached x.0, x.1))) e,
              match_prices-paying by_price ps t st' g f,
            )
      ]

-- A match at a positive price that is returned: the order book is that of bids of a batch auction.
module _ ⦃dec : Decimals⦄ (denom : Denom) (p : Decimal) (p_pos : 0 < p) (bids : List Bid)
    (payable : All (IsPayable denom) bids) where
  pub match_at-reserved :
      (selling_amt : Amount) (allowed : List AllowedBidder) (r : MatchResult) (found : Bool)
      → match_at p (bids_by_price bids).0 (bids_by_price bids).1 selling_amt allowed
        ≡ ok (some r, found)
      → (k : Address) → paying_in k r.match_result_by_bidder ≤ reserved_in denom k bids
  unfolding lookup
  match_at-reserved selling_amt allowed r found h k =
      let prices = (bids_by_price bids).0 in
      let by_price = (bids_by_price bids).1 in
      let (st, loops, same, _) =
        match_at-MatchInv p prices by_price selling_amt allowed r found h in
      let charged =
        match_prices-paying denom p p_pos selling_amt k by_price prices (initial_match p allowed) st
          (bids_by_price-HoldsGroups (IsPayable denom) bids payable) loops in
      let all = bids_by_price-total (reserved_by denom k) bids in rw (← same) (omega arith)
