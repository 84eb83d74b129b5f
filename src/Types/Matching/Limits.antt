-- ===== src/Types/Matching/Limits.antt =====
-- `Match` (x/fundraising/types/match.go) from its first round to its result.
use fundraising.Prelude.{
  Bool, Bool-cases, List, Option, [], arith, if◌then◌else◌, inl, inr, ltb, min, none, refl, some,
  subst, ℕ, ◌*◌, ◌+◌, ◌==◌, ◌∷◌, ◌≡◌, ◌≤◌,
}
use fundraising.Prelude.Store.{Store, insert, lookup, lookup-insert, lookup_or}
use fundraising.Sdk.{Address, Amount}
use fundraising.Sdk.Decimals.{Decimal, Decimals, one}
use fundraising.Sdk.Outcome.{and_then-some, ok}
use fundraising.Types.{AllowedBidder, Bid}
use fundraising.Types.Matching.{
  MatchResult, MatchState, bid_amount, biddable_amounts, initial_match, match_at, match_at-some,
  match_bid, match_bids, match_prices, record_match,
}
use fundraising.Types.Matching.Bounds.{
  MatchInv, matched_in, paying_in, record_match-MatchInv, total_matched,
}

-- The maximum of a bidder in a list of allowed bidders: the last entry counts.
abbrev pub max_bid_from : Amount → ℕ → List AllowedBidder → Amount
max_bid_from d k [] = d
max_bid_from d k (ab ∷ abs) = max_bid_from (if k == ab.bidder then ab.max_bid_amount else d) k abs

abbrev pub max_bid_of : ℕ → List AllowedBidder → Amount
max_bid_of = max_bid_from 0

pub biddable_amounts_lem :
    (k : ℕ) (abs : List AllowedBidder) (m : Store Amount)
    → lookup_or 0 k (biddable_amounts abs m) ≡ max_bid_from (lookup_or 0 k m) k abs
unfolding biddable_amounts
biddable_amounts_lem k [] m = refl
biddable_amounts_lem k (ab ∷ abs) m = ground (
  arith,
  biddable_amounts_lem k abs (insert ab.bidder ab.max_bid_amount m),
  lookup-insert k ab.bidder ab.max_bid_amount m,
)

-- What a round has done that went on.
abbrev pub Records : ⦃dec : Decimals⦄ → Decimal → Amount → Bid → MatchState → MatchState → Type 0
Records p selling_amt b st st' =
    (bid_amt : Amount) × (left : Amount) × (bid_amount p b b.typ ≡ some bid_amt)
    × (lookup b.bidder st.biddable ≡ some left)
    × (st.res.matched_amount + min bid_amt left ≤ selling_amt)
    × (st' ≡ record_match p b (min bid_amt left) left st)

module _ ⦃dec : Decimals⦄ (p : Decimal) (selling_amt : Amount) where
  pub match_bid-Records :
      (b : Bid) (st st' : MatchState)
      → match_bid p selling_amt b st ≡ ok (some st')
      → Records p selling_amt b st st'
  unfolding match_bid
  match_bid-Records b st st' h = go (bid_amount p b b.typ) (lookup b.bidder st.biddable) refl refl
    where
      go :
          (x y : Option Amount)
          → bid_amount p b b.typ ≡ x
          → lookup b.bidder st.biddable ≡ y
          → Records p selling_amt b st st'
      go none y ex ey = absurd (ground arith)
      go (some x) none ex ey = absurd (ground arith)
      go (some x) (some y) ex ey = (x, y, ex, ey, ground arith, ground arith)

  -- A property that each round keeps holds after the loops.
  module _ {κ} (P : MatchState → Type κ)
      (keep : (b : Bid) (st st' : MatchState) → Records p selling_amt b st st' → P st → P st') where
    pub match_bids-keeps :
        (bs : List Bid) (st st' : MatchState)
        → match_bids p selling_amt bs st ≡ ok (some st')
        → P st
        → P st'
    unfolding match_bids
    match_bids-keeps [] st st' h start = subst P (cc) start
    match_bids-keeps (b ∷ bs) st st' h start =
        let (s, e, f) =
          and_then-some (match_bid p selling_amt b st) (match_bids p selling_amt bs) h in
        match_bids-keeps bs s st' f (keep b st s (match_bid-Records b st s e) start)

    pub match_prices-keeps :
        (by_price : Store (List Bid)) (ps : List Decimal) (st st' : MatchState)
        → match_prices p selling_amt by_price ps st ≡ ok (some st')
        → P st
        → P st'
    unfolding match_prices
    match_prices-keeps by_price [] st st' h start = subst P (cc) start
    match_prices-keeps by_price (q ∷ ps) st st' h start = elim (Bool-cases (ltb q p)) [
      | inl below ↦ subst P (ground arith) start
      | inr reached ↦
          let (s, e, f) =
            and_then-some (match_bids p selling_amt (lookup_or [] q by_price) st)
              (match_prices p selling_amt by_price ps) (rw reached at h) in
          match_prices-keeps by_price ps s st' f
            (match_bids-keeps (lookup_or [] q by_price) st s e start)
    ]

module _ ⦃dec : Decimals⦄ (p : Decimal) (selling_amt : Amount) (max_of : ℕ → Amount) where
  Records-MatchInv :
      (b : Bid) (st st' : MatchState)
      → Records p selling_amt b st st'
      → MatchInv p selling_amt max_of st
      → MatchInv p selling_amt max_of st'
  Records-MatchInv b st st' (x, left, ex, el, fits, e) inv =
      rw e (
        record_match-MatchInv p selling_amt max_of b (min x left) left st fits el (omega arith) inv)

-- The state after the loops of a match that returns a result.
pub match_at-MatchInv :
    ⦃dec : Decimals⦄ (p : Decimal) (prices : List Decimal) (by_price : Store (List Bid))
    (selling_amt : Amount) (allowed : List AllowedBidder) (r : MatchResult) (found : Bool)
    → match_at p prices by_price selling_amt allowed ≡ ok (some r, found)
    → (st : MatchState) × (match_prices p selling_amt by_price prices (initial_match p allowed)
        ≡ ok (some st))
      × (st.res ≡ r)
      × MatchInv p selling_amt (λ k. lookup_or 0 k (biddable_amounts allowed [])) st
unfolding lookup
match_at-MatchInv p prices by_price selling_amt allowed r found h =
    let (st, loops, same, _) = match_at-some p prices by_price selling_amt allowed r found h in
    (
      st,
      loops,
      same,
      match_prices-keeps p selling_amt (MatchInv p selling_amt max_of)
          (Records-MatchInv p selling_amt max_of) by_price prices (initial_match p allowed) st loops
          start,
    )
  where
    max_of : ℕ → Amount
    max_of k = lookup_or 0 k (biddable_amounts allowed [])

    start : MatchInv p selling_amt max_of (initial_match p allowed)
    start = record {
      ordered = tt;
      total = refl;
      cap = omega arith;
      within = λ k. omega arith;
      paid = λ k. omega arith;
      at_price = refl;
    }

-- A match that is returned at a price states that price; the bidders' amounts add up to the matched
-- amount, which is at most the selling amount; no bidder gets more than the maximum amount in the
-- list of allowed bidders; and each pays at least the price of what the bidder gets.
pub match_at_limits :
    ⦃dec : Decimals⦄ (p : Decimal) (prices : List Decimal) (by_price : Store (List Bid))
    (selling_amt : Amount) (allowed : List AllowedBidder) (r : MatchResult) (found : Bool)
    → match_at p prices by_price selling_amt allowed ≡ ok (some r, found)
    → (r.match_price ≡ p)
      × (total_matched r.match_result_by_bidder ≡ r.matched_amount)
      × (r.matched_amount ≤ selling_amt)
      × ((k : Address) → matched_in k r.match_result_by_bidder ≤ max_bid_of k allowed)
      × ((k : Address)
          → matched_in k r.match_result_by_bidder * p ≤ paying_in k r.match_result_by_bidder * one)
unfolding lookup
match_at_limits p prices by_price selling_amt allowed r found h =
    let (st, loops, same, inv) =
      match_at-MatchInv p prices by_price selling_amt allowed r found h in
    rw (← same) (
      inv.at_price,
      inv.total,
      inv.cap,
      λ k. omega (arith, inv.within k, biddable_amounts_lem k allowed []),
      inv.paid,
    )
