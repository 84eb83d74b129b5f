-- ===== src/Types/Matching.antt =====
-- x/fundraising/types/match.go and utils.go: the order book by price, and the match of the bids at a
-- price. Go's maps are ordered tables: the code collects and sorts their keys before it walks them.
pub mod Bounds
pub mod Limits
pub mod OrderBook
pub mod Groups
pub mod Reserved
pub mod Matched
use fundraising.Prelude.{
  Bool, List, Option, [], arith, false, if◌then◌else◌, ltb, min, none, refl, reverse, some, true,
  ◌++◌, ◌+◌, ◌-◌, ◌∷◌, ◌≡◌,
}
use fundraising.Prelude.Store.{Store, insert, keys, lookup, lookup_or}
use fundraising.Sdk.{Address, Amount}
use fundraising.Sdk.Decimals.{Decimal, Decimals}
use fundraising.Sdk.Outcome.{Result, and_then, err, ok, panic, ◌>>=◌, ◌>>◌}
use fundraising.Types.{AllowedBidder, Bid, BidType}

-- Insertion sort, which `sort.Slice` runs on short slices.
module _ {ℓ} {A : Type ℓ} (less : A → A → Bool) where
  unfoldable pub insert_before : A → List A → List A
  insert_before x [] = x ∷ []
  insert_before x (y ∷ ys) = if less x y then x ∷ y ∷ ys else y ∷ insert_before x ys

  unfoldable pub sort_slice : List A → List A
  unfolding insert_before
  sort_slice [] = []
  sort_slice (x ∷ xs) = insert_before x (sort_slice xs)

-- The comparison of `SortBids`.
unfoldable pub bid_less : Bid → Bid → Bool
bid_less a b = if ltb b.price a.price then true else ltb a.id b.id

unfoldable pub sort_bids : List Bid → List Bid
unfolding sort_slice bid_less
sort_bids bids = sort_slice bid_less bids

-- The loop that fills `bidsByPrice`; a price and its text stand for one another.
unfoldable pub group_by_price : List Bid → Store (List Bid) → Store (List Bid)
group_by_price [] m = m
group_by_price (b ∷ bs) m = group_by_price bs (insert b.price (lookup_or [] b.price m ++ b ∷ []) m)

-- `BidsByPrice`: the prices in descending order, and the bids at each.
unfoldable pub bids_by_price : List Bid → List Decimal × Store (List Bid)
unfolding sort_bids group_by_price
bids_by_price bids = let m = group_by_price (sort_bids bids) [] in (reverse (keys m), m)

pub record BidderMatchResult : Type 0 where
  pub paying_amount : Amount
  pub matched_amount : Amount

pub record MatchResult : Type 0 where
  pub match_price : Decimal
  pub matched_amount : Amount
  pub matched_bids : List Bid
  pub match_result_by_bidder : Store BidderMatchResult

-- The variables of the loop: the result, `biddableAmtByBidder`, and `matched`.
pub record MatchState : Type 0 where
  pub res : MatchResult
  pub biddable : Store Amount
  pub matched : Bool

abbrev pub no_result : BidderMatchResult
no_result = record { paying_amount = 0; matched_amount = 0 }

unfoldable pub biddable_amounts : List AllowedBidder → Store Amount → Store Amount
biddable_amounts [] m = m
biddable_amounts (ab ∷ abs) m = biddable_amounts abs (insert ab.bidder ab.max_bid_amount m)

abbrev pub raise_result : Amount → Amount → BidderMatchResult → BidderMatchResult
raise_result amt paying r = record {
  paying_amount = r.paying_amount + paying;
  matched_amount = r.matched_amount + amt;
}

-- The entry of a bidder is created at zero on first use, and raised.
unfoldable pub add_result :
    Address → Amount → Amount → Store BidderMatchResult → Store BidderMatchResult
add_result bidder amt paying m =
    insert bidder (raise_result amt paying (lookup_or no_result bidder m)) m

module _ ⦃dec : Decimals⦄ where
  open dec use {new_dec_from_int, quo_truncate, mul_int, ceil, truncate_int}

  -- The `switch`; for another type the amount stays a nil integer, and the next use of it panics.
  unfoldable pub bid_amount : Decimal → Bid → BidType → Option Amount
  bid_amount match_price b BidType.batch_worth =
      some (truncate_int (quo_truncate (new_dec_from_int b.coin.amount) match_price))
  bid_amount match_price b BidType.batch_many = some b.coin.amount
  bid_amount match_price b BidType.nil = none
  bid_amount match_price b BidType.fixed_price = none

  unfoldable pub paying_amount_at : Decimal → Amount → Amount
  paying_amount_at match_price amt = truncate_int (ceil (mul_int match_price amt))

  -- What the body does once the bid is known to fit: `amt` is `matchAmt`, `left` is `biddableAmt`.
  unfoldable pub record_match : Decimal → Bid → Amount → Amount → MatchState → MatchState
  record_match match_price b amt left st =
      let paying = paying_amount_at match_price amt in
      let results = add_result b.bidder amt paying st.res.match_result_by_bidder in
      if ltb 0 amt
      then record {
        res = record {
          match_price = st.res.match_price;
          matched_amount = st.res.matched_amount + amt;
          matched_bids = st.res.matched_bids ++ b ∷ [];
          match_result_by_bidder = results;
        };
        biddable = insert b.bidder (left - amt) st.biddable;
        matched = true;
      }
      else record st { res = record st.res { match_result_by_bidder = results } }

  -- One round of the inner loop. `ok none` is `return nil, false`; a bidder that is not listed has a
  -- nil biddable amount, which `sdk.MinInt` panics on.
  unfoldable pub match_bid : Decimal → Amount → Bid → MatchState → Result (Option MatchState)
  match_bid match_price selling_amt b st = elim (bid_amount match_price b b.typ) [
    | none ↦ panic
    | some bid_amt ↦ elim (lookup b.bidder st.biddable) [
      | none ↦ panic
      | some left ↦
          let amt = min bid_amt left in
          if ltb selling_amt (st.res.matched_amount + amt)
          then ok none
          else ok (some (record_match match_price b amt left st))
    ]
  ]

  -- The inner loop, over the bids at one price.
  unfoldable pub match_bids : Decimal → Amount → List Bid → MatchState → Result (Option MatchState)
  match_bids match_price selling_amt [] st = ok (some st)
  match_bids match_price selling_amt (b ∷ bs) st =
      and_then (match_bid match_price selling_amt b st) (match_bids match_price selling_amt bs)

  -- The outer loop, over the prices in descending order.
  unfoldable pub match_prices :
      Decimal → Amount → Store (List Bid) → List Decimal → MatchState → Result (Option MatchState)
  match_prices match_price selling_amt by_price [] st = ok (some st)
  match_prices match_price selling_amt by_price (p ∷ ps) st =
      if ltb p match_price
      then ok (some st)
      else and_then (match_bids match_price selling_amt (lookup_or [] p by_price) st)
          (match_prices match_price selling_amt by_price ps)

  abbrev pub initial_match : Decimal → List AllowedBidder → MatchState
  initial_match match_price allowed = record {
    res = record {
      match_price = match_price;
      matched_amount = 0;
      matched_bids = [];
      match_result_by_bidder = [];
    };
    biddable = biddable_amounts allowed [];
    matched = false;
  }

  abbrev pub match_outcome : Option MatchState → Option MatchResult × Bool
  match_outcome none = (none, false)
  match_outcome (some st) = (some st.res, st.matched)

  -- `Match`
  unfoldable pub match_at :
      Decimal
      → List Decimal
      → Store (List Bid)
      → Amount
      → List AllowedBidder
      → Result (Option MatchResult × Bool)
  match_at match_price prices by_price selling_amt allowed =
      match_prices match_price selling_amt by_price prices (initial_match match_price allowed)
      >>= λ o. ok (match_outcome o)

  -- The state after the loops, of a match that returns a result.
  pub match_at-some :
      (p : Decimal) (prices : List Decimal) (by_price : Store (List Bid)) (selling_amt : Amount)
      (allowed : List AllowedBidder) (r : MatchResult) (found : Bool)
      → match_at p prices by_price selling_amt allowed ≡ ok (some r, found)
      → (st : MatchState) × (match_prices p selling_amt by_price prices (initial_match p allowed)
          ≡ ok (some st))
        × (st.res ≡ r)
        × (st.matched ≡ found)
  unfolding match_at
  match_at-some p prices by_price selling_amt allowed r found h =
      go (match_prices p selling_amt by_price prices (initial_match p allowed)) h refl
    where
      go :
          (m : Result (Option MatchState))
          → (m >>= λ o. ok (match_outcome o)) ≡ ok (some r, found)
          → match_prices p selling_amt by_price prices (initial_match p allowed) ≡ m
          → (st : MatchState) × (match_prices p selling_amt by_price prices
                (initial_match p allowed)
              ≡ ok (some st))
            × (st.res ≡ r)
            × (st.matched ≡ found)
      go (ok (some st)) e f = (st, f, ground arith, ground arith)
      go (ok none) e f = absurd (ground arith)
      go (err x) e f = cc
      go panic e f = cc
