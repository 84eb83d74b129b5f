-- ===== src/Types/Matching/Matched.antt =====
-- Which bids `Match` (x/fundraising/types/match.go) matches: only bids of the order book.
use fundraising.Prelude.{
  All, Bool, Bool-cases, List, [], inl, inr, ltb, min, some, subst, ℕ, ◌∷◌, ◌≡◌,
}
use fundraising.Prelude.Store.{Store, lookup_or}
use fundraising.Sdk.{Amount}
use fundraising.Sdk.Decimals.{Decimal, Decimals}
use fundraising.Sdk.Outcome.{and_then-some, ok}
use fundraising.Types.{AllowedBidder, Bid}
use fundraising.Types.Matching.{
  MatchResult, MatchState, bids_by_price, initial_match, match_at, match_at-some, match_bid,
  match_bids, match_prices, record_match,
}
use fundraising.Types.Matching.Groups.{bids_by_price-HoldsGroups}
use fundraising.Types.Matching.Limits.{match_bid-Records}
use fundraising.Types.Matching.OrderBook.{All-append, All-map}

same_state : {x y : MatchState} → ok (some x) ≡ ok (some y) → x ≡ y
same_state h = cc

module _ {κ} ⦃dec : Decimals⦄ (Q : Bid → Type κ) (p : Decimal) (selling_amt : Amount) where
  record_match-matched :
      (b : Bid) (amt left : Amount) (st : MatchState)
      → Q b
      → All Q st.res.matched_bids
      → All Q (record_match p b amt left st).res.matched_bids
  unfolding record_match
  record_match-matched b amt left st q a = elim (Bool-cases (ltb 0 amt)) [
    | inl e ↦ rw e (All-append Q st.res.matched_bids (b ∷ []) a (q, tt))
    | inr e ↦ rw e a
  ]

  match_bids-matched :
      (bs : List Bid) (st st' : MatchState)
      → All Q bs
      → match_bids p selling_amt bs st ≡ ok (some st')
      → All Q st.res.matched_bids
      → All Q st'.res.matched_bids
  unfolding match_bids
  match_bids-matched [] st st' q h a = subst (λ t. All Q t.res.matched_bids) (same_state h) a
  match_bids-matched (b ∷ bs) st st' q h a =
      let (t, e, f) =
        and_then-some (match_bid p selling_amt b st) (match_bids p selling_amt bs) h in
      let (x, left, _, _, _, g) = match_bid-Records p selling_amt b st t e in
      match_bids-matched bs t st' q.1 f (rw g (record_match-matched b (min x left) left st q.0 a))

  match_prices-matched :
      (by_price : Store (List Bid)) (ps : List Decimal) (st st' : MatchState)
      → ((q : ℕ) → All Q (lookup_or [] q by_price))
      → match_prices p selling_amt by_price ps st ≡ ok (some st')
      → All Q st.res.matched_bids
      → All Q st'.res.matched_bids
  unfolding match_prices
  match_prices-matched by_price [] st st' g h a =
      subst (λ t. All Q t.res.matched_bids) (same_state h) a
  match_prices-matched by_price (q ∷ ps) st st' g h a = elim (Bool-cases (ltb q p)) [
    | inl below ↦ subst (λ t. All Q t.res.matched_bids) (same_state (rw below at h)) a
    | inr reached ↦
        let group = lookup_or [] q by_price in
        let (t, e, f) =
          and_then-some (match_bids p selling_amt group st) (match_prices p selling_amt by_price ps)
            (rw reached at h) in
        match_prices-matched by_price ps t st' g f (match_bids-matched group st t (g q) e a)
  ]

-- What holds of all bids of an auction holds of those that a match of them matches.
pub match_at-matched {κ} :
    ⦃dec : Decimals⦄ (Q : Bid → Type κ) (bids : List Bid) (p : Decimal) (selling_amt : Amount)
    (allowed : List AllowedBidder) (r : MatchResult) (found : Bool)
    → All Q bids
    → match_at p (bids_by_price bids).0 (bids_by_price bids).1 selling_amt allowed
      ≡ ok (some r, found)
    → All Q r.matched_bids
match_at-matched Q bids p selling_amt allowed r found q h =
    let by_price = (bids_by_price bids).1 in
    let (st, loops, same, _) =
      match_at-some p (bids_by_price bids).0 by_price selling_amt allowed r found h in
    subst (λ (x : MatchResult). All Q x.matched_bids) same
      (match_prices-matched Q p selling_amt by_price (bids_by_price bids).0
        (initial_match p allowed) st
        (λ x. All-map (lookup_or [] x by_price) (bids_by_price-HoldsGroups Q bids q x) (λ b y. y.1))
        loops tt)
