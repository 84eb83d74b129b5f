-- ===== src/Keeper/Matching/Search.antt =====
-- The search for the matching price (x/fundraising/keeper/match.go): it ends, and what it returns.
use fundraising.Keeper.Matching.{best_match, empty_match, keep_match, probe, search_match}
use fundraising.Prelude.{
  Bool, Bool-cases, List, Option, arith, false, get_elem?, if◌then◌else◌, inl, inr, length, ltb,
  ltb→lt, none, refl, some, subst, suc, true, zero, ℕ, ◌+◌, ◌-◌, ◌/◌, ◌<◌, ◌≡◌, ◌≤◌, ◌⊎◌,
}
use fundraising.Sdk.{Amount}
use fundraising.Sdk.Decimals.{Decimal, Decimals}
use fundraising.Sdk.Outcome.{Result, err, ok, panic}
use fundraising.Types.{AllowedBidder, Bid}
use fundraising.Types.Matching.{MatchResult, bids_by_price, match_at}
use mathlib.Core.Path.{sym}

-- What the search may hold as its best match: a match that the test has found at a listed price, or
-- the one that it began with.
abbrev pub IsFound :
    (Decimal → Result (Option MatchResult × Bool))
    → List Decimal
    → MatchResult
    → MatchResult
    → Type 0
IsFound test prices start r =
    (r ≡ start)
    ⊎ ((i : ℕ) × (p : Decimal) × (get_elem? prices i ≡ some p) × (test p ≡ ok (some r, true)))

module _ (test : Decimal → Result (Option MatchResult × Bool)) (prices : List Decimal) where
  -- How a search may end: with a match, or as a test does that fails; never out of fuel.
  abbrev pub Ends : MatchResult → Result (Option MatchResult) → Type 0
  Ends start (ok none) = ⊥
  Ends start (ok (some r)) = IsFound test prices start r
  Ends start (err e) = Unit {0}
  Ends start panic = Unit {0}

  -- What a round does after its test.
  abbrev after :
      ℕ → ℕ → ℕ → MatchResult → Result (Option MatchResult × Bool) → Result (Option MatchResult)
  after fuel i j best r = elim r [
    | ok (o, found) ↦ elim found [
      | true ↦ search_match test prices fuel i ((i + j) / 2) (keep_match best (o, true))
      | false ↦ search_match test prices fuel ((i + j) / 2 + 1) j best
    ]
    | err e ↦ err e
    | panic ↦ panic
  ]

  probe-IsFound :
      (start best : MatchResult) (i : ℕ) (o : Option MatchResult)
      → probe test prices i ≡ ok (o, true)
      → IsFound test prices start best
      → IsFound test prices start (keep_match best (o, true))
  probe-IsFound start best i none e f = f
  probe-IsFound start best i (some r) e f = go (get_elem? prices (length prices - 1 - i)) refl e
    where
      go :
          (q : Option Decimal)
          → get_elem? prices (length prices - 1 - i) ≡ q
          → (elim q [ none ↦ panic | some p ↦ test p ]) ≡ ok (some r, true)
          → IsFound test prices start r
      go none eq h = cc
      go (some p) eq h = inr (length prices - 1 - i, p, eq, h)

  search_match-Ends :
      (start : MatchResult) (fuel i j : ℕ) (best : MatchResult)
      → i ≤ j
      → j - i < fuel
      → IsFound test prices start best
      → Ends start (search_match test prices fuel i j best)
  unfolding search_match
  search_match-Ends start zero i j best le h f = elim h [ ]
  search_match-Ends start (suc fuel) i j best le h f = elim (Bool-cases (ltb i j)) [
    | inr done ↦ rw done f
    | inl more ↦
        let lt : i < j = ltb→lt i j more in
        rw more (
          go (probe test prices ((i + j) / 2)) refl
            (λ b'. search_match-Ends start fuel i ((i + j) / 2) b' (omega arith) (omega arith))
            (search_match-Ends start fuel ((i + j) / 2 + 1) j best (omega arith) (omega arith) f))
  ]
    where
      go :
          (r : Result (Option MatchResult × Bool))
          → probe test prices ((i + j) / 2) ≡ r
          → ((b' : MatchResult)
              → IsFound test prices start b'
              → Ends start (search_match test prices fuel i ((i + j) / 2) b'))
          → Ends start (search_match test prices fuel ((i + j) / 2 + 1) j best)
          → Ends start (after fuel i j best r)
      go (ok (o, true)) e down up = down _ (probe-IsFound start best ((i + j) / 2) o e f)
      go (ok (o, false)) e down up = up
      go (err x) e down up = tt
      go panic e down up = tt

  -- Where the test fails at the first `t` places and finds `res i` at every later one, the search
  -- returns the match at place `t`, or the match it began with if there is no such place.
  search_match-least :
      (start : MatchResult) (res : ℕ → MatchResult) (n t fuel i j : ℕ) (best : MatchResult)
      → ((k : ℕ) → k < t → (o : Option MatchResult) × (probe test prices k ≡ ok (o, false)))
      → ((k : ℕ) → t ≤ k → k < n → probe test prices k ≡ ok (some (res k), true))
      → i ≤ t
      → t ≤ j
      → j ≤ n
      → j - i < fuel
      → best ≡ (if ltb j n then res j else start)
      → search_match test prices fuel i j best ≡ ok (some (if ltb t n then res t else start))
  unfolding search_match
  search_match-least start res n t zero i j best below above it tj jn h f = elim h [ ]
  search_match-least start res n t (suc fuel) i j best below above it tj jn h f =
      elim (Bool-cases (ltb i j)) [
        | inr done ↦ let e : t ≡ j = ground arith in rw done (rw (f, e))
        | inl more ↦
            let lt : i < j = ltb→lt i j more in
            let mid : ℕ = (i + j) / 2 in
            rw more (elim (Bool-cases (ltb mid t)) [
              | inl low ↦
                  let (o, e) = below mid (ltb→lt mid t low) in
                  subst (λ r. after fuel i j best r ≡ ok (some (if ltb t n then res t else start)))
                    (sym e)
                    (search_match-least start res n t fuel (mid + 1) j best below above
                      (ground arith) tj jn (omega arith) f)
              | inr high ↦
                  let e = above mid (ground arith) (omega arith) in
                  subst (λ r. after fuel i j best r ≡ ok (some (if ltb t n then res t else start)))
                    (sym e)
                    (search_match-least start res n t fuel i mid (res mid) below above it
                      (ground arith) (omega arith) (omega arith) (ground arith))
            ])
      ]

module _ ⦃dec : Decimals⦄ (bids : List Bid) (selling_amt : Amount)
    (allowed : List AllowedBidder) where
  abbrev pub match_price_of : Decimal → Result (Option MatchResult × Bool)
  match_price_of p = match_at p (bids_by_price bids).0 (bids_by_price bids).1 selling_amt allowed

  pub best_match-Ends :
      Ends match_price_of (bids_by_price bids).0 empty_match (best_match bids selling_amt allowed)
  unfolding best_match
  best_match-Ends =
      search_match-Ends match_price_of prices empty_match (length prices + 1) 0 (length prices)
        empty_match (omega arith) (omega arith) (inl refl)
    where
      prices : List Decimal
      prices = (bids_by_price bids).0

  -- Where no match is found at the `t` lowest prices of the bids and one is found at every price
  -- above them, the search returns the match at the lowest of the latter, or the empty match if there
  -- is no such price.
  pub best_match_lowest :
      (res : ℕ → MatchResult) (t : ℕ)
      → t ≤ length (bids_by_price bids).0
      → ((k : ℕ)
          → k < t
          → (o : Option MatchResult) × (probe match_price_of (bids_by_price bids).0 k
              ≡ ok (o, false)))
      → ((k : ℕ)
          → t ≤ k
          → k < length (bids_by_price bids).0
          → probe match_price_of (bids_by_price bids).0 k ≡ ok (some (res k), true))
      → best_match bids selling_amt allowed
        ≡ ok (some (if ltb t (length (bids_by_price bids).0) then res t else empty_match))
  unfolding best_match
  best_match_lowest res t le below above =
      search_match-least match_price_of prices empty_match res (length prices) t (length prices + 1)
        0 (length prices) empty_match below above (omega arith) le (omega arith) (omega arith)
        (ground arith)
    where
      prices : List Decimal
      prices = (bids_by_price bids).0
