-- ===== src/Types/Matching/Bounds.antt =====
-- What `Match` (x/fundraising/types/match.go) keeps within: the selling amount, each bidder's
-- maximum, and the price of what each bidder gets.
use fundraising.Prelude.{
  Bool-cases, arith, if◌then◌else◌, inl, inr, some, ℕ, ◌*◌, ◌+◌, ◌-◌, ◌<◌, ◌==◌, ◌≡◌, ◌≤◌,
}
use fundraising.Prelude.Store.{
  IsOrdered, Store, insert-IsOrdered, lookup, lookup-insert, lookup_or, sum_of, sum_of-insert,
}
use fundraising.Sdk.{Amount}
use fundraising.Sdk.Decimals.{Decimal, Decimals, ceil_mul_int, one}
use fundraising.Types.{Bid}
use fundraising.Types.Matching.{
  BidderMatchResult, MatchState, add_result, no_result, paying_amount_at, raise_result,
  record_match,
}

abbrev pub matched_in : ℕ → Store BidderMatchResult → Amount
matched_in k m = (lookup_or no_result k m).matched_amount

abbrev pub paying_in : ℕ → Store BidderMatchResult → Amount
paying_in k m = (lookup_or no_result k m).paying_amount

abbrev pub total_matched : Store BidderMatchResult → Amount
total_matched = sum_of (λ x. x.matched_amount)

-- An amount of one bidder, as seen from bidder `k`.
abbrev pub share : ℕ → ℕ → Amount → Amount
share k bidder amt = if k == bidder then amt else 0

module _ (bidder : ℕ) (amt paying : Amount) (m : Store BidderMatchResult) where
  pub add_result-matched :
      (k : ℕ) → matched_in k (add_result bidder amt paying m) ≡ matched_in k m + share k bidder amt
  unfolding add_result
  add_result-matched k = grind (arith, lookup-insert)

  pub add_result-paying :
      (k : ℕ) → paying_in k (add_result bidder amt paying m) ≡ paying_in k m + share k bidder paying
  unfolding add_result
  add_result-paying k = grind (arith, lookup-insert)

  pub add_result-IsOrdered : IsOrdered m → IsOrdered (add_result bidder amt paying m)
  unfolding add_result
  add_result-IsOrdered o = insert-IsOrdered _ _ m o

  pub add_result-total :
      IsOrdered m → total_matched (add_result bidder amt paying m) ≡ total_matched m + amt
  unfolding add_result
  add_result-total o = ground (
    arith,
    sum_of-insert (λ (x : BidderMatchResult). x.matched_amount) bidder
        (raise_result amt paying (lookup_or no_result bidder m)) m o,
  )

-- What is paid for an amount covers its price, by less than one coin.
pub paying_amount_at_bounds :
    ⦃dec : Decimals⦄ (p : Decimal) (amt : Amount)
    → (amt * p ≤ paying_amount_at p amt * one) × (paying_amount_at p amt * one < amt * p + one)
unfolding paying_amount_at
paying_amount_at_bounds p amt = omega (arith, ceil_mul_int amt p)

-- What holds of the loop's variables in every round: `max_of` are the bidders' maximum amounts.
module _ ⦃dec : Decimals⦄ (p : Decimal) (selling_amt : Amount) (max_of : ℕ → Amount) where
  pub record MatchInv (st : MatchState) : Type 0 where
    pub ordered : IsOrdered st.res.match_result_by_bidder
    pub total : total_matched st.res.match_result_by_bidder ≡ st.res.matched_amount
    pub cap : st.res.matched_amount ≤ selling_amt
    pub within :
        (k : ℕ) → matched_in k st.res.match_result_by_bidder + lookup_or 0 k st.biddable ≡ max_of k
    pub paid :
        (k : ℕ)
        → matched_in k st.res.match_result_by_bidder * p
          ≤ paying_in k st.res.match_result_by_bidder * one
    pub at_price : st.res.match_price ≡ p

  module _ (b : Bid) (amt left : Amount) (st : MatchState) where
    pub record_match-results :
        (record_match p b amt left st).res.match_result_by_bidder
        ≡ add_result b.bidder amt (paying_amount_at p amt) st.res.match_result_by_bidder
    unfolding record_match
    record_match-results = ground arith

    record_match-amount :
        (record_match p b amt left st).res.matched_amount ≡ st.res.matched_amount + amt
    unfolding record_match
    record_match-amount = ground arith

    record_match-price : (record_match p b amt left st).res.match_price ≡ st.res.match_price
    unfolding record_match
    record_match-price = ground arith

    record_match-biddable :
        (k : ℕ)
        → lookup b.bidder st.biddable ≡ some left
        → amt ≤ left
        → lookup_or 0 k (record_match p b amt left st).biddable + share k b.bidder amt
          ≡ lookup_or 0 k st.biddable
    unfolding record_match
    record_match-biddable k listed le =
        ground (arith, lookup-insert k b.bidder (left - amt) st.biddable)

    pub record_match-MatchInv :
        st.res.matched_amount + amt ≤ selling_amt
        → lookup b.bidder st.biddable ≡ some left
        → amt ≤ left
        → MatchInv st
        → MatchInv (record_match p b amt left st)
    record_match-MatchInv fits listed le inv = record {
      ordered = rw record_match-results (add_result-IsOrdered b.bidder amt pays m inv.ordered);
      total =
          rw record_match-results
            (ground (arith, record_match-amount, add_result-total b.bidder amt pays m inv.ordered));
      cap = ground (arith, record_match-amount);
      within = λ k. rw record_match-results (
          omega (
            arith,
            inv.within k,
            add_result-matched b.bidder amt pays m k,
            record_match-biddable k listed le,
          ));
      paid = λ k. rw record_match-results (covers k);
      at_price = ground (arith, record_match-price);
    }
      where
        m : Store BidderMatchResult
        m = st.res.match_result_by_bidder

        pays : Amount
        pays = paying_amount_at p amt

        covers :
            (k : ℕ)
            → matched_in k (add_result b.bidder amt pays m) * p
              ≤ paying_in k (add_result b.bidder amt pays m) * one
        covers k =
            rw (add_result-matched b.bidder amt pays m k, add_result-paying b.bidder amt pays m k)
              (elim (Bool-cases (k == b.bidder)) [
                | inl e ↦ rw e (omega (arith, inv.paid k, paying_amount_at_bounds p amt))
                | inr e ↦ rw e (omega (arith, inv.paid k))
              ])
