-- ===== src/Keeper/Matching/Refunds.antt =====
-- The refunds of a batch auction (x/fundraising/keeper/match.go): none is negative, and with what
-- the bidder pays they add up to what the bidder has reserved.
use fundraising.Keeper.Closing.{refund_amounts}
use fundraising.Keeper.Matching.{
  MatchingInfo, add_amount, batch_info, best_match, empty_match, give_matched, refund_all,
  reserved_amounts, sub_refund,
}
use fundraising.Keeper.Matching.Search.{Ends, IsFound, best_match-Ends, match_price_of}
use fundraising.Prelude.{
  ==_iff, All, Bool, Bool-cases, List, Option, [], ap, arith, false, get_elem?-All, if◌then◌else◌,
  inl, inr, none, refl, some, subst, true, ℕ, ◌+◌, ◌<◌, ◌==◌, ◌∙◌, ◌∷◌, ◌≡◌, ◌≢◌, ◌≤◌,
}
use fundraising.Prelude.Store.{
  IsOrdered, Store, insert, insert-IsOrdered, lookup, lookup-Above, lookup-insert, lookup_or,
}
use fundraising.Sdk.{Address, Amount, Denom}
use fundraising.Sdk.Decimals.{Decimals}
use fundraising.Sdk.Outcome.{ok}
use fundraising.Types.{AllowedBidder, Bid}
use fundraising.Types.Bids.{convert_to_paying_amount}
use fundraising.Types.Genesis.{each}
use fundraising.Types.Matching.{BidderMatchResult, MatchResult, bids_by_price}
use fundraising.Types.Matching.Bounds.{paying_in}
use fundraising.Types.Matching.Groups.{bids_by_price-prices}
use fundraising.Types.Matching.Limits.{match_at-MatchInv}
use fundraising.Types.Matching.OrderBook.{All-map}
use fundraising.Types.Matching.Reserved.{IsPayable, match_at-reserved, reserved_in}
use mathlib.Core.Path.{sym}

-- A loop over a table that writes an entry for each of its entries.
module _ {V W : Type 0} (h : ℕ → V → W) where
  insert_each : Store V → Store W → Store W
  insert_each [] base = base
  insert_each ((j, v) ∷ m) base = insert_each m (insert j (h j v) base)

  -- What an entry is afterwards, from the entry of the table if there is one.
  abbrev written : ℕ → Option V → Option W → Option W
  written k none old = old
  written k (some v) old = some (h k v)

  insert_each-lookup :
      (k : ℕ) (m : Store V) (base : Store W)
      → IsOrdered m
      → lookup k (insert_each m base) ≡ written k (lookup k m) (lookup k base)
  unfolding insert_each lookup
  insert_each-lookup k [] base o = refl
  insert_each-lookup k ((j, v) ∷ m) base o =
      insert_each-lookup k m (insert j (h j v) base) o.1 ∙ step (k == j) refl (lookup k m) refl
    where
      step :
          (c : Bool)
          → (k == j) ≡ c
          → (r : Option V) → lookup k m ≡ r
          → written k (lookup k m) (lookup k (insert j (h j v) base))
            ≡ written k (if k == j then some v else lookup k m) (lookup k base)
      step true e r f =
          let same : k ≡ j = (==_iff k j).0 e in
          let absent : lookup k m ≡ none =
            subst (λ (x : ℕ). lookup x m ≡ none) (sym same) (lookup-Above j m o.0) in
          rw (absent, lookup-insert, e) (ap (λ (x : ℕ). some (h x v)) (sym same))
      step false e none f = rw (f, lookup-insert, e) refl
      step false e (some w) f = rw (f, e) refl

  insert_each-IsOrdered :
      (m : Store V) (base : Store W) → IsOrdered base → IsOrdered (insert_each m base)
  unfolding insert_each
  insert_each-IsOrdered [] base o = o
  insert_each-IsOrdered ((j, v) ∷ m) base o =
      insert_each-IsOrdered m (insert j (h j v) base) (insert-IsOrdered j (h j v) base o)

refund_all-refund_map :
    (m : Store Amount) (info : MatchingInfo)
    → (refund_all m info).refund_map ≡ insert_each (λ _ x. some x) m info.refund_map
unfolding refund_all insert_each
refund_all-refund_map [] info = refl
refund_all-refund_map ((j, v) ∷ m) info = refund_all-refund_map m _

module _ (reserved : Store Amount) where
  abbrev refund_of : ℕ → BidderMatchResult → Option Amount
  refund_of k r = sub_refund (lookup_or 0 k reserved) r.paying_amount

  give_matched-refund_map :
      (m : Store BidderMatchResult) (info : MatchingInfo)
      → (give_matched reserved m info).refund_map ≡ insert_each refund_of m info.refund_map
  unfolding give_matched insert_each
  give_matched-refund_map [] info = refl
  give_matched-refund_map ((j, v) ∷ m) info = give_matched-refund_map m _

  batch_info-refund_map :
      (r : MatchResult)
      → (batch_info reserved r).refund_map
        ≡ insert_each refund_of r.match_result_by_bidder (insert_each (λ _ x. some x) reserved [])
  batch_info-refund_map r =
      give_matched-refund_map r.match_result_by_bidder _
      ∙ ap (insert_each refund_of r.match_result_by_bidder) (refund_all-refund_map reserved _)

-- The loop of `RefundPayingCoin` goes through where no refund is negative.
refund_amounts-covered :
    (m : Store (Option Amount))
    → IsOrdered m
    → ((k : ℕ) → lookup k m ≢ some none)
    → (amounts : Store Amount) × (refund_amounts m ≡ ok amounts)
      × ((k : ℕ) → lookup k m ≡ (elim (lookup k amounts) [ none ↦ none | some x ↦ some (some x) ]))
unfolding refund_amounts lookup
refund_amounts-covered [] o h = ([], refl, λ k. refl)
refund_amounts-covered ((j, none) ∷ m) o h = absurd (h j (ground arith))
refund_amounts-covered ((j, some x) ∷ m) o h =
    let (amounts, e, each) = refund_amounts-covered m o.1 rest in
    (
      (j, x) ∷ amounts,
      rw e refl,
      λ k. elim (Bool-cases (k == j)) [ inl same ↦ rw same refl | inr other ↦ rw other (each k) ],
    )
  where
    rest : (k : ℕ) → lookup k m ≢ some none
    rest k g = elim (Bool-cases (k == j)) [
      | inl same ↦
          let absent =
            subst (λ (i : ℕ). lookup i m ≡ none) (sym ((==_iff k j).0 same))
              (lookup-Above j m o.0) in
          cc
      | inr other ↦ h k (rw other g)
    ]

-- Where each payment is covered by what is reserved.
module _ (reserved : Store Amount) (r : MatchResult) (reserved_o : IsOrdered reserved)
    (results_o : IsOrdered r.match_result_by_bidder)
    (covered : (k : Address) → paying_in k r.match_result_by_bidder ≤ lookup_or 0 k reserved) where
  refund_at : Option BidderMatchResult → ℕ → Option (Option Amount)
  refund_at o k =
      written (refund_of reserved) k o (written (λ _ x. some x) k (lookup k reserved) none)

  batch_info-lookup :
      (k : ℕ)
      → lookup k (batch_info reserved r).refund_map
        ≡ refund_at (lookup k r.match_result_by_bidder) k
  unfolding refund_at lookup
  batch_info-lookup k =
      ap (lookup k) (batch_info-refund_map reserved r)
      ∙ insert_each-lookup (refund_of reserved) k r.match_result_by_bidder
          (insert_each (λ _ x. some x) reserved []) results_o
      ∙ ap (written (refund_of reserved) k (lookup k r.match_result_by_bidder))
          (insert_each-lookup (λ _ x. some x) k reserved [] reserved_o)

  refund_at-covered :
      (k : ℕ) (o : Option BidderMatchResult) (x : Option Amount)
      → lookup k r.match_result_by_bidder ≡ o
      → (refund_at o k ≢ some none)
        × (refund_at o k ≡ (elim x [ none ↦ none | some y ↦ some (some y) ])
            → paying_in k r.match_result_by_bidder + (elim x [ none ↦ 0 | some y ↦ y ])
              ≡ lookup_or 0 k reserved)
  unfolding refund_at
  refund_at-covered k o x e = ground (arith, covered k)

  refunds_from :
      (amounts : Store Amount) × (refund_amounts (batch_info reserved r).refund_map ≡ ok amounts)
      × ((k : Address)
          → paying_in k r.match_result_by_bidder + lookup_or 0 k amounts ≡ lookup_or 0 k reserved)
  refunds_from =
      let ordered = subst IsOrdered (sym (batch_info-refund_map reserved r)) (
        insert_each-IsOrdered (refund_of reserved) r.match_result_by_bidder _
          (insert_each-IsOrdered (λ _ x. some x) reserved [] tt)) in
      let (amounts, e, each) =
        refund_amounts-covered (batch_info reserved r).refund_map ordered (λ k h.
          (refund_at-covered k (lookup k r.match_result_by_bidder) none refl).0
            (sym (batch_info-lookup k) ∙ h)) in
      (
        amounts,
        e,
        λ k.
            (refund_at-covered k (lookup k r.match_result_by_bidder) (lookup k amounts) refl).1
              (sym (batch_info-lookup k) ∙ each k),
      )

module _ ⦃dec : Decimals⦄ (denom : Denom) where
  reserved_amounts_lem :
      (bs : List Bid) (m : Store Amount) (k : ℕ)
      → lookup_or 0 k (reserved_amounts denom bs m) ≡ lookup_or 0 k m + reserved_in denom k bs
  unfolding reserved_amounts
  reserved_amounts_lem [] m k = omega arith
  reserved_amounts_lem (b ∷ bs) m k =
      let amt = convert_to_paying_amount denom b in
      ground (
        arith,
        reserved_amounts_lem bs (add_amount b.bidder amt m) k,
        lookup-insert k b.bidder (lookup_or 0 b.bidder m + amt) m,
      )

  reserved_amounts-IsOrdered :
      (bs : List Bid) (m : Store Amount) → IsOrdered m → IsOrdered (reserved_amounts denom bs m)
  unfolding reserved_amounts
  reserved_amounts-IsOrdered [] m o = o
  reserved_amounts-IsOrdered (b ∷ bs) m o =
      reserved_amounts-IsOrdered bs _ (insert-IsOrdered b.bidder _ m o)

  module _ (bids : List Bid) (selling_amt : Amount) (allowed : List AllowedBidder)
      (r : MatchResult) where
    -- A match that is found stands at a positive price, so it charges no more than is reserved.
    found_within :
        All (IsPayable denom) bids
        → IsFound (match_price_of bids selling_amt allowed) (bids_by_price bids).0 empty_match r
        → IsOrdered r.match_result_by_bidder
          × ((k : Address) → paying_in k r.match_result_by_bidder ≤ reserved_in denom k bids)
    unfolding lookup
    found_within payable (inl e) = rw e (tt, λ k. omega arith)
    found_within payable (inr (i, p, at, found)) =
        let positive =
          get_elem?-All (λ (q : ℕ). 0 < q) (bids_by_price bids).0 i p
            (bids_by_price-prices (λ (q : ℕ). 0 < q) bids (All-map bids payable (λ b x. x.0))) at in
        let (st, _, same, inv) =
          match_at-MatchInv p (bids_by_price bids).0 (bids_by_price bids).1 selling_amt allowed r
            true found in
        (
          subst (λ (x : MatchResult). IsOrdered x.match_result_by_bidder) same inv.ordered,
          match_at-reserved denom p positive bids payable selling_amt allowed r true found,
        )

    -- If every bid of a batch auction is stated as its type asks and has a positive price, then for the
    -- match that the search returns no refund is negative, and each bidder's refund and payment add
    -- up to what the bidder's bids have reserved.
    pub refunds_add_up :
        All (IsPayable denom) bids
        → best_match bids selling_amt allowed ≡ ok (some r)
        → (amounts : Store Amount) × (refund_amounts
              (batch_info (reserved_amounts denom bids []) r).refund_map
            ≡ ok amounts)
          × ((k : Address)
              → paying_in k r.match_result_by_bidder + lookup_or 0 k amounts
                ≡ reserved_in denom k bids)
    unfolding lookup
    refunds_add_up payable h =
        let reserved = reserved_amounts denom bids [] in
        let all = reserved_amounts_lem bids [] in
        let (ordered, within) = found_within payable (
          subst (Ends (match_price_of bids selling_amt allowed) (bids_by_price bids).0 empty_match)
            h (best_match-Ends bids selling_amt allowed)) in
        let (amounts, e, each) =
          refunds_from reserved r (reserved_amounts-IsOrdered bids [] tt) ordered
            (λ k. omega (arith, within k, all k)) in
        (amounts, e, λ k. omega (arith, each k, all k))
