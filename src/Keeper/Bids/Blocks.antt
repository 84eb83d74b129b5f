-- ===== src/Keeper/Bids/Blocks.antt =====
-- A block (x/fundraising/abci.go) keeps the tables of bids consistent: the one thing that it writes
-- there are the marks of matched bids (x/fundraising/keeper/match.go).
use fundraising.Keeper.Action.{◌>>=◌}
use fundraising.Keeper.After.{after_lift}
use fundraising.Keeper.Bids.Consistent.{
  IsConsistent, KeepsBids-IsConsistent, get_bid-set_bid_at, get_bid_own,
}
use fundraising.Keeper.Bids.Stored.{both_eq, set_bid-IsConsistent}
use fundraising.Keeper.Bids.Untouched.{set_matched_bids_len-KeepsBids}
use fundraising.Keeper.Frame.{Relates}
use fundraising.Keeper.Matching.{best_match, calculate_batch_allocation, empty_match, store_matched}
use fundraising.Keeper.Matching.Search.{Ends, best_match-Ends, match_price_of}
use fundraising.Keeper.State.{State}
use fundraising.Keeper.Tables.{
  get_allowed_bidders_by_auction, get_bid, get_bids_by_auction_id, set_bid,
}
use fundraising.Prelude.{
  ==_iff, All, Bool, Bool-cases, List, Option, [], ap, arith, if◌then◌else◌, inl, inr, none, refl,
  some, subst, true, ℕ, ◌&&◌, ◌==◌, ◌∙◌, ◌∷◌, ◌≡◌,
}
use fundraising.Prelude.Store.{IsOrdered, Store, lookup, lookup-Above, lookup_or, values}
use fundraising.Sdk.{Amount}
use fundraising.Sdk.Decimals.{Decimals}
use fundraising.Sdk.Outcome.{ok, panic}
use fundraising.Types.{AllowedBidder, Auction, Bid}
use fundraising.Types.Bids.{set_matched}
use fundraising.Types.Matching.{MatchResult, bids_by_price}
use fundraising.Types.Matching.Matched.{match_at-matched}
use fundraising.Types.Matching.OrderBook.{All-map}
use mathlib.Core.Path.{sym}

-- A bid that stands in the table, perhaps with another price, coin or mark.
abbrev pub IsStored : State → Bid → Type 0
IsStored s b = (old : Bid) × (get_bid b.auction_id b.id s ≡ some old) × (old.bidder ≡ b.bidder)

absent_present : {V : Type 0} (o o' : Option V) (w : V) → o ≡ none → o ≡ some w → o' ≡ some w
absent_present o o' w h e = cc

pub values-All :
    {V : Type 0} (P : V → Type 0) (m : Store V)
    → IsOrdered m
    → ((i : ℕ) (v : V) → lookup i m ≡ some v → P v)
    → All P (values m)
unfolding lookup
values-All P [] o h = tt
values-All P ((j, v) ∷ m) o h =
    (h j v (ground arith), values-All P m o.1 (λ i w e. h i w (later i w e)))
  where
    later : (i : ℕ) (w : _) → lookup i m ≡ some w → lookup i ((j, v) ∷ m) ≡ some w
    later i w e = elim (Bool-cases (i == j)) [
      | inl same ↦
          let absent =
            subst (λ (k : ℕ). lookup k m ≡ none) (sym ((==_iff i j).0 same))
              (lookup-Above j m o.0) in
          absent_present (lookup i m) (lookup i ((j, v) ∷ m)) w absent e
      | inr differ ↦ rw differ e
    ]

module _ (s : State) (c : IsConsistent s) where
  All-IsStored : (k : ℕ) → All (IsStored s) (get_bids_by_auction_id k s)
  unfolding get_bids_by_auction_id get_bid
  All-IsStored k =
      values-All (IsStored s) (lookup_or [] k s.bids) (c.bids_ordered k)
        (λ i v e. (v, get_bid_own k i v s c e, refl))

  -- A bid that stands in the table may be stored again.
  pub stored-IsConsistent : (b : Bid) → IsStored s b → IsConsistent (set_bid b s)
  stored-IsConsistent b (old, g, same) =
      set_bid-IsConsistent b s c (c.bids_keyed b.auction_id b.id old g).2
        (λ other h. (let eq : other ≡ old = cc in ap (λ x. x.bidder) eq) ∙ same)

set_bid-IsStored : (b x : Bid) (s : State) → IsStored s b → IsStored s x → IsStored (set_bid b s) x
set_bid-IsStored b x s (ob, gb, hb) (ox, gx, hx) =
    let at = get_bid-set_bid_at b s x.auction_id x.id in
    elim (Bool-cases (x.auction_id == b.auction_id && x.id == b.id)) [
      | inl e ↦
          let (p, q) = both_eq x.auction_id b.auction_id x.id b.id e in
          (b, at ∙ ap (λ (t : Bool). if t then some b else get_bid x.auction_id x.id s) e, cc)
      | inr e ↦
          (ox, at ∙ ap (λ (t : Bool). if t then some b else get_bid x.auction_id x.id s) e ∙ gx, hx)
    ]

store_matched-IsConsistent :
    (bs : List Bid) (s : State)
    → IsConsistent s
    → All (IsStored s) bs
    → IsConsistent (store_matched bs s)
unfolding store_matched set_matched
store_matched-IsConsistent [] s c q = c
store_matched-IsConsistent (b ∷ bs) s c q =
    store_matched-IsConsistent bs (set_bid (set_matched true b) s)
      (stored-IsConsistent s c (set_matched true b) q.0)
      (All-map bs q.1 (λ x h. set_bid-IsStored (set_matched true b) x s q.0 h))

pub found_some :
    (o : Option MatchResult) (r : MatchResult)
    → (elim o [ none ↦ panic | some x ↦ ok x ]) ≡ ok r
    → o ≡ some r
found_some none r h = cc
found_some (some x) r h = cc

module _ {κ} ⦃dec : Decimals⦄ (Q : Bid → Type κ) (bids : List Bid) (selling_amt : Amount)
    (allowed : List AllowedBidder) where
  pub best_match-matched :
      (r : MatchResult)
      → All Q bids
      → best_match bids selling_amt allowed ≡ ok (some r)
      → All Q r.matched_bids
  best_match-matched r q h =
      let test = match_price_of bids selling_amt allowed in
      let prices = (bids_by_price bids).0 in
      elim (subst (Ends test prices empty_match) h (best_match-Ends bids selling_amt allowed)) [
        | inl e ↦ subst (λ (x : MatchResult). All Q x.matched_bids) (sym e) tt
        | inr (_, p, _, e) ↦ match_at-matched Q bids p selling_amt allowed r true q e
      ]

-- A relation that a consistent state is followed by a consistent one.
abbrev pub StaysConsistent : State → State → Type 0
StaysConsistent s t = IsConsistent s → IsConsistent t

module _ ⦃dec : Decimals⦄ where
  pub calculate_batch_allocation-StaysConsistent :
      (a : Auction) → Relates StaysConsistent (calculate_batch_allocation a)
  unfolding calculate_batch_allocation ◌>>=◌
  calculate_batch_allocation-StaysConsistent a s c =
      let bids = get_bids_by_auction_id a.id s in
      let allowed = get_allowed_bidders_by_auction a.id s in
      after_lift IsConsistent (best_match bids a.selling_coin.amount allowed) _ s c (λ best e.
        after_lift IsConsistent (elim best [ none ↦ panic | some r ↦ ok r ]) _ s c
          (λ r f.
            let found : best_match bids a.selling_coin.amount allowed ≡ ok (some r) =
              e ∙ ap ok (found_some best r f) in
            KeepsBids-IsConsistent (store_matched r.matched_bids s) _
              (set_matched_bids_len-KeepsBids a.id _ (store_matched r.matched_bids s))
              (store_matched-IsConsistent r.matched_bids s c (
                best_match-matched (IsStored s) bids a.selling_coin.amount allowed r
                  (All-IsStored s c a.id) found))))
