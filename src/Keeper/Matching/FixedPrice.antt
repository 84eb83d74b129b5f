-- ===== src/Keeper/Matching/FixedPrice.antt =====
-- The allocation of a fixed-price auction (x/fundraising/keeper/match.go).
-- What an auction's bids get, in total.
use fundraising.Keeper.Matching.{
  MatchingInfo, add_amount, allocate_fixed_price, calculate_fixed_price_allocation,
}
use fundraising.Keeper.State.{State}
use fundraising.Keeper.Tables.{get_bids_by_auction_id}
use fundraising.Prelude.{List, Option, [], arith, length, none, refl, some, ℕ, ◌+◌, ◌∷◌, ◌≡◌}
use fundraising.Prelude.Store.{
  IsOrdered, Store, insert-IsOrdered, lookup, lookup_or, sum_of, sum_of-insert_new,
  sum_of-insert_old,
}
use fundraising.Sdk.{Amount, Denom}
use fundraising.Sdk.Decimals.{Decimals}
use fundraising.Types.{Auction, Bid}
use fundraising.Types.Bids.{convert_to_selling_amount}

abbrev pub total_selling : ⦃dec : Decimals⦄ → Denom → List Bid → Amount
total_selling denom [] = 0
total_selling denom (b ∷ bs) = convert_to_selling_amount denom b + total_selling denom bs

abbrev pub total_allocated : Store Amount → Amount
total_allocated = sum_of (λ x. x)

add_amount-total :
    (k : ℕ) (amt : Amount) (m : Store Amount)
    → IsOrdered m
    → total_allocated (add_amount k amt m) ≡ total_allocated m + amt
add_amount-total k amt m o = go (lookup k m) refl
  where
    go :
        (r : Option Amount)
        → lookup k m ≡ r
        → total_allocated (add_amount k amt m) ≡ total_allocated m + amt
    go none e =
        let h = sum_of-insert_new (λ (x : ℕ). x) k (lookup_or 0 k m + amt) m e in ground arith
    go (some w) e =
        let h = sum_of-insert_old (λ (x : ℕ). x) k (lookup_or 0 k m + amt) w m o e in ground arith

module _ ⦃dec : Decimals⦄ (denom : Denom) where
  allocate_fixed_price_lem :
      (bs : List Bid) (info : MatchingInfo)
      → IsOrdered info.allocation_map
      → let out = allocate_fixed_price denom bs info in
        (total_allocated out.allocation_map
          ≡ total_allocated info.allocation_map + total_selling denom bs)
        × (out.total_matched_amount ≡ info.total_matched_amount + total_selling denom bs)
        × (out.matched_len ≡ info.matched_len + length bs)
  unfolding allocate_fixed_price
  allocate_fixed_price_lem [] info o = omega arith
  allocate_fixed_price_lem (b ∷ bs) info o =
      let amt = convert_to_selling_amount denom b in
      let next : MatchingInfo = record info {
        allocation_map = add_amount b.bidder amt info.allocation_map;
        total_matched_amount = info.total_matched_amount + amt;
        matched_len = info.matched_len + 1;
      } in
      let rest = allocate_fixed_price_lem bs next (
        insert-IsOrdered b.bidder (lookup_or 0 b.bidder info.allocation_map + amt)
          info.allocation_map o) in
      let added = add_amount-total b.bidder amt info.allocation_map o in omega arith

-- The allocation of a fixed-price auction gives out, over all bidders, exactly what its bids get in
-- total, reports that total, and counts the bids.
pub calculate_fixed_price_allocation_total :
    ⦃dec : Decimals⦄ (a : Auction) (s : State)
    → let info = calculate_fixed_price_allocation a s in
      let bids = get_bids_by_auction_id a.id s in
      (total_allocated info.allocation_map ≡ total_selling a.paying_coin_denom bids)
      × (info.total_matched_amount ≡ total_selling a.paying_coin_denom bids)
      × (info.matched_len ≡ length bids)
unfolding calculate_fixed_price_allocation
calculate_fixed_price_allocation_total a s =
    let empty : MatchingInfo = record {
      matched_len = 0;
      matched_price = a.start_price;
      total_matched_amount = 0;
      allocation_map = [];
      reserved_matched_map = [];
      refund_map = [];
    } in
    let all =
      allocate_fixed_price_lem a.paying_coin_denom (get_bids_by_auction_id a.id s) empty tt in
    omega arith
