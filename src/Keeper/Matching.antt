-- ===== src/Keeper/Matching.antt =====
-- x/fundraising/keeper/match.go: what each bidder of an auction is given and refunded.
pub mod Search
pub mod FixedPrice
pub mod Refunds
use fundraising.Keeper.Action.{Action, gets, lift, modify, pure, ◌>>=◌, ◌>>◌}
use fundraising.Keeper.State.{State}
use fundraising.Keeper.Tables.{
  get_allowed_bidders_by_auction, get_bids_by_auction_id, set_bid, set_matched_bids_len,
}
use fundraising.Prelude.{
  Bool, List, Option, [], false, get_elem?, if◌then◌else◌, length, ltb, none, some, suc, true, zero,
  ℕ, ◌+◌, ◌-◌, ◌/◌, ◌∷◌,
}
use fundraising.Prelude.Store.{Store, insert, lookup_or}
use fundraising.Sdk.{Address, Amount, Denom}
use fundraising.Sdk.Decimals.{Decimal, Decimals}
use fundraising.Sdk.Outcome.{Result, err, ok, panic}
use fundraising.Types.{AllowedBidder, Auction, Bid}
use fundraising.Types.Bids.{convert_to_paying_amount, convert_to_selling_amount, set_matched}
use fundraising.Types.Matching.{BidderMatchResult, MatchResult, bids_by_price, match_at}

pub record MatchingInfo : Type 0 where
  pub matched_len : ℕ
  pub matched_price : Decimal
  pub total_matched_amount : Amount
  pub allocation_map : Store Amount
  pub reserved_matched_map : Store Amount
  -- `none` is a negative amount: the SDK refuses a coin of it with a panic.
  pub refund_map : Store (Option Amount)

abbrev pub empty_match : MatchResult
empty_match = record {
  match_price = 0;
  matched_amount = 0;
  matched_bids = [];
  match_result_by_bidder = [];
}

abbrev pub add_amount : Address → Amount → Store Amount → Store Amount
add_amount bidder amt m = insert bidder (lookup_or 0 bidder m + amt) m

abbrev pub sub_refund : Amount → Amount → Option Amount
sub_refund reserved paying = if ltb reserved paying then none else some (reserved - paying)

abbrev pub keep_match : MatchResult → Option MatchResult × Bool → MatchResult
keep_match best (some r, true) = r
keep_match best (some r, false) = best
keep_match best (none, found) = best

-- The closure's test at `i`: a match at the price that stands `i` places before the end.
abbrev pub probe :
    (Decimal → Result (Option MatchResult × Bool))
    → List Decimal
    → ℕ
    → Result (Option MatchResult × Bool)
probe test prices i = elim (get_elem? prices (length prices - 1 - i)) [
  | none ↦ panic
  | some p ↦ test p
]

-- `sort.Search`, the search for the least `i` below `j` whose test holds. Each match that the
-- test finds replaces the best one. `ok none` means that the fuel has run out.
unfoldable pub search_match :
    (Decimal → Result (Option MatchResult × Bool))
    → List Decimal
    → ℕ
    → ℕ
    → ℕ
    → MatchResult
    → Result (Option MatchResult)
search_match test prices zero i j best = ok none
search_match test prices (suc fuel) i j best =
    let h = (i + j) / 2 in
    let rest : Result (Option MatchResult) = elim (probe test prices h) [
      | ok (o, found) ↦ elim found [
        | true ↦ search_match test prices fuel i h (keep_match best (o, true))
        | false ↦ search_match test prices fuel (h + 1) j best
      ]
      | err e ↦ err e
      | panic ↦ panic
    ] in
    if ltb i j then rest else ok (some best)

module _ ⦃dec : Decimals⦄ where
  -- The loop of `CalculateFixedPriceAllocation`.
  unfoldable pub allocate_fixed_price : Denom → List Bid → MatchingInfo → MatchingInfo
  allocate_fixed_price denom [] info = info
  allocate_fixed_price denom (b ∷ bs) info =
      let amt = convert_to_selling_amount denom b in
      allocate_fixed_price denom bs (record info {
        allocation_map = add_amount b.bidder amt info.allocation_map;
        total_matched_amount = info.total_matched_amount + amt;
        matched_len = info.matched_len + 1;
      })

  unfoldable pub calculate_fixed_price_allocation : Auction → State → MatchingInfo
  calculate_fixed_price_allocation a s =
      allocate_fixed_price a.paying_coin_denom (get_bids_by_auction_id a.id s) (record {
        matched_len = 0;
        matched_price = a.start_price;
        total_matched_amount = 0;
        allocation_map = [];
        reserved_matched_map = [];
        refund_map = [];
      })

  unfoldable pub best_match : List Bid → Amount → List AllowedBidder → Result (Option MatchResult)
  best_match bids selling_amt allowed =
      let (prices, by_price) = bids_by_price bids in
      search_match (λ p. match_at p prices by_price selling_amt allowed) prices (length prices + 1)
        0 (length prices) empty_match

  -- `reservedAmtByBidder`
  unfoldable pub reserved_amounts : Denom → List Bid → Store Amount → Store Amount
  reserved_amounts denom [] m = m
  reserved_amounts denom (b ∷ bs) m =
      reserved_amounts denom bs (add_amount b.bidder (convert_to_paying_amount denom b) m)

-- The loop that gives every bidder nothing and refunds all.
unfoldable pub refund_all : Store Amount → MatchingInfo → MatchingInfo
refund_all [] info = info
refund_all ((k, reserved) ∷ m) info = refund_all m (record info {
  allocation_map = insert k 0 info.allocation_map;
  reserved_matched_map = insert k 0 info.reserved_matched_map;
  refund_map = insert k (some reserved) info.refund_map;
})

-- The loop over the results of the match.
unfoldable pub give_matched : Store Amount → Store BidderMatchResult → MatchingInfo → MatchingInfo
give_matched reserved [] info = info
give_matched reserved ((k, r) ∷ m) info = give_matched reserved m (record info {
  allocation_map = insert k r.matched_amount info.allocation_map;
  reserved_matched_map = insert k r.paying_amount info.reserved_matched_map;
  refund_map = insert k (sub_refund (lookup_or 0 k reserved) r.paying_amount) info.refund_map;
})

-- `bid.SetMatched(true)` and `SetBid`, for each matched bid.
unfoldable pub store_matched : List Bid → State → State
store_matched [] s = s
store_matched (b ∷ bs) s = store_matched bs (set_bid (set_matched true b) s)

abbrev pub batch_info : Store Amount → MatchResult → MatchingInfo
batch_info reserved r = give_matched reserved r.match_result_by_bidder (
    refund_all reserved (record {
      matched_len = length r.matched_bids;
      matched_price = r.match_price;
      total_matched_amount = r.matched_amount;
      allocation_map = [];
      reserved_matched_map = [];
      refund_map = [];
    }))

-- `CalculateBatchAllocation`
unfoldable pub calculate_batch_allocation : ⦃dec : Decimals⦄ → Auction → Action MatchingInfo
calculate_batch_allocation a = do
  bids ← gets (get_bids_by_auction_id a.id)
  allowed ← gets (get_allowed_bidders_by_auction a.id)
  best ← lift (best_match bids a.selling_coin.amount allowed)
  r ← lift (elim best [ none ↦ panic | some r ↦ ok r ])
  let info = batch_info (reserved_amounts a.paying_coin_denom bids []) r
  modify (store_matched r.matched_bids)
  modify (set_matched_bids_len a.id info.matched_len)
  pure info
