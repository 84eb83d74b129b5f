-- ===== src/Examples/Matching.antt =====
-- Examples for the matching of bids and for vesting: two bids of a batch auction, and two schedules.
use fundraising.Examples.World.{fixed_point}
use fundraising.Keeper.Matching.{best_match, empty_match, probe}
use fundraising.Keeper.Matching.Search.{Ends, best_match-Ends, best_match_lowest, match_price_of}
use fundraising.Prelude.{
  Bool, List, Option, [], arith, false, if◌then◌else◌, length, ltb, none, refl, some, subst, suc,
  true, zero, ℕ, ◌*◌, ◌+◌, ◌/◌, ◌<◌, ◌↔◌, ◌∷◌, ◌≡◌, ◌≤◌, ◌⊎◌,
}
use fundraising.Prelude.Store.{Store, insert, lookup}
use fundraising.Sdk.{Address, new_coin}
use fundraising.Sdk.Decimals.{one}
use fundraising.Sdk.Outcome.{Result, ok}
use fundraising.Types.{AllowedBidder, Bid, BidType, VestingSchedule}
use fundraising.Types.Bids.{
  convert_amounts_cover, convert_to_paying_amount, convert_to_selling_amount,
}
use fundraising.Types.Matching.{
  MatchResult, add_result, bid_amount, bid_less, biddable_amounts, bids_by_price, group_by_price,
  insert_before, match_at, match_bid, match_bids, match_prices, paying_amount_at, record_match,
  sort_bids, sort_slice,
}
use fundraising.Types.Matching.Bounds.{matched_in, paying_in, total_matched}
use fundraising.Types.Matching.Limits.{match_at_limits, max_bid_of}
use fundraising.Types.Vesting.{
  RisesFrom, total_weight, validate_vesting_schedules, validate_vesting_schedules_iff,
}
use mathlib.Core.Path.{sym}

abbrev worth_bid : Bid
worth_bid = record {
  auction_id = 1;
  bidder = 11;
  id = 1;
  typ = BidType.batch_worth;
  price = 2 * one;
  coin = new_coin 2 100;
  is_matched = false;
}

abbrev many_bid : Bid
many_bid = record {
  auction_id = 1;
  bidder = 12;
  id = 2;
  typ = BidType.batch_many;
  price = one;
  coin = new_coin 1 30;
  is_matched = false;
}

abbrev pub two_bids : List Bid
two_bids = many_bid ∷ worth_bid ∷ []

abbrev pub two_bidders : List AllowedBidder
two_bidders =
    record { bidder = 11; max_bid_amount = 60 } ∷ record { bidder = 12; max_bid_amount = 500 } ∷ []

-- At the price 1 the first bidder gets no more than 60, and pays 60; the second gets and pays 30.
abbrev pub both_matched : MatchResult
both_matched = record {
  match_price = one;
  matched_amount = 90;
  matched_bids = worth_bid ∷ many_bid ∷ [];
  match_result_by_bidder =
      (11, record { paying_amount = 60; matched_amount = 60 })
      ∷ (12, record { paying_amount = 30; matched_amount = 30 })
      ∷ [];
}

abbrev order_book : Store (List Bid)
order_book = (one, many_bid ∷ []) ∷ (2 * one, worth_bid ∷ []) ∷ []

match_at_limits_example :
    (both_matched.match_price ≡ one)
    × (total_matched both_matched.match_result_by_bidder ≡ 90)
    × (90 ≤ 100)
    × ((k : Address) → matched_in k both_matched.match_result_by_bidder ≤ max_bid_of k two_bidders)
    × ((k : Address)
        → matched_in k both_matched.match_result_by_bidder * one
          ≤ paying_in k both_matched.match_result_by_bidder * one)
unfolding match_at match_prices match_bids match_bid bid_amount record_match add_result
    biddable_amounts paying_amount_at insert lookup fixed_point
match_at_limits_example =
    match_at_limits one (2 * one ∷ one ∷ []) order_book 100 two_bidders both_matched true refl

abbrev two_schedules : List VestingSchedule
two_schedules =
    record { release_time = 50; weight = one / 4 }
    ∷ record { release_time = 60; weight = one / 4 * 3 }
    ∷ []

convert_amounts_cover_example :
    (100 * (2 * one) ≤ 200 * one) × (200 * one < 100 * (2 * one) + 2 * one)
unfolding convert_to_selling_amount convert_to_paying_amount fixed_point
convert_amounts_cover_example =
    convert_amounts_cover 2 (record worth_bid { coin = new_coin 2 200 }) (omega arith)

validate_vesting_schedules_iff_example :
    (validate_vesting_schedules two_schedules 40 ≡ ok tt)
    ↔ ((two_schedules ≡ []) ⊎ (RisesFrom 40 two_schedules × (total_weight two_schedules ≡ one)))
validate_vesting_schedules_iff_example = validate_vesting_schedules_iff two_schedules 40

best_match-Ends_example :
    Ends
      (match_price_of two_bids 100 two_bidders)
      (bids_by_price two_bids).0
      empty_match
      (best_match two_bids 100 two_bidders)
best_match-Ends_example = best_match-Ends two_bids 100 two_bidders

-- With 80 coins to sell, the two bids do not fit at the price 1, and the first one fits at 2.
abbrev first_matched : MatchResult
first_matched = record {
  match_price = 2 * one;
  matched_amount = 50;
  matched_bids = worth_bid ∷ [];
  match_result_by_bidder = (11, record { paying_amount = 100; matched_amount = 50 }) ∷ [];
}

abbrev probe_two : ℕ → Result (Option MatchResult × Bool)
probe_two k = probe (match_price_of two_bids 80 two_bidders) (bids_by_price two_bids).0 k

two_prices : (bids_by_price two_bids).0 ≡ 2 * one ∷ one ∷ []
unfolding bids_by_price sort_bids sort_slice insert_before bid_less group_by_price insert lookup
two_prices = refl

below_fails : (k : ℕ) → k < 1 → (o : Option MatchResult) × (probe_two k ≡ ok (o, false))
unfolding bids_by_price sort_bids sort_slice insert_before bid_less group_by_price match_at
    match_prices match_bids match_bid bid_amount record_match add_result biddable_amounts
    paying_amount_at insert lookup fixed_point
below_fails zero h = (none, refl)
below_fails (suc k) h = absurd (omega arith)

above_matches :
    (k : ℕ)
    → 1 ≤ k
    → k < length (bids_by_price two_bids).0
    → probe_two k ≡ ok (some first_matched, true)
unfolding bids_by_price sort_bids sort_slice insert_before bid_less group_by_price match_at
    match_prices match_bids match_bid bid_amount record_match add_result biddable_amounts
    paying_amount_at insert lookup fixed_point
above_matches zero l h = absurd (omega arith)
above_matches (suc zero) l h = refl
above_matches (suc (suc k)) l h = absurd (omega arith)

best_match_lowest_example :
    best_match two_bids 80 two_bidders
    ≡ ok (some (if ltb 1 (length (bids_by_price two_bids).0) then first_matched else empty_match))
best_match_lowest_example =
    best_match_lowest two_bids 80 two_bidders (λ k. first_matched) 1
      (subst (λ ps. 1 ≤ length ps) (sym two_prices) (omega arith)) below_fails above_matches
