-- ===== src/Examples/Refunds.antt =====
-- An example for the refunds of a batch auction: two bids, both matched at the price 1.
use fundraising.Examples.Matching.{both_matched, two_bidders, two_bids}
use fundraising.Examples.World.{fixed_point}
use fundraising.Keeper.Closing.{refund_amounts}
use fundraising.Keeper.Matching.{batch_info, best_match, reserved_amounts, search_match}
use fundraising.Keeper.Matching.Refunds.{refunds_add_up}
use fundraising.Prelude.{[], arith, inl, inr, refl, some, ◌+◌, ◌≡◌}
use fundraising.Prelude.Store.{Store, insert, lookup, lookup_or}
use fundraising.Sdk.{Address, Amount}
use fundraising.Sdk.Outcome.{ok}
use fundraising.Types.Matching.{
  add_result, bid_amount, bid_less, biddable_amounts, bids_by_price, group_by_price, insert_before,
  match_at, match_bid, match_bids, match_prices, paying_amount_at, record_match, sort_bids,
  sort_slice,
}
use fundraising.Types.Matching.Bounds.{paying_in}
use fundraising.Types.Matching.Reserved.{reserved_in}

matched_at_one : best_match two_bids 100 two_bidders ≡ ok (some both_matched)
unfolding best_match search_match bids_by_price sort_bids sort_slice insert_before bid_less
    group_by_price match_at match_prices match_bids match_bid bid_amount record_match add_result
    biddable_amounts paying_amount_at insert lookup fixed_point
matched_at_one = refl

refunds_add_up_example :
    (amounts : Store Amount) × (refund_amounts
        (batch_info (reserved_amounts 2 two_bids []) both_matched).refund_map
      ≡ ok amounts)
    × ((k : Address)
        → paying_in k both_matched.match_result_by_bidder + lookup_or 0 k amounts
          ≡ reserved_in 2 k two_bids)
refunds_add_up_example =
    refunds_add_up 2 two_bids 100 two_bidders both_matched
      ((omega arith, inr (refl, omega arith)), ((omega arith, inl (refl, refl)), tt)) matched_at_one
