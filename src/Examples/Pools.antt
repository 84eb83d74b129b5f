-- ===== src/Examples/Pools.antt =====
-- Examples for the reserves: the market with one bid, then a block or another message.
use fundraising.Examples.Methods.{base_of, batch_sale, fixed_sale, idle_sale, many_bid}
use fundraising.Examples.Tables.{another, few, none-some, stocked, stocked-IsConsistent}
use fundraising.Examples.World.{fixed_point, no_hooks, numbered_accounts, plain_coins, simple_bank}
use fundraising.Keeper.Action.{must, ◌>>=◌}
use fundraising.Keeper.Bids.{
  check_min_bid_price, place_bid, place_by_type, validate_batch_bid, validate_batch_many_bid,
}
use fundraising.Keeper.Closing.{
  allocate_selling_coin, close_batch_auction, close_fixed_price_auction, extend_from, extend_round,
  finish_batch_auction, needs_extended_round, refund_amounts, refund_paying_coin,
  refund_remaining_selling_coin, transfers_from, transfers_to,
}
use fundraising.Keeper.Closing.Release.{release_queue, release_queues, release_vesting_paying_coin}
use fundraising.Keeper.Env.{call_hooks}
use fundraising.Keeper.Execution.{
  begin_blocker, execute_auction, execute_auctions, execute_stand_by_status, execute_started_status,
  execute_vesting_status,
}
use fundraising.Keeper.Fees.{
  fund_community_pool, input_output_coins, pay_place_bid_fee, reserve_paying_coin, send_coins,
}
use fundraising.Keeper.Invariants.{
  paying_pool_reserve_amount_invariant, selling_pool_reserve_amount_invariant, total_bids,
}
use fundraising.Keeper.Matching.{
  allocate_fixed_price, best_match, calculate_batch_allocation, calculate_fixed_price_allocation,
  give_matched, refund_all, reserved_amounts, search_match, store_matched,
}
use fundraising.Keeper.Messages.{handle, place_bid_msg, validate_basic}
use fundraising.Keeper.Pools.Runs.{
  LiveRun, LiveRun-pool_invariants, begins, then_block, then_message,
}
use fundraising.Keeper.Pools.{Everyone, IsFunded, IsWellMade, bid_total}
use fundraising.Keeper.Pools.Blocks.{begin_blocker-IsFunded}
use fundraising.Keeper.Pools.Messages.{handle-IsFunded}
use fundraising.Keeper.Pools.Unbroken.{IsFunded-pool_invariants}
use fundraising.Keeper.State.{State}
use fundraising.Keeper.Tables.{
  get_allowed_bidder, get_allowed_bidders_by_auction, get_auction, get_auctions, get_bid,
  get_bids_by_auction_id, get_last_bid_id, get_last_matched_bids_len, get_next_bid_id_with_update,
  get_vesting_queues_by_auction_id, set_auction, set_bid, set_matched_bids_len, set_vesting_queue,
}
use fundraising.Keeper.Vesting.{
  apply_schedules, apply_vesting_schedules, set_vesting_queues, split_queues, weighted_amount,
}
use fundraising.Prelude.{
  ==_iff, Bool, [], arith, false, if◌then◌else◌, inl, inr, none, refl, some, subst, true, ℕ, ◌==◌,
  ◌∷◌, ◌≡◌, ◌≤◌, ◌⊎◌,
}
use fundraising.Prelude.Store.{insert, lookup, lookup_or}
use fundraising.Sdk.Decimals.{one}
use fundraising.Sdk.Outcome.{ok}
use fundraising.Types.{Auction, AuctionStatus, AuctionType, Bid, BidType, Kind}
use fundraising.Types.Auctions.{
  derive_address, last_time, paying_reserve_address, selling_reserve_address, set_end_times,
  set_status, should_auction_closed, should_auction_started, vesting_reserve_address,
}
use fundraising.Types.Bids.{convert_to_paying_amount, convert_to_selling_amount, set_matched}
use fundraising.Types.Matching.{
  add_result, bid_amount, bid_less, biddable_amounts, bids_by_price, group_by_price, insert_before,
  match_at, match_bid, match_bids, match_prices, paying_amount_at, record_match, sort_bids,
  sort_slice,
}
use fundraising.Types.Msgs.{validate_place_bid}
use fundraising.Types.Vesting.{should_release}
use mathlib.Core.Path.{sym}

one_of_three :
    (k : ℕ) (x y z a : Auction)
    → lookup k ((1, x) ∷ (2, y) ∷ (3, z) ∷ []) ≡ some a
    → ((k ≡ 1) × (a ≡ x)) ⊎ (((k ≡ 2) × (a ≡ y)) ⊎ ((k ≡ 3) × (a ≡ z)))
unfolding lookup
one_of_three k x y z a h = go (k == 1) (k == 2) (k == 3) refl refl refl h
  where
    go :
        (p q r : Bool)
        → k == 1 ≡ p
        → k == 2 ≡ q
        → k == 3 ≡ r
        → (if p then some x else if q then some y else if r then some z else none) ≡ some a
        → ((k ≡ 1) × (a ≡ x)) ⊎ (((k ≡ 2) × (a ≡ y)) ⊎ ((k ≡ 3) × (a ≡ z)))
    go true q r e f g h = inl ((==_iff k 1).0 e, cc)
    go false true r e f g h = inr (inl ((==_iff k 2).0 f, cc))
    go false false true e f g h = inr (inr ((==_iff k 3).0 g, cc))
    go false false false e f g h = cc

only_bid :
    (k i : ℕ) (x b : Bid)
    → lookup i (lookup_or [] k ((2, (1, x) ∷ []) ∷ [])) ≡ some b
    → (k ≡ 2) × (b ≡ x)
unfolding lookup
only_bid k i x b h = go (k == 2) (i == 1) refl refl (ground arith)
  where
    go :
        (p q : Bool)
        → k == 2 ≡ p
        → i == 1 ≡ q
        → (if p then (if q then some x else none) else none) ≡ some b
        → (k ≡ 2) × (b ≡ x)
    go true true e f h = ((==_iff k 2).0 e, cc)
    go true false e f h = cc
    go false q e f h = cc

stored_bid : (k i : ℕ) (b : Bid) → get_bid k i stocked ≡ some b → (k ≡ 2) × (b ≡ many_bid)
unfolding get_bid set_bid insert lookup
stored_bid k i b h = only_bid k i many_bid b h

of_market :
    (P : ℕ → Auction → Type 0)
    → P 1 fixed_sale
    → P 2 batch_sale
    → P 3 idle_sale
    → (k : ℕ) (a : Auction) → get_auction k stocked ≡ some a
    → P k a
unfolding get_auction set_bid
of_market P one two three k a h = elim (one_of_three k fixed_sale batch_sale idle_sale a h) [
  | inl (p, q) ↦ subst (λ i. P i a) (sym p) (subst (P 1) (sym q) one)
  | inr (inl (p, q)) ↦ subst (λ i. P i a) (sym p) (subst (P 2) (sym q) two)
  | inr (inr (p, q)) ↦ subst (λ i. P i a) (sym p) (subst (P 3) (sym q) three)
]

base_IsWellMade :
    (k : ℕ) (typ : AuctionType) (st : AuctionStatus) (kd : Kind)
    → IsWellMade k (record { base = base_of k typ st; kind = kd })
unfolding selling_reserve_address paying_reserve_address vesting_reserve_address derive_address
    numbered_accounts
base_IsWellMade k typ st kd = record {
  own_id = refl;
  own_selling = omega arith;
  own_paying = omega arith;
  own_vesting = omega arith;
  two_coins = λ e. omega arith;
}

none_without : (k : ℕ) → get_auction k stocked ≡ none → lookup_or [] k stocked.bids ≡ []
unfolding get_auction set_bid insert lookup
none_without k e = go (k == 2) refl
  where
    go : (p : Bool) → k == 2 ≡ p → lookup_or [] k stocked.bids ≡ []
    go true q =
        absurd
          (none-some (sym (subst (λ i. lookup i stocked.auctions ≡ none) ((==_iff k 2).0 q) e)))
    go false q = ground arith

stocked-IsFunded : IsFunded Everyone stocked
unfolding lookup set_bid insert total_bids convert_to_paying_amount fixed_point
stocked-IsFunded = record {
  auctions_ordered = omega arith;
  well_made =
      of_market IsWellMade (base_IsWellMade 1 _ _ _) (base_IsWellMade 2 _ _ _)
        (base_IsWellMade 3 _ _ _);
  numbered = of_market (λ k a. k ≤ 3) (omega arith) (omega arith) (omega arith);
  bids_fit = λ k i a b e g typ.
      let (_, same) = stored_bid k i b g in
      subst
        (λ x.
          ((x.typ ≡ BidType.batch_worth) × (x.coin.denom ≡ a.paying_coin_denom))
          ⊎ ((x.typ ≡ BidType.batch_many) × (x.coin.denom ≡ a.selling_coin.denom)))
        (sym same)
        (of_market
          (λ k x.
            ((many_bid.typ ≡ BidType.batch_worth) × (many_bid.coin.denom ≡ x.paying_coin_denom))
            ⊎ ((many_bid.typ ≡ BidType.batch_many) × (many_bid.coin.denom ≡ x.selling_coin.denom)))
          (inr (refl, refl)) (inr (refl, refl)) (inr (refl, refl)) k a e);
  no_bids = none_without;
  funded = λ k a _ e _.
      of_market (λ k x. bid_total k x.paying_coin_denom stocked ≤ 1000) (omega arith) (omega arith)
        (omega arith) k a e;
  stocked = λ k a _ e _.
      of_market (λ k x. x.selling_coin.amount ≤ 1000) (omega arith) (omega arith) (omega arith) k a
        e;
}

abbrev pub next_block : State
next_block = (begin_blocker 45 stocked).1

pub block_passes : begin_blocker 45 stocked ≡ (ok tt, next_block)
unfolding begin_blocker execute_auctions execute_auction execute_stand_by_status
    execute_started_status close_fixed_price_auction close_batch_auction calculate_batch_allocation
    calculate_fixed_price_allocation needs_extended_round extend_round extend_from
    finish_batch_auction allocate_selling_coin refund_remaining_selling_coin refund_paying_coin
    apply_vesting_schedules apply_schedules ◌>>=◌ must send_coins input_output_coins set_auction
    get_auctions lookup insert set_bid call_hooks convert_to_paying_amount convert_to_selling_amount
    should_auction_closed transfers_from transfers_to allocate_fixed_price get_bids_by_auction_id
    split_queues weighted_amount best_match search_match bids_by_price set_vesting_queues
    set_vesting_queue match_at release_queue release_queues release_vesting_paying_coin
    refund_amounts execute_vesting_status give_matched refund_all reserved_amounts store_matched
    get_allowed_bidders_by_auction get_last_matched_bids_len get_vesting_queues_by_auction_id
    set_matched_bids_len last_time set_end_times set_status should_auction_started set_matched
    add_result bid_amount bid_less biddable_amounts group_by_price insert_before match_bid
    match_bids match_prices paying_amount_at record_match sort_bids sort_slice should_release
    fixed_point plain_coins numbered_accounts simple_bank
block_passes = refl

begin_blocker-IsFunded_example : IsFunded Everyone next_block
begin_blocker-IsFunded_example =
    begin_blocker-IsFunded no_hooks 45 stocked next_block stocked-IsConsistent stocked-IsFunded
      block_passes

abbrev placed : State
placed = (handle false 20 (place_bid_msg another) stocked).1

handle-IsFunded_example : IsFunded Everyone placed
unfolding handle place_bid ◌>>=◌ get_auction lookup set_bid insert check_min_bid_price
    get_allowed_bidder pay_place_bid_fee fund_community_pool get_next_bid_id_with_update
    get_last_bid_id place_by_type validate_batch_many_bid validate_batch_bid
    convert_to_selling_amount convert_to_paying_amount reserve_paying_coin send_coins call_hooks
    validate_basic validate_place_bid paying_reserve_address selling_reserve_address derive_address
    fixed_point plain_coins numbered_accounts simple_bank
handle-IsFunded_example =
    handle-IsFunded no_hooks false 20 (place_bid_msg another) stocked placed stocked-IsConsistent
      stocked-IsFunded (λ k. (λ e. omega arith, λ e. omega arith)) (omega arith) refl refl

IsFunded-pool_invariants_example :
    (selling_pool_reserve_amount_invariant stocked ≡ false)
    × (paying_pool_reserve_amount_invariant stocked ≡ false)
IsFunded-pool_invariants_example = IsFunded-pool_invariants stocked stocked-IsFunded

abbrev later : State
later = (begin_blocker 45 placed).1

bid_then_block : LiveRun false stocked 1 later
unfolding handle place_bid ◌>>=◌ get_auction lookup set_bid insert check_min_bid_price
    get_allowed_bidder pay_place_bid_fee fund_community_pool get_next_bid_id_with_update
    get_last_bid_id place_by_type validate_batch_many_bid validate_batch_bid
    convert_to_selling_amount convert_to_paying_amount reserve_paying_coin send_coins call_hooks
    validate_basic validate_place_bid paying_reserve_address selling_reserve_address derive_address
    fixed_point plain_coins numbered_accounts simple_bank begin_blocker execute_auctions
    execute_auction execute_stand_by_status execute_started_status close_fixed_price_auction
    close_batch_auction calculate_batch_allocation calculate_fixed_price_allocation
    needs_extended_round extend_round extend_from finish_batch_auction allocate_selling_coin
    refund_remaining_selling_coin refund_paying_coin apply_vesting_schedules apply_schedules must
    input_output_coins set_auction get_auctions should_auction_closed transfers_from transfers_to
    allocate_fixed_price get_bids_by_auction_id split_queues weighted_amount best_match search_match
    bids_by_price set_vesting_queues set_vesting_queue match_at release_queue release_queues
    release_vesting_paying_coin refund_amounts execute_vesting_status give_matched refund_all
    reserved_amounts store_matched get_allowed_bidders_by_auction get_last_matched_bids_len
    get_vesting_queues_by_auction_id set_matched_bids_len last_time set_end_times set_status
    should_auction_started set_matched add_result bid_amount bid_less biddable_amounts
    group_by_price insert_before match_bid match_bids match_prices paying_amount_at record_match
    sort_bids sort_slice should_release
bid_then_block =
    then_block 1 placed later 45
      (then_message 0 stocked placed 20 (place_bid_msg another) begins
        (λ k. (λ e. omega arith, λ e. omega arith)) refl refl)
      refl

LiveRun-pool_invariants_example :
    (selling_pool_reserve_amount_invariant later ≡ false)
    × (paying_pool_reserve_amount_invariant later ≡ false)
unfolding set_bid
LiveRun-pool_invariants_example =
    LiveRun-pool_invariants false stocked no_hooks stocked-IsConsistent stocked-IsFunded 1 later
      bid_then_block few (omega arith)
