-- ===== src/Examples/Tables.antt =====
-- Examples for the tables of bids: one bid of a batch auction, then a block or another message.
use fundraising.Examples.Methods.{many_bid, market}
use fundraising.Examples.World.{fixed_point, no_hooks, numbered_accounts, plain_coins, simple_bank}
use fundraising.Keeper.Bids.ByBidder.{get_bids_by_bidder_exact}
use fundraising.Keeper.Bids.Consistent.{IsConsistent}
use fundraising.Keeper.Bids.Stored.{set_bid-IsConsistent}
use fundraising.Keeper.Execution.{begin_blocker}
use fundraising.Keeper.Execution.Consistent.{begin_blocker-IsConsistent}
use fundraising.Keeper.Messages.{handle, place_bid_msg}
use fundraising.Keeper.Messages.Consistent.{handle-IsConsistent}
use fundraising.Keeper.State.{State}
use fundraising.Keeper.Tables.{get_auction, get_bid, get_bids_by_bidder, get_last_bid_id, set_bid}
use fundraising.Prelude.{All, [], arith, false, none, some, ℕ, ◌*◌, ◌+◌, ◌<◌, ◌^◌, ◌≡◌}
use fundraising.Prelude.Store.{Has, lookup}
use fundraising.Sdk.{new_coin}
use fundraising.Sdk.Decimals.{one}
use fundraising.Types.{Bid, BidType, MsgPlaceBid}

abbrev empty_tables : State
empty_tables = record market { bids = []; bid_index = [] }

-- The tables hold one bid, with its entry of the index.
abbrev pub stocked : State
stocked = set_bid many_bid empty_tables

pub none-some : {A : Type 0} {x : A} → none ≡ some x → ⊥
none-some h = cc

empty-IsConsistent : IsConsistent empty_tables
unfolding get_auction get_bid get_last_bid_id lookup
empty-IsConsistent = record {
  auctions_keyed = λ i a h. ground arith;
  bids_ordered = λ a. tt;
  bids_keyed = λ a i b h. absurd (none-some h);
  index_ordered = λ k. tt;
  indexed = λ a i b h. absurd (none-some h);
  index_sound = λ k a i h. absurd (none-some h);
}

pub stocked-IsConsistent : IsConsistent stocked
unfolding get_bid get_last_bid_id lookup
stocked-IsConsistent =
    set_bid-IsConsistent many_bid empty_tables empty-IsConsistent (omega arith)
      (λ old h. absurd (none-some h))

begin_blocker-IsConsistent_example : IsConsistent (begin_blocker 45 stocked).1
unfolding fixed_point plain_coins numbered_accounts simple_bank
begin_blocker-IsConsistent_example =
    begin_blocker-IsConsistent no_hooks 45 stocked stocked-IsConsistent

abbrev pub another : MsgPlaceBid
another = record {
  auction_id = 2;
  bidder = 11;
  bid_type = BidType.batch_many;
  price = 2 * one;
  coin = new_coin 1 20;
}

pub few : (k : ℕ) → get_last_bid_id k stocked + 1 < 2 ^ 64
unfolding get_last_bid_id lookup set_bid
few k = ground arith

handle-IsConsistent_example : IsConsistent (handle false 20 (place_bid_msg another) stocked).1
unfolding fixed_point plain_coins numbered_accounts simple_bank
handle-IsConsistent_example =
    handle-IsConsistent no_hooks false 20 (place_bid_msg another) stocked stocked-IsConsistent few

get_bids_by_bidder_exact_example :
    All
      (λ b. (get_bid b.auction_id b.id stocked ≡ some b) × (b.bidder ≡ 11))
      (get_bids_by_bidder 11 stocked)
    × ((a i : ℕ) (b : Bid)
        → get_bid a i stocked ≡ some b
        → b.bidder ≡ 11
        → Has b (get_bids_by_bidder 11 stocked))
get_bids_by_bidder_exact_example = get_bids_by_bidder_exact stocked 11 stocked-IsConsistent
