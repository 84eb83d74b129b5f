-- ===== src/Keeper/Tables.antt =====
-- x/fundraising/keeper/store.go: reads and writes of the tables. The codec's round trip is the SDK's,
-- so a value is kept as it is.
pub mod Laws
use fundraising.Keeper.Action.{Action}
use fundraising.Keeper.State.{State}
use fundraising.Prelude.{List, Option, [], false, none, some, ℕ, ◌%◌, ◌++◌, ◌+◌, ◌^◌, ◌∷◌}
use fundraising.Prelude.Store.{Store, insert, lookup, lookup_or, values}
use fundraising.Sdk.{Address, new_coin}
use fundraising.Sdk.Outcome.{ok}
use fundraising.Types.{AllowedBidder, Auction, Bid, BidType, VestingQueue}

-- `GetLastAuctionId`, `SetAuctionId`, `GetNextAuctionIdWithUpdate`; an id is a uint64.
unfoldable pub get_next_auction_id_with_update : Action ℕ
get_next_auction_id_with_update s =
    let id = (s.last_auction_id + 1) % 2 ^ 64 in (ok id, record s { last_auction_id = id })

unfoldable pub get_auction : ℕ → State → Option Auction
get_auction id s = lookup id s.auctions

unfoldable pub set_auction : Auction → State → State
set_auction a s = record s { auctions = insert a.id a s.auctions }

-- `GetAuctions`, in ascending order of ids.
unfoldable pub get_auctions : State → List Auction
get_auctions s = values s.auctions

unfoldable pub get_allowed_bidder : ℕ → Address → State → Option AllowedBidder
get_allowed_bidder auction_id bidder s = lookup bidder (lookup_or [] auction_id s.allowed_bidders)

unfoldable pub set_allowed_bidder : ℕ → AllowedBidder → State → State
set_allowed_bidder auction_id ab s = record s {
  allowed_bidders =
      insert auction_id (insert ab.bidder ab (lookup_or [] auction_id s.allowed_bidders))
        s.allowed_bidders;
}

unfoldable pub get_allowed_bidders_by_auction : ℕ → State → List AllowedBidder
get_allowed_bidders_by_auction auction_id s = values (lookup_or [] auction_id s.allowed_bidders)

unfoldable pub get_last_bid_id : ℕ → State → ℕ
get_last_bid_id auction_id s = lookup_or 0 auction_id s.last_bid_ids

-- `GetNextBidIdWithUpdate` of bid.go, with `GetLastBidId` and `SetBidId`.
unfoldable pub get_next_bid_id_with_update : ℕ → Action ℕ
get_next_bid_id_with_update auction_id s =
    let id = (get_last_bid_id auction_id s + 1) % 2 ^ 64 in
    (ok id, record s { last_bid_ids = insert auction_id id s.last_bid_ids })

unfoldable pub get_bid : ℕ → ℕ → State → Option Bid
get_bid auction_id bid_id s = lookup bid_id (lookup_or [] auction_id s.bids)

-- The bid under its key, and an entry of the index by bidder.
unfoldable pub set_bid : Bid → State → State
set_bid b s = record s {
  bids = insert b.auction_id (insert b.id b (lookup_or [] b.auction_id s.bids)) s.bids;
  bid_index =
      insert b.bidder
        (insert b.auction_id
          (insert b.id tt (lookup_or [] b.auction_id (lookup_or [] b.bidder s.bid_index)))
          (lookup_or [] b.bidder s.bid_index))
        s.bid_index;
}

unfoldable pub get_bids_by_auction_id : ℕ → State → List Bid
get_bids_by_auction_id auction_id s = values (lookup_or [] auction_id s.bids)

-- Tables of tables, in the order of the joined keys.
unfoldable pub concat_values {ℓ} : {V : Type ℓ} → Store (Store V) → List V
concat_values [] = []
concat_values ((k, m) ∷ ms) = values m ++ concat_values ms

unfoldable pub get_bids : State → List Bid
get_bids s = concat_values s.bids

-- The zero value that `GetBid` returns where there is no bid.
abbrev pub zero_bid : Bid
zero_bid = record {
  auction_id = 0;
  bidder = 0;
  id = 0;
  typ = BidType.nil;
  price = 0;
  coin = new_coin 0 0;
  is_matched = false;
}

abbrev pub bid_or_zero : Option Bid → Bid
bid_or_zero none = zero_bid
bid_or_zero (some b) = b

-- `IterateBidsByBidder`: each index entry, and the bid that it points to.
unfoldable pub index_bids : State → ℕ → Store (Unit {0}) → List Bid
index_bids s auction_id [] = []
index_bids s auction_id ((bid_id, _) ∷ m) =
    bid_or_zero (get_bid auction_id bid_id s) ∷ index_bids s auction_id m

unfoldable pub index_auctions : State → Store (Store (Unit {0})) → List Bid
index_auctions s [] = []
index_auctions s ((auction_id, m) ∷ ms) = index_bids s auction_id m ++ index_auctions s ms

unfoldable pub get_bids_by_bidder : Address → State → List Bid
get_bids_by_bidder bidder s = index_auctions s (lookup_or [] bidder s.bid_index)

unfoldable pub get_last_matched_bids_len : ℕ → State → ℕ
get_last_matched_bids_len auction_id s = lookup_or 0 auction_id s.matched_bids_lens

unfoldable pub set_matched_bids_len : ℕ → ℕ → State → State
set_matched_bids_len auction_id len s = record s {
  matched_bids_lens = insert auction_id len s.matched_bids_lens;
}

unfoldable pub set_vesting_queue : VestingQueue → State → State
set_vesting_queue q s = record s {
  vesting_queues =
      insert q.auction_id (insert q.release_time q (lookup_or [] q.auction_id s.vesting_queues))
        s.vesting_queues;
}

unfoldable pub get_vesting_queues_by_auction_id : ℕ → State → List VestingQueue
get_vesting_queues_by_auction_id auction_id s = values (lookup_or [] auction_id s.vesting_queues)

unfoldable pub get_vesting_queues : State → List VestingQueue
get_vesting_queues s = concat_values s.vesting_queues
