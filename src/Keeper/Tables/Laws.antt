-- ===== src/Keeper/Tables/Laws.antt =====
-- Reading back what was written to the tables (x/fundraising/keeper/store.go).
use fundraising.Keeper.State.{State}
use fundraising.Keeper.Tables.{get_auction, get_bid, set_auction, set_bid}
use fundraising.Prelude.{[], arith, some, ℕ, ◌≡◌}
use fundraising.Prelude.Store.{insert, lookup-insert, lookup_or}
use fundraising.Types.{Auction, Bid}

pub get_auction-set_auction :
    (i : ℕ) (a : Auction) (s : State) → a.id ≡ i → get_auction i (set_auction a s) ≡ some a
unfolding get_auction set_auction
get_auction-set_auction i a s e = ground (arith, lookup-insert i a.id a s.auctions)

pub get_bid-set_bid : (b : Bid) (s : State) → get_bid b.auction_id b.id (set_bid b s) ≡ some b
unfolding get_bid set_bid
get_bid-set_bid b s = ground (
  arith,
  lookup-insert b.auction_id b.auction_id (insert b.id b (lookup_or [] b.auction_id s.bids)) s.bids,
  lookup-insert b.id b.id b (lookup_or [] b.auction_id s.bids),
)
