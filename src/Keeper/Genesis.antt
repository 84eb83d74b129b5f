-- ===== src/Keeper/Genesis.antt =====
-- x/fundraising/keeper/genesis.go: reading the state from a genesis state, and writing it to one.
use fundraising.Keeper.Action.{Action, gets, lift, modify, must, pure, throw, ◌>>=◌, ◌>>◌}
use fundraising.Keeper.State.{State}
use fundraising.Keeper.Tables.{
  get_allowed_bidders_by_auction, get_auction, get_auctions, get_bids,
  get_next_auction_id_with_update, get_next_bid_id_with_update, get_vesting_queues,
  set_allowed_bidder, set_auction, set_bid, set_vesting_queue,
}
use fundraising.Prelude.{
  Bool, List, Option, [], false, if◌then◌else◌, none, some, true, ℕ, ◌++◌, ◌∷◌,
}
use fundraising.Sdk.Accounts.{Accounts}
use fundraising.Types.{AllowedBidder, AllowedBidderRecord, Auction, Bid, GenesisState, VestingQueue}
use fundraising.Types.Genesis.{validate_genesis}

unfoldable pub init_auctions : List Auction → Action (Unit {0})
init_auctions [] = pure tt
init_auctions (a ∷ as') = do
  _ ← get_next_auction_id_with_update
  modify (set_auction a)
  init_auctions as'

unfoldable pub init_allowed_bidders : List AllowedBidderRecord → State → State
init_allowed_bidders [] s = s
init_allowed_bidders (r ∷ rs) s =
    init_allowed_bidders rs (set_allowed_bidder r.auction_id r.allowed_bidder s)

abbrev pub present {ℓ} : {A : Type ℓ} → Option A → Bool
present none = false
present (some a) = true

unfoldable pub init_bids : List Bid → Action (Unit {0})
init_bids [] = pure tt
init_bids (b ∷ bs) = do
  found ← gets (get_auction b.auction_id)
  if present found then pure tt else throw
  _ ← get_next_bid_id_with_update b.auction_id
  modify (set_bid b)
  init_bids bs

unfoldable pub init_vesting_queues : List VestingQueue → Action (Unit {0})
init_vesting_queues [] = pure tt
init_vesting_queues (q ∷ qs) = do
  found ← gets (get_auction q.auction_id)
  if present found then pure tt else throw
  modify (set_vesting_queue q)
  init_vesting_queues qs

-- `InitGenesis`; nil and empty fees are one.
unfoldable pub init_genesis : ⦃acc : Accounts⦄ → GenesisState → Action (Unit {0})
init_genesis gs = do
  must (lift (validate_genesis gs))
  modify (λ s. record s { params = gs.params })
  init_auctions gs.auctions
  modify (init_allowed_bidders gs.allowed_bidder_records)
  init_bids gs.bids
  init_vesting_queues gs.vesting_queues

unfoldable pub allowed_bidder_records : ℕ → List AllowedBidder → List AllowedBidderRecord
allowed_bidder_records id [] = []
allowed_bidder_records id (ab ∷ abs) =
    record { auction_id = id; allowed_bidder = ab } ∷ allowed_bidder_records id abs

unfoldable pub export_allowed_bidders : List Auction → State → List AllowedBidderRecord
export_allowed_bidders [] s = []
export_allowed_bidders (a ∷ as') s =
    allowed_bidder_records a.id (get_allowed_bidders_by_auction a.id s)
    ++ export_allowed_bidders as' s

-- `ExportGenesis`
unfoldable pub export_genesis : State → GenesisState
export_genesis s = record {
  params = s.params;
  auctions = get_auctions s;
  allowed_bidder_records = export_allowed_bidders (get_auctions s) s;
  bids = get_bids s;
  vesting_queues = get_vesting_queues s;
}
