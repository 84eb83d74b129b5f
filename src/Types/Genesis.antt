-- ===== src/Types/Genesis.antt =====
-- x/fundraising/types/genesis.go and `Validate` of params.go: the check of a genesis state. What the
-- plain Go errors say is not kept: they are `invalid_request` here.
use fundraising.Prelude.{List, [], not, ◌==◌, ◌∷◌}
use fundraising.Sdk.{Denom, new_coin}
use fundraising.Sdk.Accounts.{Accounts}
use fundraising.Sdk.Outcome.{Result, fail_if, invalid_address, invalid_request, ok, ◌>>◌}
use fundraising.Types.{AllowedBidderRecord, Bid, GenesisState, Params, VestingQueue}
use fundraising.Types.Auctions.{validate_auction}
use fundraising.Types.Bids.{validate_allowed_bidder}

module _ ⦃acc : Accounts⦄ where
  open acc use {validate_coin, valid_address, valid_coins}

  -- `Params.Validate`; the check of the extended period looks at its Go type only.
  unfoldable pub validate_params : Params → Result (Unit {0})
  validate_params p = fail_if (not (valid_coins p.auction_creation_fee)) invalid_request

  unfoldable pub validate_allowed_bidder_record : AllowedBidderRecord → Result (Unit {0})
  unfolding validate_allowed_bidder
  validate_allowed_bidder_record r = do
    fail_if (r.auction_id == 0) invalid_request
    validate_allowed_bidder valid_address r.allowed_bidder

  unfoldable pub validate_bid : Bid → Result (Unit {0})
  validate_bid b = do
    fail_if (not (valid_address b.bidder)) invalid_address
    fail_if (b.price == 0) invalid_request
    fail_if (not (validate_coin b.coin)) invalid_request
    fail_if (b.coin.amount == 0) invalid_request

  unfoldable pub validate_vesting_queue : VestingQueue → Result (Unit {0})
  validate_vesting_queue q = do
    fail_if (not (valid_address q.auctioneer)) invalid_address
    fail_if (not (validate_coin q.paying_coin)) invalid_request

-- A loop that stops at the first error.
unfoldable pub each {ℓ} : {A : Type ℓ} → (A → Result (Unit {0})) → List A → Result (Unit {0})
each f [] = ok tt
each f (x ∷ xs) = f x >> each f xs

-- `GenesisState.Validate`
unfoldable pub validate_genesis : ⦃acc : Accounts⦄ → GenesisState → Result (Unit {0})
validate_genesis gs = do
  validate_params gs.params
  each (λ a. validate_auction a.base) gs.auctions
  each validate_allowed_bidder_record gs.allowed_bidder_records
  each validate_bid gs.bids
  each validate_vesting_queue gs.vesting_queues

-- `DefaultParams`, where the denomination of the bond is the SDK's.
abbrev pub default_params : Denom → Params
default_params bond_denom = record {
  auction_creation_fee = new_coin bond_denom 100000000 ∷ [];
  place_bid_fee = [];
  extended_period = 1;
}

-- `DefaultGenesisState`
abbrev pub default_genesis_state : Denom → GenesisState
default_genesis_state bond_denom = record {
  params = default_params bond_denom;
  auctions = [];
  allowed_bidder_records = [];
  bids = [];
  vesting_queues = [];
}
