-- ===== src/Types.antt =====
-- x/fundraising/types: the data model. Enumerations and structs of fundraising.pb.go, params.pb.go,
-- genesis.pb.go and tx.pb.go, field by field; the functions over them are in the children.
pub mod Bids
pub mod Vesting
pub mod Auctions
pub mod Matching
pub mod Msgs
pub mod Signers
pub mod Genesis
pub mod Keys
pub mod Names
use fundraising.Prelude.{Bool, List, ℕ, ◌*◌, ◌==◌}
use fundraising.Sdk.{Address, Amount, Coin, Denom, Time}
use fundraising.Sdk.Decimals.{Decimal}

pub data AuctionType : Type 0 where
  nil fixed_price batch : AuctionType

pub data AuctionStatus : Type 0 where
  nil stand_by started vesting finished cancelled : AuctionStatus

pub data BidType : Type 0 where
  nil fixed_price batch_worth batch_many : BidType

-- The enumerations are numbers in Go; `==` compares those.
abbrev pub type_code : AuctionType → ℕ
type_code AuctionType.nil = 0
type_code AuctionType.fixed_price = 1
type_code AuctionType.batch = 2

abbrev pub status_code : AuctionStatus → ℕ
status_code AuctionStatus.nil = 0
status_code AuctionStatus.stand_by = 1
status_code AuctionStatus.started = 2
status_code AuctionStatus.vesting = 3
status_code AuctionStatus.finished = 4
status_code AuctionStatus.cancelled = 5

abbrev pub type_eq : AuctionType → AuctionType → Bool
type_eq a b = type_code a == type_code b

abbrev pub status_eq : AuctionStatus → AuctionStatus → Bool
status_eq a b = status_code a == status_code b

pub record VestingSchedule : Type 0 where
  pub release_time : Time
  pub weight : Decimal

pub record VestingQueue : Type 0 where
  pub auction_id : ℕ
  pub auctioneer : Address
  pub paying_coin : Coin
  pub release_time : Time
  pub released : Bool

pub record AllowedBidder : Type 0 where
  pub bidder : Address
  pub max_bid_amount : Amount

pub record Bid : Type 0 where
  pub auction_id : ℕ
  pub bidder : Address
  pub id : ℕ
  pub typ : BidType
  pub price : Decimal
  pub coin : Coin
  pub is_matched : Bool

pub record BaseAuction : Type 0 where
  pub id : ℕ
  pub typ : AuctionType
  pub auctioneer : Address
  pub selling_reserve_address : Address
  pub paying_reserve_address : Address
  pub start_price : Decimal
  pub selling_coin : Coin
  pub paying_coin_denom : Denom
  pub vesting_reserve_address : Address
  pub vesting_schedules : List VestingSchedule
  pub start_time : Time
  pub end_times : List Time
  pub status : AuctionStatus

-- What the two implementations of `AuctionI` add to the base.
pub record BatchFields : Type 0 where
  pub min_bid_price : Decimal
  pub matched_price : Decimal
  pub max_extended_round : ℕ
  pub extended_round_rate : Decimal

pub data Kind : Type 0 where
  fixed_price_auction : Coin → Kind
  batch_auction : BatchFields → Kind

-- `AuctionI`: a `FixedPriceAuction` with its remaining selling coin, or a `BatchAuction`.
pub record Auction : Type 0 where
  pub base : BaseAuction
  pub open base use *
  pub kind : Kind

pub record Params : Type 0 where
  pub auction_creation_fee : List Coin
  pub place_bid_fee : List Coin
  pub extended_period : ℕ

pub record AllowedBidderRecord : Type 0 where
  pub auction_id : ℕ
  pub allowed_bidder : AllowedBidder

pub record GenesisState : Type 0 where
  pub params : Params
  pub auctions : List Auction
  pub allowed_bidder_records : List AllowedBidderRecord
  pub bids : List Bid
  pub vesting_queues : List VestingQueue

pub record MsgCreateFixedPriceAuction : Type 0 where
  pub auctioneer : Address
  pub start_price : Decimal
  pub selling_coin : Coin
  pub paying_coin_denom : Denom
  pub vesting_schedules : List VestingSchedule
  pub start_time : Time
  pub end_time : Time

pub record MsgCreateBatchAuction : Type 0 where
  pub auctioneer : Address
  pub start_price : Decimal
  pub min_bid_price : Decimal
  pub selling_coin : Coin
  pub paying_coin_denom : Denom
  pub vesting_schedules : List VestingSchedule
  pub max_extended_round : ℕ
  pub extended_round_rate : Decimal
  pub start_time : Time
  pub end_time : Time

pub record MsgCancelAuction : Type 0 where
  pub auctioneer : Address
  pub auction_id : ℕ

pub record MsgPlaceBid : Type 0 where
  pub auction_id : ℕ
  pub bidder : Address
  pub bid_type : BidType
  pub price : Decimal
  pub coin : Coin

pub record MsgModifyBid : Type 0 where
  pub auction_id : ℕ
  pub bidder : Address
  pub bid_id : ℕ
  pub price : Decimal
  pub coin : Coin

pub record MsgAddAllowedBidder : Type 0 where
  pub auction_id : ℕ
  pub allowed_bidder : AllowedBidder
