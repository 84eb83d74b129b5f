-- ===== src/Keeper/State.antt =====
-- The state that the keeper reads and writes: its tables under the key prefixes of types/keys.go,
-- the parameters, and the spendable balances that the bank reports. Keys under a prefix are ordered
-- by their big-endian bytes, so by number.
use fundraising.Prelude.{List, Option, ℕ}
use fundraising.Prelude.Store.{Store}
use fundraising.Sdk.{Address, Amount, Coin, Denom, Time}
use fundraising.Sdk.Decimals.{Decimal}
use fundraising.Types.{AllowedBidder, Auction, Bid, BidType, Params, VestingQueue, VestingSchedule}

-- `SpendableCoins`, of an account and a denomination.
abbrev pub Balances : Type 0
Balances = Address → Denom → Amount

-- A prefix of two parts is a table of tables: of the auction id, and of what follows it.
pub record State : Type 0 where
  pub params : Params
  pub last_auction_id : ℕ
  pub last_bid_ids : Store ℕ
  pub auctions : Store Auction
  pub allowed_bidders : Store (Store AllowedBidder)
  pub bids : Store (Store Bid)
  -- By bidder, auction and bid.
  pub bid_index : Store (Store (Store (Unit {0})))
  pub matched_bids_lens : Store ℕ
  -- By auction and release time.
  pub vesting_queues : Store (Store VestingQueue)
  pub bank : Balances

-- The calls of `FundraisingHooks`, with the arguments that the keeper passes.
pub data HookCall : Type 0 where
  before_fixed_price_auction_created :
      Address → Decimal → Coin → Denom → List VestingSchedule → Time → Time → HookCall
  after_fixed_price_auction_created :
      ℕ → Address → Decimal → Coin → Denom → List VestingSchedule → Time → Time → HookCall
  before_batch_auction_created :
      Address
      → Decimal
      → Decimal
      → Coin
      → Denom
      → List VestingSchedule
      → ℕ
      → Decimal
      → Time
      → Time
      → HookCall
  after_batch_auction_created :
      ℕ
      → Address
      → Decimal
      → Decimal
      → Coin
      → Denom
      → List VestingSchedule
      → ℕ
      → Decimal
      → Time
      → Time
      → HookCall
  before_auction_canceled : ℕ → Address → HookCall
  before_bid_placed : ℕ → ℕ → Address → BidType → Decimal → Coin → HookCall
  before_bid_modified : ℕ → ℕ → Address → BidType → Decimal → Coin → HookCall
  before_allowed_bidders_added : List AllowedBidder → HookCall
  before_allowed_bidder_updated : ℕ → Address → Amount → HookCall
  before_selling_coins_allocated : ℕ → Store Amount → Store (Option Amount) → HookCall
