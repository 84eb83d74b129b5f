-- ===== src/Keeper/Execution.antt =====
-- x/fundraising/keeper/execution.go and x/fundraising/abci.go: what every block does to the auctions.
pub mod Writes
pub mod Lifecycle
pub mod Progress
pub mod Due
pub mod Keeps
pub mod Consistent
use fundraising.Keeper.Action.{Action, gets, modify, must, pure, throw, ◌>>=◌, ◌>>◌}
use fundraising.Keeper.Closing.{close_batch_auction, close_fixed_price_auction}
use fundraising.Keeper.Closing.Release.{release_vesting_paying_coin}
use fundraising.Keeper.Env.{Env}
use fundraising.Keeper.Tables.{get_auctions, set_auction}
use fundraising.Prelude.{Bool, List, Option, [], false, if◌then◌else◌, none, some, true, ◌∷◌}
use fundraising.Sdk.{Time}
use fundraising.Sdk.Decimals.{Decimals}
use fundraising.Types.{Auction, AuctionStatus, AuctionType}
use fundraising.Types.Auctions.{set_status, should_auction_closed, should_auction_started}

module _ ⦃dec : Decimals⦄ ⦃env : Env⦄ where
  unfoldable pub execute_stand_by_status : Time → Auction → Action (Unit {0})
  execute_stand_by_status now a =
      if should_auction_started now a
      then modify (set_auction (set_status AuctionStatus.started a))
      else pure tt

  abbrev pub close_auction : Auction → AuctionType → Action (Unit {0})
  close_auction a AuctionType.fixed_price = close_fixed_price_auction a
  close_auction a AuctionType.batch = close_batch_auction a
  close_auction a AuctionType.nil = pure tt

  abbrev pub close_if : Auction → Option Bool → Action (Unit {0})
  close_if a none = throw
  close_if a (some true) = close_auction a a.typ
  close_if a (some false) = pure tt

  unfoldable pub execute_started_status : Time → Auction → Action (Unit {0})
  execute_started_status now a = close_if a (should_auction_closed now a)

  unfoldable pub execute_vesting_status : Time → Auction → Action (Unit {0})
  execute_vesting_status now a = must (release_vesting_paying_coin now a)

  -- The `switch` of `BeginBlocker`.
  unfoldable pub execute_auction : Time → Auction → AuctionStatus → Action (Unit {0})
  execute_auction now a AuctionStatus.stand_by = execute_stand_by_status now a
  execute_auction now a AuctionStatus.started = execute_started_status now a
  execute_auction now a AuctionStatus.vesting = execute_vesting_status now a
  execute_auction now a AuctionStatus.nil = pure tt
  execute_auction now a AuctionStatus.finished = pure tt
  execute_auction now a AuctionStatus.cancelled = pure tt

  -- The loop, over the auctions that were read before it began.
  unfoldable pub execute_auctions : Time → List Auction → Action (Unit {0})
  execute_auctions now [] = pure tt
  execute_auctions now (a ∷ as') = execute_auction now a a.status >> execute_auctions now as'

  unfoldable pub begin_blocker : Time → Action (Unit {0})
  begin_blocker now = do auctions ← gets get_auctions; execute_auctions now auctions
