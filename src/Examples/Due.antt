-- ===== src/Examples/Due.antt =====
-- Examples for the auctions that are due: a block that starts one auction and ends the time of another.
use fundraising.Examples.World.{fixed_point, no_hooks, simple_bank}
use fundraising.Examples.Methods.{batch_sale, idle_sale}
use fundraising.Examples.Pools.{block_passes, next_block}
use fundraising.Examples.Tables.{stocked}
use fundraising.Keeper.Execution.Due.{begin_blocker_closes, begin_blocker_starts}
use fundraising.Keeper.Execution.Progress.{Closed, Extended}
use fundraising.Keeper.Tables.{get_auction, set_bid}
use fundraising.Prelude.{arith, refl, some, ◌≡◌, ◌⊎◌}
use fundraising.Prelude.Store.{lookup}
use fundraising.Types.{AuctionStatus, AuctionType}
use fundraising.Types.Auctions.{last_time, set_status}

begin_blocker_starts_example :
    get_auction 3 next_block ≡ some (set_status AuctionStatus.started idle_sale)
unfolding set_bid get_auction lookup
begin_blocker_starts_example =
    begin_blocker_starts no_hooks 45 stocked next_block idle_sale (omega arith)
      (refl, (refl, (refl, tt))) refl refl (omega arith) block_passes

begin_blocker_closes_example :
    Closed batch_sale next_block
    ⊎ ((batch_sale.typ ≡ AuctionType.batch) × Extended batch_sale next_block)
unfolding set_bid get_auction lookup last_time
begin_blocker_closes_example =
    begin_blocker_closes no_hooks 45 stocked next_block batch_sale 40 (omega arith)
      (refl, (refl, (refl, tt))) refl refl (λ e. cc) refl (omega arith) block_passes
