-- ===== src/Examples/Start.antt =====
-- An example for a chain that starts from the default genesis state: an auction is created, then a block.
use fundraising.Examples.Batch.{batch_message}
use fundraising.Examples.World.{fixed_point, no_hooks, numbered_accounts, plain_coins, simple_bank}
use fundraising.Keeper.Action.{must, ◌>>=◌}
use fundraising.Keeper.Auctions.{create_batch_auction, start_if_due}
use fundraising.Keeper.Env.{call_hooks}
use fundraising.Keeper.Execution.{
  begin_blocker, execute_auction, execute_auctions, execute_stand_by_status,
}
use fundraising.Keeper.Fees.{
  fund_community_pool, pay_creation_fee, reserve_selling_coin, send_coins,
}
use fundraising.Keeper.Genesis.{
  init_allowed_bidders, init_auctions, init_bids, init_genesis, init_vesting_queues,
}
use fundraising.Keeper.Invariants.{
  paying_pool_reserve_amount_invariant, selling_pool_reserve_amount_invariant,
}
use fundraising.Keeper.Messages.{create_batch_auction_msg, handle, validate_basic}
use fundraising.Keeper.Pools.Runs.{LiveRun, begins, then_block, then_message}
use fundraising.Keeper.Pools.Start.{default_genesis-pool_invariants, empty_store}
use fundraising.Keeper.State.{Balances, State}
use fundraising.Keeper.Tables.{get_auctions, get_next_auction_id_with_update, set_auction}
use fundraising.Prelude.{arith, false, refl, ◌≡◌}
use fundraising.Prelude.Store.{insert}
use fundraising.Sdk.Outcome.{ok}
use fundraising.Types.Auctions.{
  derive_address, new_base_auction, new_batch_auction, paying_reserve_address,
  selling_reserve_address, set_status, should_auction_started, vesting_reserve_address,
}
use fundraising.Types.Genesis.{
  default_genesis_state, default_params, each, validate_genesis, validate_params,
}
use fundraising.Types.Msgs.{validate_create_batch_auction}
use fundraising.Types.Vesting.{validate_vesting_schedules}

abbrev wealth : Balances
wealth x d = 1000000000

abbrev born : State
born = (init_genesis (default_genesis_state 0) (empty_store (default_params 0) wealth)).1

abbrev first : State
first = (handle false 20 (create_batch_auction_msg batch_message) born).1

abbrev second : State
second = (begin_blocker 45 first).1

genesis_passes :
    init_genesis (default_genesis_state 0) (empty_store (default_params 0) wealth) ≡ (ok tt, born)
unfolding init_genesis init_auctions init_allowed_bidders init_bids init_vesting_queues ◌>>=◌ must
    validate_genesis validate_params each numbered_accounts
genesis_passes = refl

create_then_block : LiveRun false born 1 second
unfolding init_genesis init_auctions init_allowed_bidders init_bids init_vesting_queues ◌>>=◌ must
    validate_genesis validate_params each handle create_batch_auction
    get_next_auction_id_with_update pay_creation_fee reserve_selling_coin fund_community_pool
    send_coins start_if_due new_base_auction new_batch_auction selling_reserve_address
    paying_reserve_address vesting_reserve_address derive_address validate_basic
    validate_create_batch_auction validate_vesting_schedules call_hooks set_auction insert
    begin_blocker get_auctions execute_auctions execute_auction execute_stand_by_status
    should_auction_started set_status simple_bank numbered_accounts fixed_point plain_coins
create_then_block =
    then_block 1 first second 45
      (then_message 0 born first 20 (create_batch_auction_msg batch_message) begins
        (λ k. (λ e. omega arith, λ e. omega arith)) refl refl)
      refl

default_genesis-pool_invariants_example :
    (selling_pool_reserve_amount_invariant second ≡ false)
    × (paying_pool_reserve_amount_invariant second ≡ false)
default_genesis-pool_invariants_example =
    default_genesis-pool_invariants no_hooks false 0 (default_params 0) wealth born 1 second
      genesis_passes create_then_block (omega arith)
