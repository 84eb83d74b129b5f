-- ===== src/Keeper/Fees.antt =====
-- x/fundraising/keeper/keeper.go: fees, and the reservation of coins; and the bank keeper's calls as
-- actions.
use fundraising.Keeper.Action.{Action, gets, ◌>>=◌}
use fundraising.Keeper.Env.{Env}
use fundraising.Keeper.State.{Balances, State}
use fundraising.Prelude.{List, Option, none, some, ℕ}
use fundraising.Sdk.{Address, Coin}
use fundraising.Sdk.Accounts.{Accounts}
use fundraising.Sdk.Outcome.{Error, Result, err, ok}
use fundraising.Types.Auctions.{paying_reserve_address, selling_reserve_address}

module _ ⦃env : Env⦄ where
  abbrev pub keep_balances : State → Option Balances → Result (Unit {0}) × State
  keep_balances s none = (err Error.bank, s)
  keep_balances s (some b) = (ok tt, record s { bank = b })

  unfoldable pub send_coins : Address → Address → Coin → Action (Unit {0})
  send_coins from to c s = keep_balances s (env.send_coins from to c s.bank)

  unfoldable pub input_output_coins :
      List (Address × Coin) → List (Address × Coin) → Action (Unit {0})
  input_output_coins inputs outputs s =
      keep_balances s (env.input_output_coins inputs outputs s.bank)

  unfoldable pub fund_community_pool : List Coin → Address → Action (Unit {0})
  fund_community_pool fee payer s = keep_balances s (env.fund_community_pool fee payer s.bank)

  unfoldable pub pay_creation_fee : Address → Action (Unit {0})
  pay_creation_fee auctioneer = do
    params ← gets (λ s. s.params)
    fund_community_pool params.auction_creation_fee auctioneer

  unfoldable pub pay_place_bid_fee : Address → Action (Unit {0})
  pay_place_bid_fee bidder = do
    params ← gets (λ s. s.params)
    fund_community_pool params.place_bid_fee bidder

  unfoldable pub reserve_selling_coin : ⦃acc : Accounts⦄ → ℕ → Address → Coin → Action (Unit {0})
  reserve_selling_coin auction_id auctioneer coin =
      send_coins auctioneer (selling_reserve_address auction_id) coin

  unfoldable pub reserve_paying_coin : ⦃acc : Accounts⦄ → ℕ → Address → Coin → Action (Unit {0})
  reserve_paying_coin auction_id bidder coin =
      send_coins bidder (paying_reserve_address auction_id) coin
