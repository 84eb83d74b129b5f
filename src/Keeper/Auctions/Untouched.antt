-- ===== src/Keeper/Auctions/Untouched.antt =====
-- The methods of x/fundraising/keeper/auction.go and the tables of bids.
use fundraising.Keeper.Action.{Action, modify, ◌>>=◌}
use fundraising.Keeper.Auctions.{
  add_allowed_bidders, cancel_auction, create_batch_auction, create_fixed_price_auction,
  store_allowed_bidders,
}
use fundraising.Keeper.Bids.Consistent.{KeepsBids}
use fundraising.Keeper.Bids.Untouched.{
  call_hooks-KeepsBids, found, fund_community_pool-KeepsBids, get_next_auction_id-KeepsBids,
  send_coins-KeepsBids, set_allowed_bidder-KeepsBids, set_auction-KeepsBids, steps, still,
}
use fundraising.Keeper.Env.{Env, call_hooks}
use fundraising.Keeper.Fees.{pay_creation_fee, reserve_selling_coin}
use fundraising.Keeper.Frame.{QuietHooks, Relates}
use fundraising.Keeper.State.{HookCall}
use fundraising.Prelude.{List, [], ℕ, ◌∷◌}
use fundraising.Sdk.{Address, Coin, Time}
use fundraising.Sdk.Accounts.{Accounts}
use fundraising.Sdk.Outcome.{not_found}
use fundraising.Types.{
  AllowedBidder, Auction, MsgCancelAuction, MsgCreateBatchAuction, MsgCreateFixedPriceAuction,
}

module _ ⦃acc : Accounts⦄ ⦃env : Env⦄ (quiet : QuietHooks) where
  hook : (c : HookCall) → Relates KeepsBids (modify (call_hooks c))
  hook = call_hooks-KeepsBids quiet

  fee_and_reserve :
      {B : Type 0} (id : ℕ) (auctioneer : Address) (coin : Coin) (f : Unit {0} → Action B)
      → ((u : Unit {0}) → Relates KeepsBids (f u))
      → Relates KeepsBids
          (pay_creation_fee auctioneer >>= λ _. reserve_selling_coin id auctioneer coin >>= f)
  unfolding pay_creation_fee reserve_selling_coin
  fee_and_reserve id auctioneer coin f h =
      steps _ _
        (steps _ _ still (λ p. fund_community_pool-KeepsBids p.auction_creation_fee auctioneer))
        (λ _. steps _ _ (send_coins-KeepsBids _ _ _) h)

  pub create_fixed_price_auction-KeepsBids :
      (now : Time) (msg : MsgCreateFixedPriceAuction)
      → Relates KeepsBids (create_fixed_price_auction now msg)
  unfolding create_fixed_price_auction
  create_fixed_price_auction-KeepsBids now msg = steps _ _ still (λ _. steps _ _ still (λ _.
      steps _ _ get_next_auction_id-KeepsBids (λ id.
        fee_and_reserve id msg.auctioneer msg.selling_coin _ (λ _.
          steps _ _ (hook _)
            (λ _. steps _ _ (set_auction-KeepsBids _) (λ _. steps _ _ (hook _) (λ _. still)))))))

  pub create_batch_auction-KeepsBids :
      (now : Time) (msg : MsgCreateBatchAuction) → Relates KeepsBids (create_batch_auction now msg)
  unfolding create_batch_auction
  create_batch_auction-KeepsBids now msg = steps _ _ still (λ _. steps _ _ still (λ _.
      steps _ _ still (λ _. steps _ _ get_next_auction_id-KeepsBids (λ id.
        fee_and_reserve id msg.auctioneer msg.selling_coin _ (λ _.
          steps _ _ (hook _)
            (λ _. steps _ _ (set_auction-KeepsBids _) (λ _. steps _ _ (hook _) (λ _. still))))))))

  pub cancel_auction-KeepsBids : (msg : MsgCancelAuction) → Relates KeepsBids (cancel_auction msg)
  unfolding cancel_auction
  cancel_auction-KeepsBids msg = steps _ _ still (λ o. steps _ _ (found o not_found) (λ a.
      steps _ _ still (λ _. steps _ _ still (λ _. steps _ _ still (λ _.
        steps _ _ (send_coins-KeepsBids _ _ _)
          (λ _. steps _ _ (hook _) (λ _. steps _ _ still (λ a'. set_auction-KeepsBids a'))))))))

  store_allowed_bidders-KeepsBids :
      (a : Auction) (k : ℕ) (abs : List AllowedBidder)
      → Relates KeepsBids (store_allowed_bidders a k abs)
  unfolding store_allowed_bidders
  store_allowed_bidders-KeepsBids a k [] = still
  store_allowed_bidders-KeepsBids a k (ab ∷ abs) = steps _ _ still (λ _. steps _ _ still (λ _.
      steps _ _ (set_allowed_bidder-KeepsBids k ab) (λ _. store_allowed_bidders-KeepsBids a k abs)))

  pub add_allowed_bidders-KeepsBids :
      (k : ℕ) (abs : List AllowedBidder) → Relates KeepsBids (add_allowed_bidders k abs)
  unfolding add_allowed_bidders
  add_allowed_bidders-KeepsBids k abs = steps _ _ still (λ _. steps _ _ still (λ o.
      steps _ _ (found o not_found)
        (λ a. steps _ _ (hook _) (λ _. store_allowed_bidders-KeepsBids a k abs))))
