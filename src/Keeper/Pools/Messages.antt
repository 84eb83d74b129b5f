-- ===== src/Keeper/Pools/Messages.antt =====
-- The messages (x/fundraising/handler.go) and the reserves.
use fundraising.Keeper.Action.{>>=-inv, ◌>>=◌}
use fundraising.Keeper.Auctions.{
  add_allowed_bidders, create_batch_auction, create_fixed_price_auction,
}
use fundraising.Keeper.Bids.{place_bid}
use fundraising.Keeper.Bids.Consistent.{IsConsistent}
use fundraising.Keeper.Env.{Env}
use fundraising.Keeper.Frame.{QuietHooks}
use fundraising.Keeper.Messages.{
  Msg, add_allowed_bidder_msg, cancel_auction_msg, create_batch_auction_msg,
  create_fixed_price_auction_msg, handle, modify_bid_msg, place_bid_msg, server_add_allowed_bidder,
  validate_basic,
}
use fundraising.Keeper.Messages.Signers.{sender}
use fundraising.Keeper.Pools.{Everyone, IsFunded, Spares, Spares-IsFunded}
use fundraising.Keeper.Pools.Bids.{place_bid-IsFunded}
use fundraising.Keeper.Pools.Closing.{ends}
use fundraising.Keeper.Pools.Creating.{
  add_allowed_bidders-Spares, cancel_auction-IsFunded, create_batch_auction-IsFunded,
  create_fixed_price_auction-IsFunded,
}
use fundraising.Keeper.Pools.Placing.{IsOutside}
use fundraising.Keeper.Pools.Raising.{modify_bid-IsFunded}
use fundraising.Keeper.State.{State}
use fundraising.Prelude.{
  Bool, [], ap, arith, false, not, subst, true, ◌+◌, ◌<◌, ◌==◌, ◌^◌, ◌∙◌, ◌∷◌, ◌≡◌, ◌≢◌,
}
use fundraising.Sdk.{Time}
use fundraising.Sdk.Accounts.{Accounts}
use fundraising.Sdk.Coins.{Coins}
use fundraising.Sdk.Decimals.{Decimals}
use fundraising.Sdk.Outcome.{fail_if, fail_if-passed, invalid_address, invalid_request, ok}
use fundraising.Types.{BidType, MsgCreateBatchAuction, MsgCreateFixedPriceAuction, MsgPlaceBid}
use fundraising.Types.Msgs.{
  is_bid_type, validate_create_batch_auction, validate_create_fixed_price_auction,
  validate_place_bid,
}
use mathlib.Core.Path.{sym}

-- What the stateless checks of the messages let through.
module _ ⦃acc : Accounts⦄ where
  open acc use {validate_coin, valid_address, valid_denom}

  fixed_price_two_coins :
      (msg : MsgCreateFixedPriceAuction)
      → validate_create_fixed_price_auction msg ≡ ok tt
      → msg.selling_coin.denom ≢ msg.paying_coin_denom
  unfolding validate_create_fixed_price_auction
  fixed_price_two_coins msg h =
      let (_, h1) = fail_if-passed (not (valid_address msg.auctioneer)) invalid_address _ h in
      let (_, h2) = fail_if-passed (msg.start_price == 0) invalid_request _ h1 in
      let (_, h3) = fail_if-passed (not (validate_coin msg.selling_coin)) invalid_request _ h2 in
      let (_, h4) = fail_if-passed (msg.selling_coin.amount == 0) invalid_request _ h3 in
      let (two, _) =
        fail_if-passed (msg.selling_coin.denom == msg.paying_coin_denom) invalid_request _ h4 in
      λ e. ground arith

  batch_two_coins :
      (msg : MsgCreateBatchAuction)
      → validate_create_batch_auction msg ≡ ok tt
      → msg.selling_coin.denom ≢ msg.paying_coin_denom
  unfolding validate_create_batch_auction
  batch_two_coins msg h =
      let (_, h1) = fail_if-passed (not (valid_address msg.auctioneer)) invalid_address _ h in
      let (_, h2) = fail_if-passed (msg.start_price == 0) invalid_request _ h1 in
      let (_, h3) = fail_if-passed (msg.min_bid_price == 0) invalid_request _ h2 in
      let (_, h4) = fail_if-passed (not (validate_coin msg.selling_coin)) invalid_request _ h3 in
      let (_, h5) = fail_if-passed (msg.selling_coin.amount == 0) invalid_request _ h4 in
      let (two, _) =
        fail_if-passed (msg.selling_coin.denom == msg.paying_coin_denom) invalid_request _ h5 in
      λ e. ground arith

  bid_is_typed : (msg : MsgPlaceBid) → validate_place_bid msg ≡ ok tt → msg.bid_type ≢ BidType.nil
  unfolding validate_place_bid
  bid_is_typed msg h e =
      let (_, h1) = fail_if-passed (not (valid_address msg.bidder)) invalid_address _ h in
      let (_, h2) = fail_if-passed (msg.price == 0) invalid_request _ h1 in
      let (_, h3) = fail_if-passed (not (validate_coin msg.coin)) invalid_request _ h2 in
      let (_, h4) = fail_if-passed (msg.coin.amount == 0) invalid_request _ h3 in
      let stuck : fail_if (not (is_bid_type BidType.nil)) invalid_request ≡ ok tt =
        ap (λ t. fail_if (not (is_bid_type t)) invalid_request) (sym e) ∙ h4 in
      cc

module _ ⦃dec : Decimals⦄ ⦃coins : Coins⦄ ⦃acc : Accounts⦄ ⦃env : Env⦄ (quiet : QuietHooks)
    (enabled : Bool) (now : Time) where
  -- If the hooks of other modules leave the state alone, and the tables of bids are consistent, a message
  -- that passes its stateless checks, comes from an account that is no paying or selling reserve, and
  -- succeeds while an id for another auction is left, keeps the reserves funded: if before it each auction
  -- that is on stand-by or started had at least as much in its paying reserve as its bids have reserved,
  -- and in its selling reserve as it sells, then so has each after it; and auctions and bids stay stated as
  -- `IsFunded` asks besides.
  pub handle-IsFunded :
      (msg : Msg) (s t : State)
      → IsConsistent s
      → IsFunded Everyone s
      → IsOutside (sender msg)
      → s.last_auction_id + 1 < 2 ^ 64
      → validate_basic msg ≡ ok tt
      → handle enabled now msg s ≡ (ok tt, t)
      → IsFunded Everyone t
  unfolding handle validate_basic server_add_allowed_bidder ◌>>=◌
  handle-IsFunded (create_fixed_price_auction_msg m) s t c f outside room valid h =
      let (a, u, e, e1) = >>=-inv (create_fixed_price_auction now m) _ s t h in
      subst (IsFunded Everyone) (ap (λ r. r.1) e1) (
        create_fixed_price_auction-IsFunded quiet now s u a f room m outside
          (fixed_price_two_coins m valid) e)
  handle-IsFunded (create_batch_auction_msg m) s t c f outside room valid h =
      let (a, u, e, e1) = >>=-inv (create_batch_auction now m) _ s t h in
      subst (IsFunded Everyone) (ap (λ r. r.1) e1)
        (create_batch_auction-IsFunded quiet now s u a f room m outside (batch_two_coins m valid) e)
  handle-IsFunded (cancel_auction_msg m) s t c f outside room valid h =
      cancel_auction-IsFunded quiet m s t f h
  handle-IsFunded (place_bid_msg m) s t c f outside room valid h =
      let (b, u, e, e1) = >>=-inv (place_bid m) _ s t h in
      subst (IsFunded Everyone) (ap (λ r. r.1) e1)
        (place_bid-IsFunded quiet m s u b f c.bids_ordered outside (bid_is_typed m valid) e)
  handle-IsFunded (modify_bid_msg m) s t c f outside room valid h =
      modify_bid-IsFunded quiet m s t c f outside h
  handle-IsFunded (add_allowed_bidder_msg m) s t c f outside room valid h = go enabled h
    where
      go : (on : Bool) → server_add_allowed_bidder on m s ≡ (ok tt, t) → IsFunded Everyone t
      go false h = cc
      go true h =
          Spares-IsFunded Everyone Everyone s t (λ k _. tt)
            (ends (Spares Everyone) (add_allowed_bidders m.auction_id (m.allowed_bidder ∷ [])) s t
              (add_allowed_bidders-Spares quiet m.auction_id (m.allowed_bidder ∷ [])) h)
            f
