-- ===== src/Keeper/Bids/Raise.antt =====
-- What a successful `ModifyBid` has done (x/fundraising/keeper/bid.go).
use fundraising.Keeper.Action.{>>=-inv, ◌>>=◌}
use fundraising.Keeper.Bids.{as_batch}
use fundraising.Keeper.Bids.Modify.{modify_bid, raise_bid, reserve_difference}
use fundraising.Keeper.Env.{Env}
use fundraising.Keeper.Inversion.{found-inv, guard-inv, lift-inv, ltb-false, not-==_false}
use fundraising.Keeper.State.{State}
use fundraising.Keeper.Tables.{get_auction, get_bid}
use fundraising.Keeper.Tables.Laws.{get_bid-set_bid}
use fundraising.Prelude.{
  Bool, ap, arith, false, ltb, not, refl, some, subst, true, ℕ, ◌&&◌, ◌==◌, ◌||◌, ◌≡◌, ◌≤◌,
}
use fundraising.Sdk.Accounts.{Accounts}
use fundraising.Sdk.Coins.{Coins}
use fundraising.Sdk.Decimals.{Decimals}
use fundraising.Sdk.Outcome.{
  incorrect_auction_type, incorrect_coin_denom, insufficient_min_bid_price, invalid_auction_status,
  invalid_request, not_found, ok, unauthorized,
}
use fundraising.Types.{Auction, AuctionStatus, AuctionType, Bid, MsgModifyBid, status_eq, type_eq}

started-status_eq :
    (t : AuctionStatus)
    → not (status_eq t AuctionStatus.started) ≡ false
    → t ≡ AuctionStatus.started
started-status_eq AuctionStatus.started h = refl
started-status_eq AuctionStatus.nil h = cc
started-status_eq AuctionStatus.stand_by h = cc
started-status_eq AuctionStatus.vesting h = cc
started-status_eq AuctionStatus.finished h = cc
started-status_eq AuctionStatus.cancelled h = cc

||-false : (p q : Bool) → (p || q) ≡ false → (p ≡ false) × (q ≡ false)
||-false true q h = cc
||-false false q h = (refl, h)

differs : (x y z w : ℕ) → (x == y && z == w) ≡ false → ¬ ((x ≡ y) × (z ≡ w))
differs x y z w h = ground arith

module _ ⦃dec : Decimals⦄ ⦃coins : Coins⦄ ⦃acc : Accounts⦄ ⦃env : Env⦄ (msg : MsgModifyBid)
    (s s' : State) where
  -- Where `ModifyBid` succeeds: the auction is started and the bid is the sender's, in the same coin;
  -- neither the price nor the amount has gone down, and they are not both as they were; and the bid is
  -- stored with the new price and coin, and otherwise as it was.
  pub modify_bid_lem :
      modify_bid msg s ≡ (ok tt, s')
      → (a : Auction) × (b : Bid) × (get_auction msg.auction_id s ≡ some a)
        × (a.status ≡ AuctionStatus.started)
        × (get_bid msg.auction_id msg.bid_id s ≡ some b)
        × (b.bidder ≡ msg.bidder)
        × (b.coin.denom ≡ msg.coin.denom)
        × (b.price ≤ msg.price)
        × (b.coin.amount ≤ msg.coin.amount)
        × ¬ ((msg.price ≡ b.price) × (msg.coin.amount ≡ b.coin.amount))
        × (get_bid b.auction_id b.id s' ≡ some (raise_bid b msg))
  unfolding modify_bid ◌>>=◌
  modify_bid_lem h =
      let (a, ea, h1) = found-inv (get_auction msg.auction_id s) not_found _ s s' h in
      let (status, h2) =
        guard-inv (not (status_eq a.status AuctionStatus.started)) invalid_auction_status _ s s'
          h1 in
      let (_, h3) =
        guard-inv (not (type_eq a.typ AuctionType.batch)) incorrect_auction_type _ s s' h2 in
      let (b, eb, h4) = found-inv (get_bid msg.auction_id msg.bid_id s) not_found _ s s' h3 in
      let (own, h5) = guard-inv (not (b.bidder == msg.bidder)) unauthorized _ s s' h4 in
      let (f, _, h6) = lift-inv (as_batch a.kind) _ s s' h5 in
      let (_, h7) =
        guard-inv (ltb msg.price f.min_bid_price) insufficient_min_bid_price _ s s' h6 in
      let (denom, h8) =
        guard-inv (not (b.coin.denom == msg.coin.denom)) incorrect_coin_denom _ s s' h7 in
      let (lower, h9) =
        guard-inv (ltb msg.price b.price || ltb msg.coin.amount b.coin.amount) invalid_request _ s
          s' h8 in
      let (equal, h10) =
        guard-inv (msg.price == b.price && msg.coin.amount == b.coin.amount) invalid_request _ s s'
          h9 in
      let (_, s1, reserved, h11) = >>=-inv (reserve_difference a b msg b.typ) _ s s' h10 in
      let (not_below, not_less) = ||-false (ltb msg.price b.price) _ lower in
      (
        a,
        b,
        ea,
        started-status_eq a.status status,
        eb,
        not-==_false b.bidder msg.bidder own,
        not-==_false b.coin.denom msg.coin.denom denom,
        ltb-false msg.price b.price not_below,
        ltb-false msg.coin.amount b.coin.amount not_less,
        differs msg.price b.price msg.coin.amount b.coin.amount equal,
        subst (λ t. get_bid b.auction_id b.id t ≡ some (raise_bid b msg)) (ap (λ r. r.1) h11)
            (get_bid-set_bid (raise_bid b msg) _),
      )
