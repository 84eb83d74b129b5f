-- ===== src/Keeper/Bids/Place.antt =====
-- Placing a bid at a fixed price (x/fundraising/keeper/bid.go).
use fundraising.Keeper.Action.{>>=-inv, ◌>>=◌}
use fundraising.Keeper.Bids.{
  as_fixed_price, place_by_type, total_bid_amount, validate_fixed_price_bid,
}
use fundraising.Keeper.Env.{Env}
use fundraising.Keeper.Fees.{reserve_paying_coin}
use fundraising.Keeper.Inversion.{
  Moves, found-inv, guard-inv, lift-inv, ltb-false, not-==_false, return_if-inv, send-inv,
  send_coins-Moves,
}
use fundraising.Keeper.State.{State}
use fundraising.Keeper.Tables.{get_allowed_bidder, get_auction, get_bids_by_bidder, set_auction}
use fundraising.Keeper.Tables.Laws.{get_auction-set_auction}
use fundraising.Prelude.{ap, ltb, not, refl, some, subst, true, ◌&&◌, ◌+◌, ◌==◌, ◌≡◌, ◌≤◌}
use fundraising.Sdk.{Coin, new_coin}
use fundraising.Sdk.Accounts.{Accounts}
use fundraising.Sdk.Coins.{Coins, ok-inj, sub_coin-ok}
use fundraising.Sdk.Decimals.{Decimals}
use fundraising.Sdk.Outcome.{
  incorrect_auction_type, incorrect_coin_denom, insufficient_remaining_amount, invalid_start_price,
  not_found, ok, over_max_bid_amount_limit,
}
use fundraising.Types.{
  AllowedBidder, Auction, AuctionType, Bid, BidType, Kind, batch_auction, fixed_price_auction,
  type_eq,
}
use fundraising.Types.Auctions.{paying_reserve_address}
use fundraising.Types.Bids.{convert_to_paying_amount, convert_to_selling_amount, set_matched}
use mathlib.Core.Path.{sym}

pub as_fixed_price-ok : (k : Kind) (c : Coin) → as_fixed_price k ≡ ok c → k ≡ fixed_price_auction c
as_fixed_price-ok (fixed_price_auction d) c h = cc
as_fixed_price-ok (batch_auction f) c h = cc

-- A bid at a fixed price that passes the checks, and changes nothing.
module _ ⦃dec : Decimals⦄ ⦃coins : Coins⦄ (a : Auction) (b : Bid) (s s' : State) where
  pub validate_fixed_price_bid_lem :
      validate_fixed_price_bid a b s ≡ (ok tt, s')
      → (allowed : AllowedBidder) × (b.price ≡ a.start_price)
        × (get_allowed_bidder b.auction_id b.bidder s ≡ some allowed)
        × (let amt = convert_to_selling_amount a.paying_coin_denom b in
            total_bid_amount a.id a.paying_coin_denom (get_bids_by_bidder b.bidder s) + amt
            ≤ allowed.max_bid_amount)
        × (s' ≡ s)
  unfolding validate_fixed_price_bid ◌>>=◌
  validate_fixed_price_bid_lem h =
      let amt = convert_to_selling_amount a.paying_coin_denom b in
      let (_, h1) =
        guard-inv (not (type_eq a.typ AuctionType.fixed_price)) incorrect_auction_type _ s s' h in
      let (_, h2) =
        guard-inv
          (not (b.coin.denom == a.paying_coin_denom) && not (b.coin.denom == a.selling_coin.denom))
          incorrect_coin_denom _ s s' h1 in
      let (at_price, h3) =
        guard-inv (not (b.price == a.start_price)) invalid_start_price _ s s' h2 in
      let (remaining, er, h4) = lift-inv (as_fixed_price a.kind) _ s s' h3 in
      let (short, es, h5) =
        lift-inv (coins.is_lt remaining (new_coin a.selling_coin.denom amt)) _ s s' h4 in
      let (_, h6) = guard-inv short insufficient_remaining_amount _ s s' h5 in
      let (allowed, el, h7) =
        found-inv (get_allowed_bidder b.auction_id b.bidder s) not_found _ s s' h6 in
      let total = total_bid_amount a.id a.paying_coin_denom (get_bids_by_bidder b.bidder s) in
      let (within, same) =
        return_if-inv (ltb allowed.max_bid_amount (total + amt)) over_max_bid_amount_limit s s'
          h7 in
      (allowed, not-==_false b.price a.start_price at_price, el, ltb-false _ _ within, same)

module _ ⦃dec : Decimals⦄ ⦃coins : Coins⦄ ⦃acc : Accounts⦄ ⦃env : Env⦄ (a : Auction) (b b' : Bid)
    (s s' : State) where
  -- Where the fixed-price branch of `PlaceBid` succeeds: the price is the start price; the bidder is
  -- allowed, and what the bidder's earlier bids and this one get is at most the bidder's maximum; the
  -- amount that the bid gets leaves the stored remaining coin, which covered it; what the bid pays has
  -- moved from the bidder to the paying reserve, and no other balance has changed; and the bid is
  -- marked as matched.
  pub place_fixed_price_lem :
      place_by_type a b BidType.fixed_price s ≡ (ok b', s')
      → let gets = convert_to_selling_amount a.paying_coin_denom b in
        let pays = new_coin a.paying_coin_denom (convert_to_paying_amount a.paying_coin_denom b) in
        (allowed : AllowedBidder) × (remaining : Coin) × (left : Coin) × (b.price ≡ a.start_price)
        × (get_allowed_bidder b.auction_id b.bidder s ≡ some allowed)
        × (total_bid_amount a.id a.paying_coin_denom (get_bids_by_bidder b.bidder s) + gets
            ≤ allowed.max_bid_amount)
        × (a.kind ≡ fixed_price_auction remaining)
        × (left.amount + gets ≡ remaining.amount)
        × (get_auction a.id s' ≡ some (record a { kind = fixed_price_auction left }))
        × Moves b.bidder (paying_reserve_address b.auction_id) pays s s'
        × (b' ≡ set_matched true b)
  unfolding place_by_type ◌>>=◌ reserve_paying_coin set_auction
  place_fixed_price_lem h =
      let denom = a.paying_coin_denom in
      let pays = new_coin denom (convert_to_paying_amount denom b) in
      let amt = new_coin a.selling_coin.denom (convert_to_selling_amount denom b) in
      let (_, s1, valid, h1) = >>=-inv (validate_fixed_price_bid a b) _ s s' h in
      let (allowed, price, listed, within, same) = validate_fixed_price_bid_lem a b s s1 valid in
      let (remaining, kind, h2) = lift-inv (as_fixed_price a.kind) _ s1 s' h1 in
      let (m, sent, h3) = send-inv b.bidder (paying_reserve_address b.auction_id) pays _ s1 s' h2 in
      let (left, taken, h4) =
        lift-inv (coins.sub_coin remaining amt) _ (record s1 { bank = m }) s' h3 in
      let a' = record a { kind = fixed_price_auction left } in
      let after : s' ≡ set_auction a' (record s1 { bank = m }) = sym (ap (λ r. r.1) h4) in
      (
        allowed,
        remaining,
        left,
        price,
        listed,
        within,
        as_fixed_price-ok a.kind remaining kind,
        (sub_coin-ok remaining amt left taken).2,
        subst (λ t. get_auction a.id t ≡ some a') (sym after)
            (get_auction-set_auction a.id a' _ refl),
        send_coins-Moves b.bidder (paying_reserve_address b.auction_id) pays s s' m
            (subst
              (λ t.
                env.send_coins b.bidder (paying_reserve_address b.auction_id) pays t.bank ≡ some m)
              same sent)
            (ap (λ t. t.bank) after),
        ok-inj (sym (ap (λ r. r.0) h4)),
      )
