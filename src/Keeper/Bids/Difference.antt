-- ===== src/Keeper/Bids/Difference.antt =====
-- What `ModifyBid` reserves on top (x/fundraising/keeper/bid.go).
use fundraising.Keeper.Action.{pure, ◌>>=◌}
use fundraising.Keeper.Bids.Modify.{raise_bid, reserve_decimal, reserve_difference}
use fundraising.Keeper.Env.{Env}
use fundraising.Keeper.Fees.{reserve_paying_coin}
use fundraising.Keeper.Inversion.{Moves, lift-inv, ltb-false, send_coins_lem, throw_if-inv}
use fundraising.Keeper.State.{State}
use fundraising.Prelude.{
  Bool, ap, arith, false, if◌then◌else◌, ltb, refl, subst, true, ◌*◌, ◌+◌, ◌-◌, ◌/◌, ◌∙◌, ◌≡◌, ◌≢◌,
  ◌≤◌,
}
use fundraising.Sdk.{Amount, Coin, new_coin}
use fundraising.Sdk.Accounts.{Accounts}
use fundraising.Sdk.Coins.{Coins, sub_coin-ok}
use fundraising.Sdk.Decimals.{Decimal, Decimals, one}
use fundraising.Sdk.Outcome.{ok}
use fundraising.Types.{Auction, Bid, BidType, MsgModifyBid}
use fundraising.Types.Auctions.{paying_reserve_address}
use fundraising.Types.Bids.{convert_to_paying_amount}
use mathlib.Core.Path.{sym}

-- A whole number of coins.
reserve_decimal_whole :
    ⦃dec : Decimals⦄ (amt : Amount) (price : Decimal)
    → reserve_decimal amt price ≡ (amt * price + (one - 1)) / one * one
unfolding reserve_decimal
reserve_decimal_whole ⦃dec⦄ amt price =
    rw (dec.ceil_up, dec.new_dec_from_int_units, dec.mul_whole) refl

-- The difference of two amounts, each rounded up to whole coins.
whole_difference :
    ⦃dec : Decimals⦄ (amt less : Amount) (price lower : Decimal)
    → reserve_decimal less lower ≤ reserve_decimal amt price
    → dec.truncate_int (reserve_decimal amt price - reserve_decimal less lower)
        + dec.truncate_int (reserve_decimal less lower)
      ≡ dec.truncate_int (reserve_decimal amt price)
whole_difference ⦃dec⦄ amt less price lower h =
    let top = reserve_decimal amt price in
    let low = reserve_decimal less lower in
    omega (
      arith,
      dec.truncate_int_down (top - low),
      dec.truncate_int_down low,
      dec.truncate_int_down top,
      reserve_decimal_whole amt price,
      reserve_decimal_whole less lower,
    )

module _ ⦃dec : Decimals⦄ ⦃coins : Coins⦄ ⦃acc : Accounts⦄ ⦃env : Env⦄ (a : Auction) (b : Bid)
    (msg : MsgModifyBid) (s s' : State) where
  -- Nothing is sent where there is nothing to send, and that moves the same coins.
  reserve_positive :
      (c : Coin)
      → (if ltb 0 c.amount then reserve_paying_coin msg.auction_id msg.bidder c else pure tt) s
        ≡ (ok tt, s')
      → Moves msg.bidder (paying_reserve_address msg.auction_id) c s s'
  unfolding reserve_paying_coin
  reserve_positive c h = go (ltb 0 c.amount) refl h
    where
      go :
          (p : Bool)
          → ltb 0 c.amount ≡ p
          → (if p then reserve_paying_coin msg.auction_id msg.bidder c else pure tt) s ≡ (ok tt, s')
          → Moves msg.bidder (paying_reserve_address msg.auction_id) c s s'
      go false e h = λ x d.
          let kept : s'.bank x d ≡ s.bank x d = sym (ap (λ r. r.1.bank x d) h) in ground arith
      go true e h = send_coins_lem msg.bidder (paying_reserve_address msg.auction_id) c s s' h

  -- Where `ModifyBid` reserves more for a bid stated in the selling coin: the amount that moves from the
  -- bidder to the paying reserve is the difference between what the new bid pays and what the old one
  -- pays, and no other balance changes.
  pub reserve_difference_many :
      reserve_difference a b msg BidType.batch_many s ≡ (ok tt, s')
      → b.coin.denom ≢ a.paying_coin_denom
      → b.coin.denom ≡ msg.coin.denom
      → (diff : Amount) × (diff + convert_to_paying_amount a.paying_coin_denom b
          ≡ convert_to_paying_amount a.paying_coin_denom (raise_bid b msg))
        × Moves msg.bidder
            (paying_reserve_address msg.auction_id)
            (new_coin a.paying_coin_denom diff)
            s
            s'
  unfolding reserve_difference ◌>>=◌ convert_to_paying_amount reserve_decimal
  reserve_difference_many h other same =
      let prev = reserve_decimal b.coin.amount b.price in
      let curr = reserve_decimal msg.coin.amount msg.price in
      let (grows, h1) = throw_if-inv (ltb curr prev) _ s s' h in
      let whole =
        whole_difference msg.coin.amount b.coin.amount msg.price b.price
          (ltb-false curr prev grows) in
      (dec.truncate_int (curr - prev), ground arith, reserve_positive _ h1)

  -- The same for a bid stated in the paying coin: the amount that moves from the bidder to the paying
  -- reserve is the difference between what the new bid pays and what the old one pays, and no other
  -- balance changes.
  pub reserve_difference_worth :
      reserve_difference a b msg BidType.batch_worth s ≡ (ok tt, s')
      → b.coin.denom ≡ a.paying_coin_denom
      → (diff : Amount) × (diff + convert_to_paying_amount a.paying_coin_denom b
          ≡ convert_to_paying_amount a.paying_coin_denom (raise_bid b msg))
        × Moves msg.bidder
            (paying_reserve_address msg.auction_id)
            (new_coin a.paying_coin_denom diff)
            s
            s'
  unfolding reserve_difference ◌>>=◌ convert_to_paying_amount
  reserve_difference_worth h paying =
      let (diff, taken, h1) = lift-inv (coins.sub_coin msg.coin b.coin) _ s s' h in
      let (f, d, e) = sub_coin-ok msg.coin b.coin diff taken in
      let coin : diff ≡ new_coin a.paying_coin_denom diff.amount =
        ap (λ x. new_coin x diff.amount) (d ∙ f ∙ paying) in
      (
        diff.amount,
        ground arith,
        subst (λ c. Moves msg.bidder (paying_reserve_address msg.auction_id) c s s') coin
            (reserve_positive diff h1),
      )
