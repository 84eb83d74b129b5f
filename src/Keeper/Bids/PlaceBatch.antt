-- ===== src/Keeper/Bids/PlaceBatch.antt =====
-- Placing a bid in a batch auction (x/fundraising/keeper/bid.go).
use fundraising.Keeper.Action.{>>=-inv, continue_with, pure, ◌>>=◌}
use fundraising.Keeper.Bids.{
  place_by_type, validate_batch_bid, validate_batch_many_bid, validate_batch_worth_bid,
}
use fundraising.Keeper.Env.{Env}
use fundraising.Keeper.Fees.{reserve_paying_coin}
use fundraising.Keeper.Inversion.{Moves, send-inv, send_coins-Moves}
use fundraising.Keeper.Pools.Placing.{coin_paid, validate_batch_bid_lem}
use fundraising.Keeper.Pools.Stored.{one_value}
use fundraising.Keeper.State.{State}
use fundraising.Keeper.Tables.{get_allowed_bidder}
use fundraising.Prelude.{Option, ap, none, refl, some, subst, ◌∙◌, ◌≡◌, ◌≤◌}
use fundraising.Sdk.{Coin, Denom, new_coin}
use fundraising.Sdk.Accounts.{Accounts}
use fundraising.Sdk.Coins.{Coins, ok-inj}
use fundraising.Sdk.Decimals.{Decimals}
use fundraising.Sdk.Outcome.{ok}
use fundraising.Types.{AllowedBidder, Auction, AuctionType, Bid, BidType}
use fundraising.Types.Auctions.{paying_reserve_address}
use fundraising.Types.Bids.{convert_to_paying_amount, convert_to_selling_amount}
use mathlib.Core.Path.{sym}

-- The coin that a bid of this type is stated in.
abbrev pub bid_denom : Auction → BidType → Option Denom
bid_denom a BidType.batch_worth = some a.paying_coin_denom
bid_denom a BidType.batch_many = some a.selling_coin.denom
bid_denom a BidType.fixed_price = none
bid_denom a BidType.nil = none

module _ ⦃dec : Decimals⦄ ⦃coins : Coins⦄ ⦃acc : Accounts⦄ ⦃env : Env⦄ (a : Auction) (b b' : Bid)
    (s s' : State) where
  -- What a successful run has checked and moved.
  abbrev pub PlacedAs : Denom → Type 0
  PlacedAs denom =
      let pays = new_coin a.paying_coin_denom (convert_to_paying_amount a.paying_coin_denom b) in
      (allowed : AllowedBidder) × (a.typ ≡ AuctionType.batch)
      × (b.coin.denom ≡ denom)
      × (get_allowed_bidder b.auction_id b.bidder s ≡ some allowed)
      × (convert_to_selling_amount a.paying_coin_denom b ≤ allowed.max_bid_amount)
      × Moves b.bidder (paying_reserve_address b.auction_id) pays s s'
      × (s'.auctions ≡ s.auctions)
      × (b' ≡ b)

  paid_as :
      (denom : Denom) (c : Coin) (s1 : State)
      → validate_batch_bid denom a b s ≡ (ok tt, s1)
      → c ≡ new_coin a.paying_coin_denom (convert_to_paying_amount a.paying_coin_denom b)
      → continue_with (λ _. pure b) (reserve_paying_coin b.auction_id b.bidder c s1) ≡ (ok b', s')
      → PlacedAs denom
  unfolding reserve_paying_coin
  paid_as denom c s1 valid pays h =
      let to = paying_reserve_address b.auction_id in
      let (typ, own, same, (allowed, listed, within)) =
        validate_batch_bid_lem a b s s1 denom valid in
      let (m, sent, h1) = send-inv b.bidder to c (λ _. pure b) s1 s' h in
      let after : s' ≡ record s1 { bank = m } = sym (ap (λ r. r.1) h1) in
      (
        allowed,
        typ,
        own,
        listed,
        within,
        subst (λ x. Moves b.bidder to x s s') pays
            (send_coins-Moves b.bidder to c s s' m
              (subst (λ t. env.send_coins b.bidder to c t.bank ≡ some m) same sent)
              (ap (λ t. t.bank) after)),
        ap (λ t. t.auctions) after ∙ ap (λ t. t.auctions) same,
        sym (ok-inj (ap (λ r. r.0) h1)),
      )

  pub place_batch_lem :
      (typ : BidType) (denom : Denom)
      → bid_denom a typ ≡ some denom
      → place_by_type a b typ s ≡ (ok b', s')
      → PlacedAs denom
  unfolding place_by_type ◌>>=◌ validate_batch_worth_bid validate_batch_many_bid
  place_batch_lem BidType.nil denom e h = cc
  place_batch_lem BidType.fixed_price denom e h = cc
  place_batch_lem BidType.batch_worth denom e h =
      let (_, s1, valid, h1) = >>=-inv (validate_batch_bid a.paying_coin_denom a b) _ s s' h in
      let (_, own, _, _) = validate_batch_bid_lem a b s s1 a.paying_coin_denom valid in
      subst PlacedAs (one_value refl e)
        (paid_as a.paying_coin_denom b.coin s1 valid (coin_paid b a.paying_coin_denom own) h1)
  place_batch_lem BidType.batch_many denom e h =
      let (_, s1, valid, h1) = >>=-inv (validate_batch_bid a.selling_coin.denom a b) _ s s' h in
      subst PlacedAs (one_value refl e) (paid_as a.selling_coin.denom _ s1 valid refl h1)
