-- ===== src/Keeper/Bids/Steps.antt =====
-- Placing and modifying a bid (x/fundraising/keeper/bid.go) and the tables of bids, up to the bid
-- that is stored at the end.
use fundraising.Keeper.Action.{>>=-inv, Action, pure, ◌>>=◌}
use fundraising.Keeper.Bids.{
  check_min_bid_price, place_by_type, validate_batch_bid, validate_batch_many_bid,
  validate_batch_worth_bid, validate_fixed_price_bid,
}
use fundraising.Keeper.Bids.Consistent.{KeepsBids, KeepsBids-IsFrame}
use fundraising.Keeper.Bids.Modify.{reserve_difference}
use fundraising.Keeper.Bids.Untouched.{
  found, fund_community_pool-KeepsBids, send_coins-KeepsBids, set_auction-KeepsBids, steps, still,
}
use fundraising.Keeper.Env.{Env}
use fundraising.Keeper.Fees.{pay_place_bid_fee, reserve_paying_coin}
use fundraising.Keeper.Frame.{Relates, if-Relates}
use fundraising.Keeper.State.{State}
use fundraising.Prelude.{ap, refl, subst, ℕ, ◌≡◌}
use fundraising.Sdk.{Address, Coin, Denom}
use fundraising.Sdk.Accounts.{Accounts}
use fundraising.Sdk.Coins.{Coins, ok-inj}
use fundraising.Sdk.Decimals.{Decimal, Decimals}
use fundraising.Sdk.Outcome.{not_found, ok}
use fundraising.Types.{Auction, Bid, BidType, MsgModifyBid}
use fundraising.Types.Bids.{set_matched}

module _ ⦃dec : Decimals⦄ where
  validate_batch_bid-KeepsBids :
      (d : Denom) (a : Auction) (b : Bid) → Relates KeepsBids (validate_batch_bid d a b)
  unfolding validate_batch_bid
  validate_batch_bid-KeepsBids d a b = steps _ _ still (λ _.
      steps _ _ still (λ _. steps _ _ still (λ o. steps _ _ (found o not_found) (λ _. still))))

module _ ⦃dec : Decimals⦄ ⦃coins : Coins⦄ where
  validate_fixed_price_bid-KeepsBids :
      (a : Auction) (b : Bid) → Relates KeepsBids (validate_fixed_price_bid a b)
  unfolding validate_fixed_price_bid
  validate_fixed_price_bid-KeepsBids a b = steps _ _ still (λ _. steps _ _ still (λ _.
      steps _ _ still (λ _. steps _ _ still (λ _. steps _ _ still (λ _. steps _ _ still (λ _.
        steps _ _ still
          (λ _. steps _ _ still (λ o. steps _ _ (found o not_found) (λ _. still)))))))))

module _ ⦃dec : Decimals⦄ ⦃coins : Coins⦄ ⦃acc : Accounts⦄ ⦃env : Env⦄ where
  pub check_min_bid_price-KeepsBids :
      (a : Auction) (p : Decimal) → Relates KeepsBids (check_min_bid_price a p)
  unfolding check_min_bid_price
  check_min_bid_price-KeepsBids a p =
      if-Relates KeepsBids KeepsBids-IsFrame _ _ _ (steps _ _ still (λ _. still)) still

  reserve_paying_coin-KeepsBids :
      (k : ℕ) (x : Address) (c : Coin) → Relates KeepsBids (reserve_paying_coin k x c)
  unfolding reserve_paying_coin
  reserve_paying_coin-KeepsBids k x c = send_coins-KeepsBids _ _ c

  pub pay_place_bid_fee-KeepsBids : (x : Address) → Relates KeepsBids (pay_place_bid_fee x)
  unfolding pay_place_bid_fee
  pay_place_bid_fee-KeepsBids x =
      steps _ _ still (λ p. fund_community_pool-KeepsBids p.place_bid_fee x)

  pub place_by_type-KeepsBids :
      (a : Auction) (b : Bid) (typ : BidType) → Relates KeepsBids (place_by_type a b typ)
  unfolding place_by_type validate_batch_worth_bid validate_batch_many_bid
  place_by_type-KeepsBids a b BidType.nil = still
  place_by_type-KeepsBids a b BidType.fixed_price =
      steps _ _ (validate_fixed_price_bid-KeepsBids a b) (λ _. steps _ _ still (λ _.
        steps _ _ (reserve_paying_coin-KeepsBids _ _ _)
          (λ _. steps _ _ still (λ _. steps _ _ (set_auction-KeepsBids _) (λ _. still)))))
  place_by_type-KeepsBids a b BidType.batch_worth =
      steps _ _ (validate_batch_bid-KeepsBids _ a b)
        (λ _. steps _ _ (reserve_paying_coin-KeepsBids _ _ _) (λ _. still))
  place_by_type-KeepsBids a b BidType.batch_many =
      steps _ _ (validate_batch_bid-KeepsBids _ a b)
        (λ _. steps _ _ (reserve_paying_coin-KeepsBids _ _ _) (λ _. still))

  pub reserve_difference-KeepsBids :
      (a : Auction) (b : Bid) (msg : MsgModifyBid) (typ : BidType)
      → Relates KeepsBids (reserve_difference a b msg typ)
  unfolding reserve_difference
  reserve_difference-KeepsBids a b msg BidType.nil = still
  reserve_difference-KeepsBids a b msg BidType.fixed_price = still
  reserve_difference-KeepsBids a b msg BidType.batch_worth = steps _ _ still (λ _.
      if-Relates KeepsBids KeepsBids-IsFrame _ _ _ (reserve_paying_coin-KeepsBids _ _ _) still)
  reserve_difference-KeepsBids a b msg BidType.batch_many =
      steps _ _ (if-Relates KeepsBids KeepsBids-IsFrame _ _ _ still still) (λ _.
        if-Relates KeepsBids KeepsBids-IsFrame _ _ _ (reserve_paying_coin-KeepsBids _ _ _) still)

-- A bid with another's place and bidder.
abbrev pub IsSameBid : Bid → Bid → Type 0
IsSameBid b b' = (b'.auction_id ≡ b.auction_id) × (b'.id ≡ b.id) × (b'.bidder ≡ b.bidder)

abbrev pub Returns : {A : Type 0} → (A → Type 0) → Action A → Type 0
Returns Q m = (s s' : State) (a : _) → m s ≡ (ok a, s') → Q a

>>=-Returns :
    {A B : Type 0} (Q : B → Type 0) (m : Action A) (f : A → Action B)
    → ((a : A) → Returns Q (f a))
    → Returns Q (m >>= f)
>>=-Returns Q m f h s s' b e = let (a, t, _, g) = >>=-inv m f s s' e in h a t s' b g

pure-Returns : {A : Type 0} (Q : A → Type 0) (a : A) → Q a → Returns Q (pure a)
pure-Returns Q a q s s' b e = subst Q (ok-inj (ap (λ r. r.0) e)) q

module _ ⦃dec : Decimals⦄ ⦃coins : Coins⦄ ⦃acc : Accounts⦄ ⦃env : Env⦄ (a : Auction) (b : Bid) where
  step :
      {A : Type 0} (m : Action A) (f : A → Action Bid)
      → ((x : A) → Returns (IsSameBid b) (f x))
      → Returns (IsSameBid b) (m >>= f)
  step = >>=-Returns (IsSameBid b)

  pub place_by_type-IsSameBid : (typ : BidType) → Returns (IsSameBid b) (place_by_type a b typ)
  unfolding place_by_type set_matched
  place_by_type-IsSameBid BidType.nil = pure-Returns (IsSameBid b) b (refl, refl, refl)
  place_by_type-IsSameBid BidType.fixed_price = step _ _ (λ _. step _ _ (λ _.
      step _ _
        (λ _. step _ _ (λ _. step _ _ (λ _. pure-Returns (IsSameBid b) _ (refl, refl, refl))))))
  place_by_type-IsSameBid BidType.batch_worth =
      step _ _ (λ _. step _ _ (λ _. pure-Returns (IsSameBid b) b (refl, refl, refl)))
  place_by_type-IsSameBid BidType.batch_many =
      step _ _ (λ _. step _ _ (λ _. pure-Returns (IsSameBid b) b (refl, refl, refl)))
