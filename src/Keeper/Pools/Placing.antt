-- ===== src/Keeper/Pools/Placing.antt =====
-- Placing a bid (x/fundraising/keeper/bid.go) and the paying reserve of its auction.
use fundraising.Keeper.Action.{>>=-inv, ◌>>=◌}
use fundraising.Keeper.Bids.{
  as_fixed_price, place_by_type, validate_batch_bid, validate_batch_many_bid,
  validate_batch_worth_bid, validate_fixed_price_bid,
}
use fundraising.Keeper.Bids.Place.{validate_fixed_price_bid_lem}
use fundraising.Keeper.Env.{Env, amount_at}
use fundraising.Keeper.Fees.{reserve_paying_coin}
use fundraising.Keeper.Inversion.{
  found-inv, guard-inv, lift-inv, ltb-false, not-==_false, return_if-inv, send_coins_lem,
}
use fundraising.Keeper.Pools.{
  Everyone, FitsAuction, IsApart, IsFunded, Spares, Spares-IsFunded, Spares-stored, Spares-total,
  bid_total, is_open, pool,
}
use fundraising.Keeper.Pools.Auctions.{kept_open-IsFunded}
use fundraising.Keeper.Pools.Transfers.{amount_at_other, amount_at_self, send_coins-Spares}
use fundraising.Keeper.State.{State}
use fundraising.Keeper.Tables.{get_allowed_bidder, get_auction, set_auction}
use fundraising.Keeper.Tables.Laws.{get_auction-set_auction}
use fundraising.Prelude.{
  [], ap, arith, false, inl, inr, ltb, not, refl, some, subst, true, ℕ, ◌+◌, ◌==◌, ◌∙◌, ◌∷◌, ◌≡◌,
  ◌≢◌, ◌≤◌,
}
use fundraising.Sdk.{Address, Coin, Denom, new_coin}
use fundraising.Sdk.Accounts.{Accounts}
use fundraising.Sdk.Coins.{Coins, ok-inj}
use fundraising.Sdk.Decimals.{Decimals}
use fundraising.Sdk.Outcome.{
  incorrect_auction_type, incorrect_coin_denom, not_found, ok, over_max_bid_amount_limit,
}
use fundraising.Types.{
  AllowedBidder, Auction, AuctionType, Bid, BidType, Kind, fixed_price_auction, type_eq,
}
use fundraising.Types.Auctions.{paying_reserve_address}
use fundraising.Types.Bids.{convert_to_paying_amount, convert_to_selling_amount, set_matched}
use mathlib.Core.Path.{sym}

pub type_eq_sound : (x y : AuctionType) → not (type_eq x y) ≡ false → x ≡ y
type_eq_sound AuctionType.nil AuctionType.nil h = refl
type_eq_sound AuctionType.nil AuctionType.fixed_price h = cc
type_eq_sound AuctionType.nil AuctionType.batch h = cc
type_eq_sound AuctionType.fixed_price AuctionType.nil h = cc
type_eq_sound AuctionType.fixed_price AuctionType.fixed_price h = refl
type_eq_sound AuctionType.fixed_price AuctionType.batch h = cc
type_eq_sound AuctionType.batch AuctionType.nil h = cc
type_eq_sound AuctionType.batch AuctionType.fixed_price h = cc
type_eq_sound AuctionType.batch AuctionType.batch h = refl

-- An account that is no paying or selling reserve, as every account with a key.
abbrev pub IsOutside : ⦃acc : Accounts⦄ → Address → Type 0
IsOutside x = (k : ℕ) → IsApart k x

-- What the checks of a bid in a batch auction let through.
module _ ⦃dec : Decimals⦄ (a : Auction) (b : Bid) (s s' : State) where
  pub validate_batch_bid_lem :
      (denom : Denom)
      → validate_batch_bid denom a b s ≡ (ok tt, s')
      → (a.typ ≡ AuctionType.batch)
        × (b.coin.denom ≡ denom)
        × (s' ≡ s)
        × ((allowed : AllowedBidder) × (get_allowed_bidder b.auction_id b.bidder s ≡ some allowed)
            × (convert_to_selling_amount a.paying_coin_denom b ≤ allowed.max_bid_amount))
  unfolding validate_batch_bid ◌>>=◌
  validate_batch_bid_lem denom h =
      let (t, h1) =
        guard-inv (not (type_eq a.typ AuctionType.batch)) incorrect_auction_type _ s s' h in
      let (d, h2) = guard-inv (not (b.coin.denom == denom)) incorrect_coin_denom _ s s' h1 in
      let (allowed, el, h3) =
        found-inv (get_allowed_bidder b.auction_id b.bidder s) not_found _ s s' h2 in
      let (within, same) =
        return_if-inv (ltb allowed.max_bid_amount (convert_to_selling_amount a.paying_coin_denom b))
          over_max_bid_amount_limit s s' h3 in
      (
        type_eq_sound a.typ AuctionType.batch t,
        not-==_false b.coin.denom denom d,
        same,
        (allowed, el, ltb-false _ _ within),
      )

  validate_fixed_price_bid-typ :
      ⦃coins : Coins⦄
      → validate_fixed_price_bid a b s ≡ (ok tt, s')
      → a.typ ≡ AuctionType.fixed_price
  unfolding validate_fixed_price_bid ◌>>=◌
  validate_fixed_price_bid-typ h =
      let (t, _) =
        guard-inv (not (type_eq a.typ AuctionType.fixed_price)) incorrect_auction_type _ s s' h in
      type_eq_sound a.typ AuctionType.fixed_price t

module _ ⦃dec : Decimals⦄ ⦃acc : Accounts⦄ where
  -- The reserve of a stored auction covers its bids and one more.
  pub record Paid (a : Auction) (b : Bid) (s : State) : Type 0 where
    pub still_funded : IsFunded Everyone s
    pub stands : get_auction b.auction_id s ≡ some a
    pub fits : FitsAuction a b
    pub covers :
        is_open a.status ≡ true
        → let d = a.paying_coin_denom in
          bid_total b.auction_id d s + convert_to_paying_amount d b ≤ pool b.auction_id d s

  module _ ⦃env : Env⦄ (a : Auction) (b : Bid) (s : State) (f : IsFunded Everyone s)
      (stored : get_auction b.auction_id s ≡ some a) (fits : FitsAuction a b)
      (outside : IsOutside b.bidder) where
    reserve_paying_coin-Paid :
        (c : Coin) (t : State)
        → c ≡ new_coin a.paying_coin_denom (convert_to_paying_amount a.paying_coin_denom b)
        → reserve_paying_coin b.auction_id b.bidder c s ≡ (ok tt, t)
        → Paid a b t
    unfolding reserve_paying_coin
    reserve_paying_coin-Paid c t same h =
        let d = a.paying_coin_denom in
        let to = paying_reserve_address b.auction_id in
        let spares : Spares Everyone s t =
          subst (λ r. Spares Everyone s r.1) h
            (send_coins-Spares Everyone b.bidder to c (λ k _. outside k) s) in
        let moved = send_coins_lem b.bidder to c s t h to d in
        let less = (outside b.auction_id).0 in
        record {
          still_funded = Spares-IsFunded Everyone Everyone s t (λ k _. tt) spares f;
          stands = Spares-stored Everyone s t spares b.auction_id a stored;
          fits = fits;
          covers = λ o.
              let total = Spares-total Everyone s t spares b.auction_id d in
              let paid =
                subst
                  (λ x.
                    t.bank to d + amount_at to d ((b.bidder, x) ∷ [])
                    ≡ s.bank to d + amount_at to d ((to, x) ∷ []))
                  same moved in
              let amt = new_coin d (convert_to_paying_amount d b) in
              omega (
                arith,
                f.funded b.auction_id a tt stored o,
                amount_at_other to b.bidder d amt [] less,
                amount_at_self to amt,
              );
        }

  Paid-matched : (a : Auction) (b : Bid) (s : State) → Paid a b s → Paid a (set_matched true b) s
  unfolding set_matched convert_to_paying_amount
  Paid-matched a b s p = record {
    still_funded = p.still_funded;
    stands = p.stands;
    fits = p.fits;
    covers = p.covers;
  }

  pub coin_paid :
      (b : Bid) (d : Denom) → b.coin.denom ≡ d → b.coin ≡ new_coin d (convert_to_paying_amount d b)
  unfolding convert_to_paying_amount
  coin_paid b d e =
      let whole = convert_to_paying_amount d b in
      ap (λ x. new_coin x b.coin.amount) e ∙ ap (new_coin d) (ground arith)

  two_types : AuctionType.fixed_price ≡ AuctionType.batch → ⊥
  two_types e = cc

  -- A stored auction with another rest of coins.
  rest-Paid :
      (a : Auction) (kd : Kind) (b : Bid) (s : State)
      → a.id ≡ b.auction_id
      → Paid a b s
      → Paid (record a { kind = kd }) b (set_auction (record a { kind = kd }) s)
  unfolding set_auction
  rest-Paid a kd b s own p = record {
    still_funded =
        kept_open-IsFunded s a a.status a.end_times kd p.still_funded
          (subst (λ k. get_auction k s ≡ some a) (sym own) p.stands) (λ o. o);
    stands = get_auction-set_auction b.auction_id (record a { kind = kd }) s own;
    fits = p.fits;
    covers = p.covers;
  }

  module _ ⦃coins : Coins⦄ ⦃env : Env⦄ (a : Auction) (b : Bid) (s : State) (f : IsFunded Everyone s)
      (stored : get_auction b.auction_id s ≡ some a) (outside : IsOutside b.bidder) where
    abbrev pays : Coin
    pays = new_coin a.paying_coin_denom (convert_to_paying_amount a.paying_coin_denom b)

    abbrev gets : Coin
    gets = new_coin a.selling_coin.denom (convert_to_selling_amount a.paying_coin_denom b)

    -- The auction and the bid that the `switch` of `PlaceBid` leaves.
    abbrev pub Placed : Bid → State → Type 0
    Placed b' t = (a' : Auction) × Paid a' b' t × (b'.auction_id ≡ b.auction_id)

    pub place_by_type-Placed :
        (typ : BidType) (b' : Bid) (t : State)
        → b.typ ≡ typ
        → typ ≢ BidType.nil
        → place_by_type a b typ s ≡ (ok b', t)
        → Placed b' t
    unfolding place_by_type ◌>>=◌ set_matched validate_batch_worth_bid validate_batch_many_bid
    place_by_type-Placed BidType.nil b' t e n h = absurd (n refl)
    place_by_type-Placed BidType.fixed_price b' t e n h =
        let own = (f.well_made b.auction_id a stored).own_id in
        let (_, s1, valid, h1) = >>=-inv (validate_fixed_price_bid a b) _ s t h in
        let typ = validate_fixed_price_bid-typ a b s s1 valid in
        let (_, _, _, _, same) = validate_fixed_price_bid_lem a b s s1 valid in
        let (remaining, _, h2) = lift-inv (as_fixed_price a.kind) _ s1 t h1 in
        let (_, s2, sent, h3) =
          >>=-inv (reserve_paying_coin b.auction_id b.bidder pays) _ s1 t h2 in
        let (left, _, h4) = lift-inv (coins.sub_coin remaining gets) _ s2 t h3 in
        let paid =
          reserve_paying_coin-Paid a b s f stored (λ h'. absurd (two_types (sym typ ∙ h'))) outside
            pays s2 refl
            (subst (λ x. reserve_paying_coin b.auction_id b.bidder pays x ≡ (ok tt, s2)) same
              sent) in
        let a' = record a { kind = fixed_price_auction left } in
        let done = Paid-matched a' b _ (rest-Paid a (fixed_price_auction left) b s2 own paid) in
        subst (λ x. Placed x t) (ok-inj (ap (λ r. r.0) h4))
          (subst (Placed (set_matched true b)) (ap (λ r. r.1) h4) (a', done, refl))
    place_by_type-Placed BidType.batch_worth b' t e n h =
        let (_, s1, valid, h1) = >>=-inv (validate_batch_bid a.paying_coin_denom a b) _ s t h in
        let (typ, denom, same, _) = validate_batch_bid_lem a b s s1 a.paying_coin_denom valid in
        let (_, s2, sent, h2) =
          >>=-inv (reserve_paying_coin b.auction_id b.bidder b.coin) _ s1 t h1 in
        let paid =
          reserve_paying_coin-Paid a b s f stored (λ _. inl (e, denom)) outside b.coin s2
            (coin_paid b a.paying_coin_denom denom)
            (subst (λ x. reserve_paying_coin b.auction_id b.bidder b.coin x ≡ (ok tt, s2)) same
              sent) in
        subst (λ x. Placed x t) (ok-inj (ap (λ r. r.0) h2))
          (subst (Placed b) (ap (λ r. r.1) h2) (a, paid, refl))
    place_by_type-Placed BidType.batch_many b' t e n h =
        let (_, s1, valid, h1) = >>=-inv (validate_batch_bid a.selling_coin.denom a b) _ s t h in
        let (typ, denom, same, _) = validate_batch_bid_lem a b s s1 a.selling_coin.denom valid in
        let (_, s2, sent, h2) =
          >>=-inv (reserve_paying_coin b.auction_id b.bidder pays) _ s1 t h1 in
        let paid =
          reserve_paying_coin-Paid a b s f stored (λ _. inr (e, denom)) outside pays s2 refl
            (subst (λ x. reserve_paying_coin b.auction_id b.bidder pays x ≡ (ok tt, s2)) same
              sent) in
        subst (λ x. Placed x t) (ok-inj (ap (λ r. r.0) h2))
          (subst (Placed b) (ap (λ r. r.1) h2) (a, paid, refl))
