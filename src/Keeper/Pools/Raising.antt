-- ===== src/Keeper/Pools/Raising.antt =====
-- Modifying a bid (x/fundraising/keeper/bid.go) and the paying reserve of its auction.
use fundraising.Keeper.Action.{>>=-inv, ◌>>=◌}
use fundraising.Keeper.Bids.{as_batch}
use fundraising.Keeper.Bids.Consistent.{IsConsistent, get_bid_own}
use fundraising.Keeper.Bids.Difference.{reserve_difference_many, reserve_difference_worth}
use fundraising.Keeper.Bids.Modify.{modify_bid, raise_bid, reserve_difference}
use fundraising.Keeper.Env.{Env, amount_at}
use fundraising.Keeper.Fees.{reserve_paying_coin}
use fundraising.Keeper.Frame.{>>=-Relates, IsFrame, QuietHooks, Relates, if-Relates}
use fundraising.Keeper.Inversion.{Moves, found-inv, guard-inv, lift-inv, not-==_false}
use fundraising.Keeper.Pools.{
  Everyone, FitsAuction, IsFunded, Spares, Spares-IsFrame, Spares-IsFunded, Spares-stored,
  Spares-total,
}
use fundraising.Keeper.Pools.Placing.{IsOutside, type_eq_sound}
use fundraising.Keeper.Pools.Stored.{paid_by, set_bid-IsFunded}
use fundraising.Keeper.Pools.Transfers.{amount_at_other, amount_at_self, send_coins-Spares}
use fundraising.Keeper.State.{State}
use fundraising.Keeper.Tables.{get_auction, get_bid, set_bid}
use fundraising.Prelude.{
  [], ap, arith, inl, inr, ltb, not, some, subst, ◌&&◌, ◌+◌, ◌==◌, ◌||◌, ◌∙◌, ◌∷◌, ◌≡◌, ◌≢◌,
}
use fundraising.Prelude.Store.{IsOrdered, lookup, lookup_or}
use fundraising.Sdk.{Amount, new_coin}
use fundraising.Sdk.Accounts.{Accounts}
use fundraising.Sdk.Coins.{Coins}
use fundraising.Sdk.Decimals.{Decimals}
use fundraising.Sdk.Outcome.{
  incorrect_auction_type, incorrect_coin_denom, insufficient_min_bid_price, invalid_auction_status,
  invalid_request, not_found, ok, unauthorized,
}
use fundraising.Types.{
  Auction, AuctionStatus, AuctionType, Bid, BidType, MsgModifyBid, status_eq, type_eq,
}
use fundraising.Types.Auctions.{paying_reserve_address}
use fundraising.Types.Bids.{convert_to_paying_amount}
use mathlib.Core.Path.{sym}

module _ ⦃dec : Decimals⦄ ⦃coins : Coins⦄ ⦃acc : Accounts⦄ ⦃env : Env⦄ where
  reserve_difference-Spares :
      (a : Auction) (b : Bid) (msg : MsgModifyBid) (typ : BidType)
      → IsOutside msg.bidder
      → Relates (Spares Everyone) (reserve_difference a b msg typ)
  unfolding reserve_difference reserve_paying_coin
  reserve_difference-Spares a b msg typ outside = go typ
    where
      fr : IsFrame (Spares Everyone)
      fr = Spares-IsFrame Everyone

      go : (x : BidType) → Relates (Spares Everyone) (reserve_difference a b msg x)
      go BidType.nil = λ s. fr.same s
      go BidType.fixed_price = λ s. fr.same s
      go BidType.batch_worth =
          >>=-Relates (Spares Everyone) fr _ _ (λ s. fr.same s)
            (λ diff.
              if-Relates (Spares Everyone) fr _ _ _
                (send_coins-Spares Everyone _ _ _ (λ k _. outside k)) (λ s. fr.same s))
      go BidType.batch_many =
          >>=-Relates (Spares Everyone) fr _ _
            (if-Relates (Spares Everyone) fr _ _ _ (λ s. fr.same s) (λ s. fr.same s))
            (λ _.
              if-Relates (Spares Everyone) fr _ _ _
                (send_coins-Spares Everyone _ _ _ (λ k _. outside k)) (λ s. fr.same s))

  module _ (a : Auction) (b : Bid) (msg : MsgModifyBid) (s t : State) where
    -- What the bid pays more is in the reserve.
    abbrev Raised : Type 0
    Raised =
        (diff : Amount) × (diff + convert_to_paying_amount a.paying_coin_denom b
          ≡ convert_to_paying_amount a.paying_coin_denom (raise_bid b msg))
        × Moves msg.bidder (paying_reserve_address msg.auction_id)
            (new_coin a.paying_coin_denom diff) s t

    reserve_difference-Raised :
        FitsAuction a b
        → a.typ ≡ AuctionType.batch
        → a.selling_coin.denom ≢ a.paying_coin_denom
        → b.coin.denom ≡ msg.coin.denom
        → reserve_difference a b msg b.typ s ≡ (ok tt, t)
        → Raised
    reserve_difference-Raised fits batch two same h = elim (fits batch) [
      | inl (e, d) ↦
          reserve_difference_worth a b msg s t
            (subst (λ x. reserve_difference a b msg x s ≡ (ok tt, t)) e h) d
      | inr (e, d) ↦
          reserve_difference_many a b msg s t
            (subst (λ x. reserve_difference a b msg x s ≡ (ok tt, t)) e h) (λ p. two (sym d ∙ p))
            same
    ]

    -- The bid that is raised fits its auction as the old one.
    raise_bid-FitsAuction :
        FitsAuction a b → b.coin.denom ≡ msg.coin.denom → FitsAuction a (raise_bid b msg)
    raise_bid-FitsAuction fits same batch = elim (fits batch) [
      | inl (e, d) ↦ inl (e, sym same ∙ d)
      | inr (e, d) ↦ inr (e, sym same ∙ d)
    ]

    raised-IsFunded :
        IsFunded Everyone s
        → IsOrdered (lookup_or [] b.auction_id s.bids)
        → b.auction_id ≡ msg.auction_id
        → get_auction b.auction_id s ≡ some a
        → get_bid b.auction_id b.id s ≡ some b
        → FitsAuction a (raise_bid b msg)
        → IsOutside msg.bidder
        → Spares Everyone s t
        → Raised
        → IsFunded Everyone (set_bid (raise_bid b msg) t)
    unfolding get_bid
    raised-IsFunded f o own stored placed fits outside spares (diff, sum, moves) =
        let d = a.paying_coin_denom in
        let to = paying_reserve_address b.auction_id in
        let c = new_coin d diff in
        let moved : t.bank to d + amount_at to d ((msg.bidder, c) ∷ [])
            ≡ s.bank to d + amount_at to d ((to, c) ∷ []) =
          subst
            (λ k.
              t.bank (paying_reserve_address k) d
                + amount_at (paying_reserve_address k) d ((msg.bidder, c) ∷ [])
              ≡ s.bank (paying_reserve_address k) d
                + amount_at (paying_reserve_address k) d ((paying_reserve_address k, c) ∷ []))
            (sym own) (moves (paying_reserve_address msg.auction_id) d) in
        let total = Spares-total Everyone s t spares b.auction_id d in
        let still : get_bid b.auction_id b.id t ≡ some b =
          ap (λ m. lookup b.id (lookup_or [] b.auction_id m)) spares.same_bids ∙ placed in
        set_bid-IsFunded (raise_bid b msg) t Everyone a
          (Spares-IsFunded Everyone Everyone s t (λ k _. tt) spares f)
          (subst (λ m. IsOrdered (lookup_or [] b.auction_id m)) (sym spares.same_bids) o)
          (Spares-stored Everyone s t spares b.auction_id a stored) fits
          (λ _ op.
            let paid = ap (paid_by d) still in
            omega (
              arith,
              f.funded b.auction_id a tt stored op,
              amount_at_other to msg.bidder d c [] ((outside b.auction_id).0),
              amount_at_self to c,
            ))

  pub modify_bid-IsFunded :
      QuietHooks
      → (msg : MsgModifyBid) (s s' : State) → IsConsistent s
      → IsFunded Everyone s
      → IsOutside msg.bidder
      → modify_bid msg s ≡ (ok tt, s')
      → IsFunded Everyone s'
  unfolding modify_bid ◌>>=◌
  modify_bid-IsFunded quiet msg s s' c f outside h =
      let (a, e, h1) = found-inv (get_auction msg.auction_id s) not_found _ s s' h in
      let (_, h2) =
        guard-inv (not (status_eq a.status AuctionStatus.started)) invalid_auction_status _ s s'
          h1 in
      let (typ, h3) =
        guard-inv (not (type_eq a.typ AuctionType.batch)) incorrect_auction_type _ s s' h2 in
      let (b, placed, h4) = found-inv (get_bid msg.auction_id msg.bid_id s) not_found _ s s' h3 in
      let (_, h5) = guard-inv (not (b.bidder == msg.bidder)) unauthorized _ s s' h4 in
      let (fields, _, h6) = lift-inv (as_batch a.kind) _ s s' h5 in
      let (_, h7) =
        guard-inv (ltb msg.price fields.min_bid_price) insufficient_min_bid_price _ s s' h6 in
      let (d, h8) =
        guard-inv (not (b.coin.denom == msg.coin.denom)) incorrect_coin_denom _ s s' h7 in
      let (_, h9) =
        guard-inv (ltb msg.price b.price || ltb msg.coin.amount b.coin.amount) invalid_request _ s
          s' h8 in
      let (_, h10) =
        guard-inv (msg.price == b.price && msg.coin.amount == b.coin.amount) invalid_request _ s s'
          h9 in
      let (_, t, r, h11) = >>=-inv (reserve_difference a b msg b.typ) _ s s' h10 in
      let (own, _, _) = c.bids_keyed msg.auction_id msg.bid_id b placed in
      let fits = f.bids_fit msg.auction_id msg.bid_id a b e placed in
      let same = not-==_false b.coin.denom msg.coin.denom d in
      let batch = type_eq_sound a.typ AuctionType.batch typ in
      let spares : Spares Everyone s t =
        subst (λ x. Spares Everyone s x.1) r (reserve_difference-Spares a b msg b.typ outside s) in
      let raised =
        reserve_difference-Raised a b msg s t fits batch
          ((f.well_made msg.auction_id a e).two_coins) same r in
      let done =
        raised-IsFunded a b msg s t f (c.bids_ordered b.auction_id) own
          (subst (λ k. get_auction k s ≡ some a) (sym own) e)
          (get_bid_own msg.auction_id msg.bid_id b s c placed)
          (raise_bid-FitsAuction a b msg s t fits same) outside spares raised in
      subst (IsFunded Everyone) (ap (λ x. x.1) h11)
        (subst (λ u. IsFunded Everyone (set_bid (raise_bid b msg) u)) (sym (quiet _ t)) done)
