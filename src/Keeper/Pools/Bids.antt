-- ===== src/Keeper/Pools/Bids.antt =====
-- The messages about bids (x/fundraising/keeper/bid.go) and the reserves.
use fundraising.Keeper.Action.{>>=-inv, ◌>>=◌}
use fundraising.Keeper.Bids.{check_min_bid_price, new_bid, place_bid, place_by_type}
use fundraising.Keeper.Bids.Consistent.{KeepsBids}
use fundraising.Keeper.Bids.Steps.{place_by_type-KeepsBids}
use fundraising.Keeper.Env.{Env, call_hooks}
use fundraising.Keeper.Fees.{pay_place_bid_fee}
use fundraising.Keeper.Frame.{>>=-Relates, IsFrame, QuietHooks, Relates, if-Relates}
use fundraising.Keeper.Inversion.{found-inv, guard-inv}
use fundraising.Keeper.Pools.{
  Everyone, IsFunded, Spares, Spares-IsFrame, Spares-IsFunded, Spares-stored,
}
use fundraising.Keeper.Pools.Placing.{IsOutside, Paid, place_by_type-Placed}
use fundraising.Keeper.Pools.Stored.{set_bid-IsFunded}
use fundraising.Keeper.Pools.Transfers.{fund_community_pool-Spares, get_next_bid_id-Spares}
use fundraising.Keeper.State.{HookCall, State}
use fundraising.Keeper.Tables.{
  get_allowed_bidder, get_auction, get_last_bid_id, get_next_bid_id_with_update, set_bid,
}
use fundraising.Prelude.{[], ap, arith, not, refl, subst, ℕ, ◌%◌, ◌+◌, ◌^◌, ◌∙◌, ◌≡◌, ◌≢◌}
use fundraising.Prelude.Store.{IsOrdered, insert, lookup_or}
use fundraising.Sdk.{Address}
use fundraising.Sdk.Accounts.{Accounts}
use fundraising.Sdk.Coins.{Coins}
use fundraising.Sdk.Decimals.{Decimal, Decimals}
use fundraising.Sdk.Outcome.{invalid_auction_status, not_allowed_bidder, not_found, ok}
use fundraising.Types.{Auction, AuctionStatus, Bid, BidType, MsgPlaceBid, status_eq}
use mathlib.Core.Path.{sym}

module _ ⦃dec : Decimals⦄ ⦃coins : Coins⦄ ⦃acc : Accounts⦄ ⦃env : Env⦄ where
  Everyone-IsFrame : IsFrame (Spares Everyone)
  Everyone-IsFrame = Spares-IsFrame Everyone

  check_min_bid_price-Spares :
      (a : Auction) (p : Decimal) → Relates (Spares Everyone) (check_min_bid_price a p)
  unfolding check_min_bid_price
  check_min_bid_price-Spares a p =
      if-Relates (Spares Everyone) Everyone-IsFrame _ _ _
        (>>=-Relates (Spares Everyone) Everyone-IsFrame _ _ (λ s. Everyone-IsFrame.same s)
          (λ f s. Everyone-IsFrame.same s))
        (λ s. Everyone-IsFrame.same s)

  pay_place_bid_fee-Spares :
      (x : Address) → IsOutside x → Relates (Spares Everyone) (pay_place_bid_fee x)
  unfolding pay_place_bid_fee
  pay_place_bid_fee-Spares x outside =
      >>=-Relates (Spares Everyone) Everyone-IsFrame _ _ (λ s. Everyone-IsFrame.same s)
        (λ p. fund_community_pool-Spares Everyone p.place_bid_fee x (λ k _. outside k))

  module _ (quiet : QuietHooks) where
    -- The hook and the bid that is stored at last.
    store-Paid :
        (a : Auction) (b : Bid) (c : HookCall) (t : State)
        → Paid a b t
        → IsOrdered (lookup_or [] b.auction_id t.bids)
        → IsFunded Everyone (set_bid b (call_hooks c t))
    store-Paid a b c t p o =
        subst (λ u. IsFunded Everyone (set_bid b u)) (sym (quiet c t))
          (set_bid-IsFunded b t Everyone a p.still_funded o p.stands p.fits
            (λ _ op. omega (arith, p.covers op)))

    pub place_bid-IsFunded :
        (msg : MsgPlaceBid) (s s' : State) (b' : Bid)
        → IsFunded Everyone s
        → ((k : ℕ) → IsOrdered (lookup_or [] k s.bids))
        → IsOutside msg.bidder
        → msg.bid_type ≢ BidType.nil
        → place_bid msg s ≡ (ok b', s')
        → IsFunded Everyone s'
    unfolding place_bid ◌>>=◌ get_next_bid_id_with_update
    place_bid-IsFunded msg s s' b' f ordered outside typed h =
        let (a, e, h1) = found-inv (get_auction msg.auction_id s) not_found _ s s' h in
        let (_, h2) =
          guard-inv (not (status_eq a.status AuctionStatus.started)) invalid_auction_status _ s s'
            h1 in
        let (_, t1, c1, h3) = >>=-inv (check_min_bid_price a msg.price) _ s s' h2 in
        let (_, _, h4) =
          found-inv (get_allowed_bidder a.id msg.bidder t1) not_allowed_bidder _ t1 s' h3 in
        let (_, t2, c2, h5) = >>=-inv (pay_place_bid_fee msg.bidder) _ t1 s' h4 in
        let id = (get_last_bid_id a.id t2 + 1) % 2 ^ 64 in
        let u = record t2 { last_bid_ids = insert a.id id t2.last_bid_ids } in
        let b = new_bid msg id in
        let (b1, t3, c3, h6) = >>=-inv (place_by_type a b b.typ) _ u s' h5 in
        let k1 : Spares Everyone s t1 =
          subst (λ r. Spares Everyone s r.1) c1 (check_min_bid_price-Spares a msg.price s) in
        let k2 : Spares Everyone t1 t2 =
          subst (λ r. Spares Everyone t1 r.1) c2 (pay_place_bid_fee-Spares msg.bidder outside t1) in
        let k3 : Spares Everyone t2 u = get_next_bid_id-Spares Everyone a.id t2 in
        let k = Everyone-IsFrame.then_also s t2 u (Everyone-IsFrame.then_also s t1 t2 k1 k2) k3 in
        let fu = Spares-IsFunded Everyone Everyone s u (λ j _. tt) k f in
        let stands = Spares-stored Everyone s u k msg.auction_id a e in
        let (a', paid, same_id) =
          place_by_type-Placed a b u fu stands outside b.typ b1 t3 refl typed c3 in
        let kept = subst (λ r. KeepsBids u r.1) c3 (place_by_type-KeepsBids a b b.typ u) in
        let same : t3.bids ≡ s.bids = kept.same_bids ∙ k.same_bids in
        let o : IsOrdered (lookup_or [] b1.auction_id t3.bids) =
          subst (λ m. IsOrdered (lookup_or [] b1.auction_id m)) (sym same)
            (ordered b1.auction_id) in
        subst (IsFunded Everyone) (ap (λ r. r.1) h6) (store-Paid a' b1 _ t3 paid o)
