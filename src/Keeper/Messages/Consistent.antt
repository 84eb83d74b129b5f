-- ===== src/Keeper/Messages/Consistent.antt =====
-- The messages (x/fundraising/handler.go) and the tables of bids (x/fundraising/keeper/store.go).
use fundraising.Keeper.Action.{Action, continue_with, modify, pure, ◌>>=◌, ◌>>◌}
use fundraising.Keeper.After.{after_found, after_guard, after_lift}
use fundraising.Keeper.Auctions.{create_batch_auction, create_fixed_price_auction}
use fundraising.Keeper.Auctions.Untouched.{
  add_allowed_bidders-KeepsBids, cancel_auction-KeepsBids, create_batch_auction-KeepsBids,
  create_fixed_price_auction-KeepsBids,
}
use fundraising.Keeper.Bids.{as_batch, check_min_bid_price, new_bid, place_bid, place_by_type}
use fundraising.Keeper.Bids.Consistent.{
  IsConsistent, KeepsBids-IsConsistent, KeepsBids-IsFrame, get_bid_own,
}
use fundraising.Keeper.Bids.Modify.{modify_bid, raise_bid, reserve_difference}
use fundraising.Keeper.Bids.Numbered.{
  after_keeps, given_out, is_new, last_id_kept, numbered-IsConsistent, same_bidder, store_after,
}
use fundraising.Keeper.Bids.Steps.{
  check_min_bid_price-KeepsBids, pay_place_bid_fee-KeepsBids, place_by_type-IsSameBid,
  place_by_type-KeepsBids, reserve_difference-KeepsBids,
}
use fundraising.Keeper.Bids.Untouched.{call_hooks-KeepsBids}
use fundraising.Keeper.Env.{Env, call_hooks}
use fundraising.Keeper.Fees.{pay_place_bid_fee}
use fundraising.Keeper.Frame.{QuietHooks}
use fundraising.Keeper.Messages.{
  Msg, add_allowed_bidder_msg, cancel_auction_msg, create_batch_auction_msg,
  create_fixed_price_auction_msg, handle, modify_bid_msg, place_bid_msg, server_add_allowed_bidder,
}
use fundraising.Keeper.State.{State, before_bid_placed}
use fundraising.Keeper.Tables.{
  get_allowed_bidder, get_auction, get_bid, get_last_bid_id, get_next_bid_id_with_update, set_bid,
}
use fundraising.Prelude.{
  Bool, [], false, ltb, not, true, ℕ, ◌%◌, ◌&&◌, ◌+◌, ◌<◌, ◌==◌, ◌^◌, ◌||◌, ◌∙◌, ◌∷◌, ◌≡◌,
}
use fundraising.Prelude.Store.{insert}
use fundraising.Sdk.{Time}
use fundraising.Sdk.Accounts.{Accounts}
use fundraising.Sdk.Coins.{Coins}
use fundraising.Sdk.Decimals.{Decimals}
use fundraising.Sdk.Outcome.{
  Result, err, incorrect_auction_type, incorrect_coin_denom, insufficient_min_bid_price,
  invalid_auction_status, invalid_request, not_allowed_bidder, not_found, ok, panic, unauthorized,
}
use fundraising.Types.{
  Auction, AuctionStatus, AuctionType, Bid, MsgModifyBid, MsgPlaceBid, status_eq, type_eq,
}
use mathlib.Core.Path.{sym}

module _ ⦃dec : Decimals⦄ ⦃coins : Coins⦄ ⦃acc : Accounts⦄ ⦃env : Env⦄ (quiet : QuietHooks) where
  abbrev finish_bid : Bid → Action Bid
  finish_bid b = do
    modify (call_hooks (before_bid_placed b.auction_id b.id b.bidder b.typ b.price b.coin))
    modify (set_bid b)
    pure b

  place_numbered-IsConsistent :
      (msg : MsgPlaceBid) (a : Auction) (s : State)
      → IsConsistent s
      → a.id ≡ msg.auction_id
      → get_last_bid_id a.id s + 1 < 2 ^ 64
      → IsConsistent
          (continue_with
            (λ id. let b = new_bid msg id in place_by_type a b b.typ >>= finish_bid)
            (get_next_bid_id_with_update a.id s)).1
  unfolding get_next_bid_id_with_update ◌>>=◌
  place_numbered-IsConsistent msg a s c same room =
      let k = msg.auction_id in
      let id = (get_last_bid_id a.id s + 1) % 2 ^ 64 in
      let b = new_bid msg id in
      let u = record s { last_bid_ids = insert a.id id s.last_bid_ids } in
      let cu : IsConsistent u = numbered-IsConsistent a.id s c room in
      after_keeps u u (place_by_type a b b.typ) _ cu (KeepsBids-IsFrame.same u)
        (place_by_type-KeepsBids a b b.typ)
        (λ b' t e keep.
          let (p, q, r) = place_by_type-IsSameBid a b b.typ u t b' e in
          let hook = call_hooks-KeepsBids quiet _ t in
          store_after b' u _ cu (KeepsBids-IsFrame.then_also u t _ keep hook)
            (given_out a.id s c room b' (p ∙ sym same) q)
            (λ old h. absurd (is_new a.id s c room b' (p ∙ sym same) q old h)))

  place_bid-IsConsistent :
      (msg : MsgPlaceBid) (s : State)
      → IsConsistent s
      → get_last_bid_id msg.auction_id s + 1 < 2 ^ 64
      → IsConsistent (place_bid msg s).1
  unfolding place_bid ◌>>=◌
  place_bid-IsConsistent msg s c room =
      after_found IsConsistent (get_auction msg.auction_id s) not_found _ s c (λ a e.
        let same : a.id ≡ msg.auction_id = c.auctions_keyed msg.auction_id a e in
        after_guard IsConsistent (not (status_eq a.status AuctionStatus.started))
          invalid_auction_status _ s c
          (λ _.
            after_keeps s s (check_min_bid_price a msg.price) _ c (KeepsBids-IsFrame.same s)
              (check_min_bid_price-KeepsBids a msg.price)
              (λ _ t _ k1.
                let ct = KeepsBids-IsConsistent s t k1 c in
                after_found IsConsistent (get_allowed_bidder a.id msg.bidder t) not_allowed_bidder _
                  t ct
                  (λ _ _.
                    after_keeps s t (pay_place_bid_fee msg.bidder) _ c k1
                      (pay_place_bid_fee-KeepsBids msg.bidder)
                      (λ _ u _ k2.
                        place_numbered-IsConsistent msg a u (KeepsBids-IsConsistent s u k2 c) same
                          (rw (last_id_kept s u a.id k2, same) room))))))

  modify_bid-IsConsistent :
      (msg : MsgModifyBid) (s : State) → IsConsistent s → IsConsistent (modify_bid msg s).1
  unfolding modify_bid ◌>>=◌
  modify_bid-IsConsistent msg s c =
      after_found {B = Unit {0}} IsConsistent (get_auction msg.auction_id s) not_found _ s c (λ a e.
        after_guard {B = Unit {0}} IsConsistent (not (status_eq a.status AuctionStatus.started))
          invalid_auction_status _ s c
          (λ _.
            after_guard {B = Unit {0}} IsConsistent (not (type_eq a.typ AuctionType.batch))
              incorrect_auction_type _ s c
              (λ _.
                after_found {B = Unit {0}} IsConsistent (get_bid msg.auction_id msg.bid_id s)
                  not_found _ s c
                  (λ b placed.
                    after_guard {B = Unit {0}} IsConsistent (not (b.bidder == msg.bidder))
                      unauthorized _ s c
                      (λ _. after_lift {B = Unit {0}} IsConsistent (as_batch a.kind) _ s c (λ f _.
                        after_guard {B = Unit {0}} IsConsistent (ltb msg.price f.min_bid_price)
                          insufficient_min_bid_price _ s c
                          (λ _.
                            after_guard {B = Unit {0}} IsConsistent
                              (not (b.coin.denom == msg.coin.denom)) incorrect_coin_denom _ s c
                              (λ _.
                                after_guard {B = Unit {0}} IsConsistent
                                  (ltb msg.price b.price || ltb msg.coin.amount b.coin.amount)
                                  invalid_request _ s c
                                  (λ _.
                                    after_guard {B = Unit {0}} IsConsistent
                                      (msg.price == b.price && msg.coin.amount == b.coin.amount)
                                      invalid_request _ s c
                                      (λ _.
                                        after_keeps s s (reserve_difference a b msg b.typ) _ c
                                          (KeepsBids-IsFrame.same s)
                                          (reserve_difference-KeepsBids a b msg b.typ)
                                          (λ _ t _ keep.
                                            let (p, q, le) =
                                              c.bids_keyed msg.auction_id msg.bid_id b placed in
                                            let hook = call_hooks-KeepsBids quiet _ t in
                                            store_after (raise_bid b msg) s _ c
                                              (KeepsBids-IsFrame.then_also s t _ keep hook)
                                              (rw (p, q) le)
                                              (λ old h. same_bidder _ old b h (
                                                get_bid_own msg.auction_id msg.bid_id b s c
                                                  placed)))))))))))))

  done-IsConsistent :
      {A : Type 0} (m : Action A) (s : State)
      → IsConsistent (m s).1
      → IsConsistent ((m >>= λ _. pure tt) s).1
  unfolding ◌>>=◌
  done-IsConsistent {A} m s h = go (m s) h
    where
      go :
          (r : Result A × State)
          → IsConsistent r.1
          → IsConsistent (continue_with (λ _. pure tt) r).1
      go (ok a, t) g = g
      go (err e, t) g = g
      go (panic, t) g = g

  -- Where the hooks of other modules leave the state alone and no auction has given out all of its ids,
  -- a message leaves consistent tables of bids consistent, whether it succeeds or fails: every auction
  -- and bid stands under its own ids, bids in order under ids that were given out, and the index by
  -- bidder has exactly the bids of each bidder.
  pub handle-IsConsistent :
      (enabled : Bool) (now : Time) (msg : Msg) (s : State)
      → IsConsistent s
      → ((k : ℕ) → get_last_bid_id k s + 1 < 2 ^ 64)
      → IsConsistent (handle enabled now msg s).1
  unfolding handle server_add_allowed_bidder
  handle-IsConsistent enabled now (create_fixed_price_auction_msg m) s c room =
      done-IsConsistent (create_fixed_price_auction now m) s
        (KeepsBids-IsConsistent s _ (create_fixed_price_auction-KeepsBids quiet now m s) c)
  handle-IsConsistent enabled now (create_batch_auction_msg m) s c room =
      done-IsConsistent (create_batch_auction now m) s
        (KeepsBids-IsConsistent s _ (create_batch_auction-KeepsBids quiet now m s) c)
  handle-IsConsistent enabled now (cancel_auction_msg m) s c room =
      KeepsBids-IsConsistent s _ (cancel_auction-KeepsBids quiet m s) c
  handle-IsConsistent enabled now (place_bid_msg m) s c room =
      done-IsConsistent (place_bid m) s (place_bid-IsConsistent m s c (room m.auction_id))
  handle-IsConsistent enabled now (modify_bid_msg m) s c room = modify_bid-IsConsistent m s c
  handle-IsConsistent true now (add_allowed_bidder_msg m) s c room =
      KeepsBids-IsConsistent s _
        (add_allowed_bidders-KeepsBids quiet m.auction_id (m.allowed_bidder ∷ []) s) c
  handle-IsConsistent false now (add_allowed_bidder_msg m) s c room = c
