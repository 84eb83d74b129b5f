-- ===== src/Keeper/Messages/Growth.antt =====
-- How many ids of bids a block (x/fundraising/abci.go) and a message (x/fundraising/handler.go) give out.
use fundraising.Keeper.Action.{Action, continue_with, pure, ◌>>=◌}
use fundraising.Keeper.After.{after_found, after_guard}
use fundraising.Keeper.Auctions.Untouched.{
  add_allowed_bidders-KeepsBids, cancel_auction-KeepsBids, create_batch_auction-KeepsBids,
  create_fixed_price_auction-KeepsBids,
}
use fundraising.Keeper.Bids.{check_min_bid_price, new_bid, place_bid}
use fundraising.Keeper.Bids.Consistent.{KeepsBids, KeepsBids-IsFrame}
use fundraising.Keeper.Bids.Numbered.{last_id_kept}
use fundraising.Keeper.Bids.Steps.{check_min_bid_price-KeepsBids, pay_place_bid_fee-KeepsBids}
use fundraising.Keeper.Bids.Untouched.{steps, still}
use fundraising.Keeper.Env.{Env}
use fundraising.Keeper.Execution.{begin_blocker}
use fundraising.Keeper.Execution.Keeps.{begin_blocker-Relates}
use fundraising.Keeper.Fees.{pay_place_bid_fee}
use fundraising.Keeper.Frame.{QuietHooks, Relates}
use fundraising.Keeper.Messages.{
  Msg, add_allowed_bidder_msg, cancel_auction_msg, create_batch_auction_msg,
  create_fixed_price_auction_msg, handle, modify_bid_msg, place_bid_msg, server_add_allowed_bidder,
}
use fundraising.Keeper.Messages.LastIds.{
  SameLastIds, SameLastIds-KeptByBlock, modify_bid-SameLastIds, place_rest-SameLastIds,
}
use fundraising.Keeper.State.{State}
use fundraising.Keeper.Tables.{
  get_allowed_bidder, get_auction, get_last_bid_id, get_next_bid_id_with_update,
}
use fundraising.Prelude.{
  ==_iff, Bool, Bool-cases, [], ap, arith, false, if◌then◌else◌, inl, inr, not, true, ℕ, ◌%◌, ◌+◌,
  ◌==◌, ◌^◌, ◌∙◌, ◌∷◌, ◌≡◌, ◌≤◌,
}
use fundraising.Prelude.Store.{lookup_or, lookup_or-insert}
use fundraising.Sdk.{Time}
use fundraising.Sdk.Accounts.{Accounts}
use fundraising.Sdk.Coins.{Coins}
use fundraising.Sdk.Decimals.{Decimals}
use fundraising.Sdk.Outcome.{
  Result, err, invalid_auction_status, not_allowed_bidder, not_found, ok, panic,
}
use fundraising.Types.{AuctionStatus, MsgPlaceBid, status_eq}
use mathlib.Core.Path.{sym}

module _ ⦃dec : Decimals⦄ ⦃coins : Coins⦄ ⦃acc : Accounts⦄ ⦃env : Env⦄ (quiet : QuietHooks) where
  -- At most one id more is given out.
  abbrev pub GrowsByOne : State → State → Type 0
  GrowsByOne s t = (k : ℕ) → get_last_bid_id k t ≤ get_last_bid_id k s + 1

  KeepsBids-GrowsByOne : (s t : State) → KeepsBids s t → GrowsByOne s t
  KeepsBids-GrowsByOne s t h k = ground (arith, last_id_kept s t k h)

  SameLastIds-GrowsByOne : (s t : State) → SameLastIds s t → GrowsByOne s t
  unfolding get_last_bid_id
  SameLastIds-GrowsByOne s t h k = rw h (omega arith)

  last_id_numbered :
      (a : ℕ) (t u : State) (k : ℕ)
      → SameLastIds (get_next_bid_id_with_update a t).1 u
      → get_last_bid_id k u
        ≡ (if k == a then (get_last_bid_id a t + 1) % 2 ^ 64 else get_last_bid_id k t)
  unfolding get_next_bid_id_with_update get_last_bid_id
  last_id_numbered a t u k same =
      ap (lookup_or 0 k) same
      ∙ lookup_or-insert 0 k a ((lookup_or 0 a t.last_bid_ids + 1) % 2 ^ 64) t.last_bid_ids

  numbering-GrowsByOne :
      (a : ℕ) (s t u : State)
      → KeepsBids s t
      → SameLastIds (get_next_bid_id_with_update a t).1 u
      → GrowsByOne s u
  unfolding get_next_bid_id_with_update
  numbering-GrowsByOne a s t u kept same k =
      let e = last_id_numbered a t u k same in
      elim (Bool-cases (k == a)) [
        | inl f ↦
            let q : get_last_bid_id a t ≡ get_last_bid_id k s =
              last_id_kept s t a kept ∙ ap (λ i. get_last_bid_id i s) (sym ((==_iff k a).0 f)) in
            rw (e, f) (omega arith)
        | inr f ↦ let q = last_id_kept s t k kept in rw (e, f) (omega arith)
      ]

  after_kept :
      {A B : Type 0} (s t : State) (m : Action A) (f : A → Action B)
      → KeepsBids s t
      → Relates KeepsBids m
      → ((x : A) (u : State) → KeepsBids s u → GrowsByOne s (f x u).1)
      → GrowsByOne s (continue_with f (m t)).1
  after_kept {A} s t m f k h next = go (m t) (KeepsBids-IsFrame.then_also s t (m t).1 k (h t))
    where
      go : (r : Result A × State) → KeepsBids s r.1 → GrowsByOne s (continue_with f r).1
      go (ok x, u) g = next x u g
      go (err e, u) g = KeepsBids-GrowsByOne s u g
      go (panic, u) g = KeepsBids-GrowsByOne s u g

  place_bid-GrowsByOne : (msg : MsgPlaceBid) (s : State) → GrowsByOne s (place_bid msg s).1
  unfolding place_bid ◌>>=◌ get_next_bid_id_with_update
  place_bid-GrowsByOne msg s =
      let same = KeepsBids-IsFrame.same s in
      let start = KeepsBids-GrowsByOne s s same in
      after_found (GrowsByOne s) (get_auction msg.auction_id s) not_found _ s start (λ a _.
        after_guard (GrowsByOne s) (not (status_eq a.status AuctionStatus.started))
          invalid_auction_status _ s start
          (λ _.
            after_kept s s (check_min_bid_price a msg.price) _ same
              (check_min_bid_price-KeepsBids a msg.price)
              (λ _ t k1.
                after_found (GrowsByOne s) (get_allowed_bidder a.id msg.bidder t) not_allowed_bidder
                  _ t (KeepsBids-GrowsByOne s t k1)
                  (λ _ _.
                    after_kept s t (pay_place_bid_fee msg.bidder) _ k1
                      (pay_place_bid_fee-KeepsBids msg.bidder)
                      (λ _ u k2.
                        numbering-GrowsByOne a.id s u _ k2
                          (place_rest-SameLastIds quiet a (new_bid msg _) _))))))

  done-GrowsByOne :
      {A : Type 0} (m : Action A) (s : State)
      → GrowsByOne s (m s).1
      → GrowsByOne s ((m >>= λ _. pure tt) s).1
  unfolding ◌>>=◌
  done-GrowsByOne {A} m s h = go (m s) h
    where
      go :
          (r : Result A × State)
          → GrowsByOne s r.1
          → GrowsByOne s (continue_with (λ _. pure tt) r).1
      go (ok a, t) g = g
      go (err e, t) g = g
      go (panic, t) g = g

  pub handle-GrowsByOne :
      (enabled : Bool) (now : Time) (msg : Msg) (s : State)
      → GrowsByOne s (handle enabled now msg s).1
  unfolding handle server_add_allowed_bidder
  handle-GrowsByOne enabled now (create_fixed_price_auction_msg m) s =
      KeepsBids-GrowsByOne s _
        (steps _ _ (create_fixed_price_auction-KeepsBids quiet now m) (λ _. still) s)
  handle-GrowsByOne enabled now (create_batch_auction_msg m) s =
      KeepsBids-GrowsByOne s _
        (steps _ _ (create_batch_auction-KeepsBids quiet now m) (λ _. still) s)
  handle-GrowsByOne enabled now (cancel_auction_msg m) s =
      KeepsBids-GrowsByOne s _ (cancel_auction-KeepsBids quiet m s)
  handle-GrowsByOne enabled now (place_bid_msg m) s =
      done-GrowsByOne (place_bid m) s (place_bid-GrowsByOne m s)
  handle-GrowsByOne enabled now (modify_bid_msg m) s =
      SameLastIds-GrowsByOne s _ (modify_bid-SameLastIds quiet m s)
  handle-GrowsByOne true now (add_allowed_bidder_msg m) s =
      KeepsBids-GrowsByOne s _
        (add_allowed_bidders-KeepsBids quiet m.auction_id (m.allowed_bidder ∷ []) s)
  handle-GrowsByOne false now (add_allowed_bidder_msg m) s = KeepsBids-GrowsByOne s s (still s)

  pub begin_blocker-SameLastIds : (now : Time) → Relates SameLastIds (begin_blocker now)
  begin_blocker-SameLastIds = begin_blocker-Relates SameLastIds (SameLastIds-KeptByBlock quiet)
