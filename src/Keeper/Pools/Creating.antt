-- ===== src/Keeper/Pools/Creating.antt =====
-- The messages about auctions (x/fundraising/keeper/auction.go) and the reserves.
use fundraising.Keeper.Action.{>>=-inv, Action, ◌>>=◌}
use fundraising.Keeper.Auctions.{
  add_allowed_bidders, cancel_auction, cancelled_auction, create_batch_auction,
  create_fixed_price_auction, max_extended_round, max_num_vesting_schedules, start_if_due,
  store_allowed_bidders,
}
use fundraising.Keeper.Bids.{as_fixed_price}
use fundraising.Keeper.Env.{Env, call_hooks}
use fundraising.Keeper.Fees.{pay_creation_fee, reserve_selling_coin, send_coins}
use fundraising.Keeper.Frame.{>>=-Relates, QuietHooks, Relates, found_or-Relates}
use fundraising.Keeper.Invariants.{total_bids}
use fundraising.Keeper.Inversion.{found-inv, guard-inv, lift-inv, send_coins_lem}
use fundraising.Keeper.Pools.{
  Everyone, IsApart, IsFunded, IsWellMade, Others, Spares, Spares-IsFrame, Spares-IsFunded,
  Spares-stored, stock,
}
use fundraising.Keeper.Pools.Auctions.{renewed, renewed-IsFunded, set_auction-IsFunded}
use fundraising.Keeper.Pools.Placing.{IsOutside}
use fundraising.Keeper.Pools.Stored.{none_value}
use fundraising.Keeper.Pools.Transfers.{
  amount_at_other, amount_at_self, call_hooks-Spares, fund_community_pool-Spares,
  paying-not_selling, selling-injective, send_coins-Spares, set_allowed_bidder-Spares,
}
use fundraising.Keeper.State.{HookCall, State, before_auction_canceled}
use fundraising.Keeper.Tables.{get_auction, get_bid, get_next_auction_id_with_update, set_auction}
use fundraising.Prelude.{
  Bool, List, Option, [], ap, arith, false, if◌then◌else◌, length, ltb, none, not, refl, some,
  subst, true, ℕ, ◌%◌, ◌+◌, ◌<◌, ◌==◌, ◌^◌, ◌∙◌, ◌∷◌, ◌≡◌, ◌≢◌, ◌≤◌,
}
use fundraising.Prelude.Store.{lookup}
use fundraising.Sdk.{Address, Coin, Time, new_coin}
use fundraising.Sdk.Accounts.{Accounts}
use fundraising.Sdk.Coins.{ok-inj}
use fundraising.Sdk.Decimals.{Decimals}
use fundraising.Sdk.Outcome.{
  Result, err, invalid_auction_status, invalid_request, not_found, ok, panic, unauthorized,
}
use fundraising.Types.{
  AllowedBidder, Auction, AuctionStatus, AuctionType, BaseAuction, Kind, MsgCancelAuction,
  MsgCreateBatchAuction, MsgCreateFixedPriceAuction, fixed_price_auction, status_eq, type_eq,
}
use fundraising.Types.Auctions.{
  new_base_auction, new_batch_auction, new_fixed_price_auction, paying_reserve_address,
  selling_reserve_address, set_status,
}
use mathlib.Core.Path.{sym}

module _ ⦃dec : Decimals⦄ ⦃acc : Accounts⦄ where
  -- The next id is given out to no auction yet.
  numbering-IsFunded :
      (s : State)
      → s.last_auction_id + 1 < 2 ^ 64
      → IsFunded Everyone s
      → IsFunded Everyone (record s { last_auction_id = (s.last_auction_id + 1) % 2 ^ 64 })
  unfolding get_auction get_bid
  numbering-IsFunded s room f = record {
    auctions_ordered = f.auctions_ordered;
    well_made = f.well_made;
    numbered = λ k a e. omega (arith, f.numbered k a e);
    bids_fit = f.bids_fit;
    no_bids = f.no_bids;
    funded = f.funded;
    stocked = f.stocked;
  }

  next_free :
      (s : State)
      → s.last_auction_id + 1 < 2 ^ 64
      → IsFunded Everyone s
      → get_auction ((s.last_auction_id + 1) % 2 ^ 64) s ≡ none
  next_free s room f = go (get_auction id s) refl
    where
      id : ℕ
      id = (s.last_auction_id + 1) % 2 ^ 64

      go : (o : Option Auction) → get_auction id s ≡ o → o ≡ none
      go none e = refl
      go (some a) e = absurd (omega (arith, f.numbered id a e))

  new_auction-IsFunded :
      (a : Auction) (s : State)
      → IsFunded Everyone s
      → get_auction a.id s ≡ none
      → IsWellMade a.id a
      → a.id ≤ s.last_auction_id
      → a.selling_coin.amount ≤ stock a.id a.selling_coin.denom s
      → IsFunded Everyone (set_auction a s)
  unfolding get_bid lookup total_bids paying_reserve_address
  new_auction-IsFunded a s f free made le has =
      let empty = f.no_bids a.id free in
      set_auction-IsFunded s a
        (Spares-IsFunded Everyone (Others a.id) s s (λ k n. tt)
          ((Spares-IsFrame (Others a.id)).same s) f)
        made le (λ i b e. absurd (none_value refl (sym (ap (lookup i) empty) ∙ e)))
        (λ _. rw empty (omega arith)) (λ _. has)

  module _ ⦃env : Env⦄ (quiet : QuietHooks) where
    link :
        {A B : Type 0} (m : Action A) (g : A → Action B)
        → Relates (Spares Everyone) m
        → ((x : A) → Relates (Spares Everyone) (g x))
        → Relates (Spares Everyone) (m >>= g)
    link = >>=-Relates (Spares Everyone) (Spares-IsFrame Everyone)

    hook-IsFunded :
        (c : HookCall) (s : State) → IsFunded Everyone s → IsFunded Everyone (call_hooks c s)
    hook-IsFunded c s f = subst (IsFunded Everyone) (sym (quiet c s)) f

    pay_creation_fee-Spares :
        (x : Address) → IsOutside x → Relates (Spares Everyone) (pay_creation_fee x)
    unfolding pay_creation_fee
    pay_creation_fee-Spares x outside =
        >>=-Relates (Spares Everyone) (Spares-IsFrame Everyone) _ _
          (λ s. (Spares-IsFrame Everyone).same s)
          (λ p. fund_community_pool-Spares Everyone p.auction_creation_fee x (λ k _. outside k))

    reserved_stock :
        (id : ℕ) (x : Address) (coin : Coin) (t1 t2 : State)
        → IsApart id x
        → reserve_selling_coin id x coin t1 ≡ (ok tt, t2)
        → coin.amount ≤ stock id coin.denom t2
    unfolding reserve_selling_coin
    reserved_stock id x coin t1 t2 apart h =
        let to = selling_reserve_address id in
        omega (
          arith,
          send_coins_lem x to coin t1 t2 h to coin.denom,
          amount_at_other to x coin.denom coin [] apart.1,
          amount_at_self to coin,
        )

    started-selling_coin :
        (now : Time) (b : BaseAuction) → (start_if_due now b).selling_coin ≡ b.selling_coin
    unfolding start_if_due
    started-selling_coin now b = go (not (ltb now b.start_time))
      where
        go :
            (c : Bool)
            → (if c then record b { status = AuctionStatus.started } else b).selling_coin
              ≡ b.selling_coin
        go true = refl
        go false = refl

    -- What follows the numbering of an auction.
    created-IsFunded :
        (id : ℕ) (x : Address) (coin : Coin) (a : Auction) (before behind : HookCall)
        (u t1 t2 : State)
        → IsOutside x
        → pay_creation_fee x u ≡ (ok tt, t1)
        → reserve_selling_coin id x coin t1 ≡ (ok tt, t2)
        → IsFunded Everyone u
        → get_auction id u ≡ none
        → IsWellMade id a
        → id ≤ u.last_auction_id
        → a.selling_coin ≡ coin
        → IsFunded Everyone (call_hooks behind (set_auction a (call_hooks before t2)))
    unfolding reserve_selling_coin get_auction
    created-IsFunded id x coin a before behind u t1 t2 outside paid reserved f free made le sells =
        let k1 : Spares Everyone u t1 =
          subst (λ r. Spares Everyone u r.1) paid (pay_creation_fee-Spares x outside u) in
        let k2 : Spares Everyone t1 t2 =
          subst (λ r. Spares Everyone t1 r.1) reserved
            (send_coins-Spares Everyone x (selling_reserve_address id) coin (λ k _. outside k)
              t1) in
        let k3 : Spares Everyone t2 (call_hooks before t2) =
          call_hooks-Spares Everyone quiet before t2 in
        let fr = Spares-IsFrame Everyone in
        let t3 = call_hooks before t2 in
        let k : Spares Everyone u t3 = fr.then_also u t2 t3 (fr.then_also u t1 t2 k1 k2) k3 in
        let own = sym made.own_id in
        hook-IsFunded behind (set_auction a t3) (
          new_auction-IsFunded a t3 (Spares-IsFunded Everyone Everyone u t3 (λ j _. tt) k f)
            (subst (λ j. get_auction j t3 ≡ none) own (ap (lookup id) k.same_auctions ∙ free))
            (subst (λ j. IsWellMade j a) own made)
            (subst (λ j. j ≤ t3.last_auction_id) own (rw k.same_last_id le))
            (subst (λ j. a.selling_coin.amount ≤ stock j a.selling_coin.denom t3) own
              (subst (λ c. c.amount ≤ stock id c.denom t3) (sym sells)
                (omega (
                  arith,
                  reserved_stock id x coin t1 t2 (outside id) reserved,
                  k3.stock_kept id tt coin.denom,
                )))))

    started-IsWellMade :
        (now : Time) (id : ℕ) (b : BaseAuction) (kd : Kind)
        → IsWellMade id (record { base = b; kind = kd })
        → IsWellMade id (record { base = start_if_due now b; kind = kd })
    unfolding start_if_due
    started-IsWellMade now id b kd w = go (not (ltb now b.start_time))
      where
        go :
            (c : Bool)
            → IsWellMade id (record {
              base = if c then record b { status = AuctionStatus.started } else b;
              kind = kd;
            })
        go true = record {
          own_id = w.own_id;
          own_selling = w.own_selling;
          own_paying = w.own_paying;
          own_vesting = w.own_vesting;
          two_coins = w.two_coins;
        }
        go false = w

    module _ (now : Time) (s s' : State) (a : Auction) (f : IsFunded Everyone s)
        (room : s.last_auction_id + 1 < 2 ^ 64) where
      pub create_fixed_price_auction-IsFunded :
          (msg : MsgCreateFixedPriceAuction)
          → IsOutside msg.auctioneer
          → msg.selling_coin.denom ≢ msg.paying_coin_denom
          → create_fixed_price_auction now msg s ≡ (ok a, s')
          → IsFunded Everyone s'
      unfolding create_fixed_price_auction ◌>>=◌ get_next_auction_id_with_update new_base_auction
          new_fixed_price_auction get_auction
      create_fixed_price_auction-IsFunded msg outside two h =
          let (_, h1) = guard-inv (ltb msg.end_time now) invalid_request _ s s' h in
          let (_, h2) =
            guard-inv (ltb max_num_vesting_schedules (length msg.vesting_schedules)) invalid_request
              _ s s' h1 in
          let id = (s.last_auction_id + 1) % 2 ^ 64 in
          let u = record s { last_auction_id = id } in
          let (_, t1, paid, h3) = >>=-inv (pay_creation_fee msg.auctioneer) _ u s' h2 in
          let (_, t2, reserved, h4) =
            >>=-inv (reserve_selling_coin id msg.auctioneer msg.selling_coin) _ t1 s' h3 in
          subst (IsFunded Everyone) (ap (λ r. r.1) h4) (
            created-IsFunded id msg.auctioneer msg.selling_coin _ _ _ u t1 t2 outside paid reserved
              (numbering-IsFunded s room f) (next_free s room f)
              (started-IsWellMade now id _ _ (record {
                own_id = refl;
                own_selling = refl;
                own_paying = refl;
                own_vesting = refl;
                two_coins = two;
              }))
              (omega arith) (started-selling_coin now _))

      pub create_batch_auction-IsFunded :
          (msg : MsgCreateBatchAuction)
          → IsOutside msg.auctioneer
          → msg.selling_coin.denom ≢ msg.paying_coin_denom
          → create_batch_auction now msg s ≡ (ok a, s')
          → IsFunded Everyone s'
      unfolding create_batch_auction ◌>>=◌ get_next_auction_id_with_update new_base_auction
          new_batch_auction get_auction
      create_batch_auction-IsFunded msg outside two h =
          let (_, h1) = guard-inv (ltb msg.end_time now) invalid_request _ s s' h in
          let (_, h2) =
            guard-inv (ltb max_num_vesting_schedules (length msg.vesting_schedules)) invalid_request
              _ s s' h1 in
          let (_, h3) =
            guard-inv (ltb max_extended_round msg.max_extended_round) invalid_request _ s s' h2 in
          let id = (s.last_auction_id + 1) % 2 ^ 64 in
          let u = record s { last_auction_id = id } in
          let (_, t1, paid, h4) = >>=-inv (pay_creation_fee msg.auctioneer) _ u s' h3 in
          let (_, t2, reserved, h5) =
            >>=-inv (reserve_selling_coin id msg.auctioneer msg.selling_coin) _ t1 s' h4 in
          subst (IsFunded Everyone) (ap (λ r. r.1) h5) (
            created-IsFunded id msg.auctioneer msg.selling_coin _ _ _ u t1 t2 outside paid reserved
              (numbering-IsFunded s room f) (next_free s room f)
              (started-IsWellMade now id _ _ (record {
                own_id = refl;
                own_selling = refl;
                own_paying = refl;
                own_vesting = refl;
                two_coins = two;
              }))
              (omega arith) (started-selling_coin now _))

    cancelled_as :
        (a a' : Auction)
        → cancelled_auction a ≡ ok a'
        → (kd : Kind) × (a' ≡ renewed a AuctionStatus.cancelled a.end_times kd)
    unfolding cancelled_auction set_status
    cancelled_as a a' h = go (type_eq a.typ AuctionType.fixed_price) (as_fixed_price a.kind) h
      where
        go :
            (c : Bool) (r : Result Coin)
            → (if c
                then elim r [
                  | ok _ ↦ ok (
                      renewed a AuctionStatus.cancelled a.end_times
                        (fixed_price_auction (new_coin a.selling_coin.denom 0)))
                  | _ ↦ panic
                ]
                else ok (renewed a AuctionStatus.cancelled a.end_times a.kind))
              ≡ ok a'
            → (kd : Kind) × (a' ≡ renewed a AuctionStatus.cancelled a.end_times kd)
        go true (ok x) e = (_, sym (ok-inj e))
        go true (err x) e = cc
        go true panic e = cc
        go false r e = (_, sym (ok-inj e))

    pub cancel_auction-IsFunded :
        (msg : MsgCancelAuction) (s s' : State)
        → IsFunded Everyone s
        → cancel_auction msg s ≡ (ok tt, s')
        → IsFunded Everyone s'
    unfolding cancel_auction ◌>>=◌
    cancel_auction-IsFunded msg s s' f h =
        let (a, e, h1) = found-inv (get_auction msg.auction_id s) not_found _ s s' h in
        let (_, h2) = guard-inv (not (a.auctioneer == msg.auctioneer)) unauthorized _ s s' h1 in
        let (_, h3) =
          guard-inv (not (status_eq a.status AuctionStatus.stand_by)) invalid_auction_status _ s s'
            h2 in
        let c =
          new_coin a.selling_coin.denom (s.bank a.selling_reserve_address a.selling_coin.denom) in
        let (_, t, sent, h4) =
          >>=-inv (send_coins a.selling_reserve_address a.auctioneer c) _ s s' h3 in
        let t' = call_hooks (before_auction_canceled msg.auction_id msg.auctioneer) t in
        let (a', ca, h5) = lift-inv (cancelled_auction a) _ t' s' h4 in
        let (kd, shape) = cancelled_as a a' ca in
        let w = f.well_made msg.auction_id a e in
        let own = w.own_selling ∙ ap selling_reserve_address (sym w.own_id) in
        let k1 : Spares (Others a.id) s t =
          subst (λ r. Spares (Others a.id) s r.1) sent
            (send_coins-Spares (Others a.id) a.selling_reserve_address a.auctioneer c
              (λ k n. (
                λ p. paying-not_selling k a.id (p ∙ own),
                λ p. n (selling-injective k a.id (p ∙ own)),
              ))
              s) in
        let k : Spares (Others a.id) s t' =
          (Spares-IsFrame (Others a.id)).then_also s t t' k1
            (call_hooks-Spares (Others a.id) quiet _ t) in
        let stands =
          subst (λ j. get_auction j t' ≡ some a) (sym w.own_id)
            (Spares-stored (Others a.id) s t' k msg.auction_id a e) in
        let done =
          renewed-IsFunded t' a AuctionStatus.cancelled a.end_times kd
            (Spares-IsFunded Everyone (Others a.id) s t' (λ j _. tt) k f) stands (λ o. cc)
            (λ o. cc) in
        subst (IsFunded Everyone) (ap (λ x. set_auction x t') (sym shape) ∙ ap (λ r. r.1) h5) done

    store_allowed_bidders-Spares :
        (a : Auction) (k : ℕ) (abs : List AllowedBidder)
        → Relates (Spares Everyone) (store_allowed_bidders a k abs)
    unfolding store_allowed_bidders
    store_allowed_bidders-Spares a k [] = λ s. (Spares-IsFrame Everyone).same s
    store_allowed_bidders-Spares a k (ab ∷ abs) =
        link _ _ (λ s. (Spares-IsFrame Everyone).same s)
          (λ _.
            link _ _ (λ s. (Spares-IsFrame Everyone).same s)
              (λ _.
                link _ _ (set_allowed_bidder-Spares Everyone k ab)
                  (λ _. store_allowed_bidders-Spares a k abs)))

    pub add_allowed_bidders-Spares :
        (k : ℕ) (abs : List AllowedBidder) → Relates (Spares Everyone) (add_allowed_bidders k abs)
    unfolding add_allowed_bidders
    add_allowed_bidders-Spares k abs =
        link _ _ (λ s. (Spares-IsFrame Everyone).same s)
          (λ _.
            link _ _ (λ s. (Spares-IsFrame Everyone).same s)
              (λ o.
                link _ _ (found_or-Relates (Spares Everyone) (Spares-IsFrame Everyone) o not_found)
                  (λ a.
                    link _ _ (call_hooks-Spares Everyone quiet _)
                      (λ _. store_allowed_bidders-Spares a k abs))))
