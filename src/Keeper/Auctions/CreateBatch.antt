-- ===== src/Keeper/Auctions/CreateBatch.antt =====
-- Creating a batch auction (x/fundraising/keeper/auction.go).
use fundraising.Keeper.Action.{◌>>=◌}
use fundraising.Keeper.Auctions.{
  create_batch_auction, max_extended_round, max_num_vesting_schedules, start_if_due,
}
use fundraising.Keeper.Auctions.Create.{start_if_due-id}
use fundraising.Keeper.Env.{Env}
use fundraising.Keeper.Fees.{pay_creation_fee, reserve_selling_coin}
use fundraising.Keeper.Frame.{QuietHooks}
use fundraising.Keeper.Inversion.{
  Moves, fund_community_pool-inv, guard-inv, ltb-false, send-inv, send_coins-Moves,
}
use fundraising.Keeper.Pools.Closing.{ends}
use fundraising.Keeper.State.{Balances, State}
use fundraising.Keeper.Tables.{get_auction, get_next_auction_id_with_update, set_auction}
use fundraising.Keeper.Tables.Laws.{get_auction-set_auction}
use fundraising.Prelude.{
  Bool, [], ap, arith, false, if◌then◌else◌, inl, inr, length, ltb, not, refl, some, subst, true,
  ◌%◌, ◌+◌, ◌<◌, ◌^◌, ◌∙◌, ◌∷◌, ◌≡◌, ◌≤◌, ◌⊎◌,
}
use fundraising.Sdk.{Time}
use fundraising.Sdk.Accounts.{Accounts}
use fundraising.Sdk.Coins.{ok-inj}
use fundraising.Sdk.Outcome.{invalid_request, ok}
use fundraising.Types.{
  Auction, AuctionStatus, AuctionType, BaseAuction, MsgCreateBatchAuction, batch_auction,
}
use fundraising.Types.Auctions.{
  new_base_auction, new_batch_auction, paying_reserve_address, selling_reserve_address,
  vesting_reserve_address,
}
use mathlib.Core.Path.{sym}

-- An auction is started at once if its start time has come.
start_if_due-cases :
    (now : Time) (b : BaseAuction)
    → b.status ≡ AuctionStatus.stand_by
    → ((b.start_time ≤ now) × ((start_if_due now b).status ≡ AuctionStatus.started))
      ⊎ ((now < b.start_time) × ((start_if_due now b).status ≡ AuctionStatus.stand_by))
unfolding start_if_due
start_if_due-cases now b e = go (ltb now b.start_time) refl
  where
    go :
        (c : Bool)
        → ltb now b.start_time ≡ c
        → ((b.start_time ≤ now)
            × ((if not c then record b { status = AuctionStatus.started } else b).status
                ≡ AuctionStatus.started))
          ⊎ ((now < b.start_time)
              × ((if not c then record b { status = AuctionStatus.started } else b).status
                  ≡ AuctionStatus.stand_by))
    go true g = inr (ground arith, e)
    go false g = inl (ground arith, refl)

module _ ⦃acc : Accounts⦄ ⦃env : Env⦄ (now : Time) (msg : MsgCreateBatchAuction) (a : Auction)
    (s s' : State) where
  pub create_batch_auction_lem :
      QuietHooks
      → create_batch_auction now msg s ≡ (ok a, s')
      → (m : Balances) × (now ≤ msg.end_time)
        × (length msg.vesting_schedules ≤ max_num_vesting_schedules)
        × (msg.max_extended_round ≤ max_extended_round)
        × (a.id ≡ (s.last_auction_id + 1) % 2 ^ 64)
        × (a.kind
            ≡ batch_auction (record {
              min_bid_price = msg.min_bid_price;
              matched_price = 0;
              max_extended_round = msg.max_extended_round;
              extended_round_rate = msg.extended_round_rate;
            }))
        × (((msg.start_time ≤ now) × (a.status ≡ AuctionStatus.started))
            ⊎ ((now < msg.start_time) × (a.status ≡ AuctionStatus.stand_by)))
        × (get_auction a.id s' ≡ some a)
        × (env.fund_community_pool s.params.auction_creation_fee msg.auctioneer s.bank ≡ some m)
        × Moves msg.auctioneer
            (selling_reserve_address a.id)
            msg.selling_coin
            (record s { bank = m })
            s'
  unfolding create_batch_auction ◌>>=◌ get_next_auction_id_with_update pay_creation_fee
      reserve_selling_coin new_batch_auction new_base_auction set_auction
  create_batch_auction_lem quiet h =
      let (ends, h1) = guard-inv (ltb msg.end_time now) invalid_request _ s s' h in
      let (few, h2') =
        guard-inv (ltb max_num_vesting_schedules (length msg.vesting_schedules)) invalid_request _ s
          s' h1 in
      let (rounds, h2) =
        guard-inv (ltb max_extended_round msg.max_extended_round) invalid_request _ s s' h2' in
      let id = (s.last_auction_id + 1) % 2 ^ 64 in
      let s1 = record s { last_auction_id = id } in
      let (m, paid, h3) =
        fund_community_pool-inv s.params.auction_creation_fee msg.auctioneer _ s1 s' h2 in
      let (n, sent, h4) =
        send-inv msg.auctioneer (selling_reserve_address id) msg.selling_coin _
          (record s1 { bank = m }) s' h3 in
      let s2 = record s1 { bank = n } in
      let base =
        new_base_auction id AuctionType.batch msg.auctioneer (selling_reserve_address id)
          (paying_reserve_address id) msg.start_price msg.selling_coin msg.paying_coin_denom
          (vesting_reserve_address id) msg.vesting_schedules msg.start_time (msg.end_time ∷ [])
          AuctionStatus.stand_by in
      let a' =
        new_batch_auction (start_if_due now base) msg.min_bid_price 0 msg.max_extended_round
          msg.extended_round_rate in
      let same : a' ≡ a = ok-inj (ap (λ r. r.0) h4) in
      let same_id : a.id ≡ id = sym (ap (λ x. x.id) same) ∙ start_if_due-id now base in
      let after : s' ≡ set_auction a s2 =
        sym (ap (λ r. r.1) h4)
        ∙ quiet _ _
        ∙ ap (set_auction a') (quiet _ _)
        ∙ ap (λ x. set_auction x s2) same in
      (
        m,
        ltb-false msg.end_time now ends,
        ltb-false max_num_vesting_schedules _ few,
        ltb-false max_extended_round _ rounds,
        same_id,
        sym (ap (λ x. x.kind) same),
        subst
            (λ x.
              ((msg.start_time ≤ now) × (x.status ≡ AuctionStatus.started))
              ⊎ ((now < msg.start_time) × (x.status ≡ AuctionStatus.stand_by)))
            same (start_if_due-cases now base refl),
        subst (λ t. get_auction a.id t ≡ some a) (sym after)
            (get_auction-set_auction a.id a s2 refl),
        paid,
        subst
            (λ i.
              Moves msg.auctioneer (selling_reserve_address i) msg.selling_coin
                (record s { bank = m }) s')
            (sym same_id)
            (send_coins-Moves msg.auctioneer (selling_reserve_address id) msg.selling_coin
              (record s { bank = m }) s' n sent (ap (λ t. t.bank) after)),
      )
