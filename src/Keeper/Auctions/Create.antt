-- ===== src/Keeper/Auctions/Create.antt =====
-- Creating a fixed-price auction (x/fundraising/keeper/auction.go).
use fundraising.Keeper.Action.{◌>>=◌}
use fundraising.Keeper.Auctions.{
  create_fixed_price_auction, max_num_vesting_schedules, start_if_due,
}
use fundraising.Keeper.Env.{Env}
use fundraising.Keeper.Fees.{pay_creation_fee, reserve_selling_coin}
use fundraising.Keeper.Frame.{QuietHooks}
use fundraising.Keeper.Inversion.{
  Moves, fund_community_pool-inv, guard-inv, ltb-false, send-inv, send_coins-Moves,
}
use fundraising.Keeper.Pools.Closing.{ends}
use fundraising.Keeper.State.{Balances, State}
use fundraising.Keeper.Tables.{get_auction, get_next_auction_id_with_update, set_auction}
use fundraising.Keeper.Tables.Laws.{get_auction-set_auction}
use fundraising.Prelude.{
  [], ap, arith, length, ltb, refl, some, subst, ◌%◌, ◌+◌, ◌^◌, ◌∙◌, ◌∷◌, ◌≡◌, ◌≤◌,
}
use fundraising.Sdk.{Time}
use fundraising.Sdk.Accounts.{Accounts}
use fundraising.Sdk.Coins.{ok-inj}
use fundraising.Sdk.Outcome.{invalid_request, ok}
use fundraising.Types.{
  Auction, AuctionStatus, AuctionType, BaseAuction, MsgCreateFixedPriceAuction, fixed_price_auction,
}
use fundraising.Types.Auctions.{
  new_base_auction, new_fixed_price_auction, paying_reserve_address, selling_reserve_address,
  vesting_reserve_address,
}
use mathlib.Core.Path.{sym}

pub start_if_due-id : (now : Time) (b : BaseAuction) → (start_if_due now b).id ≡ b.id
unfolding start_if_due
start_if_due-id now b = ground arith

module _ ⦃acc : Accounts⦄ ⦃env : Env⦄ (now : Time) (msg : MsgCreateFixedPriceAuction) (a : Auction)
    (s s' : State) where
  -- If the hooks leave the state alone and `CreateFixedPriceAuction` succeeds: the auction does not end
  -- in the past and has at most 100 vesting schedules; it has the next id, and all of its selling coin
  -- left to sell; it is stored under its id; the creation fee has gone from the auctioneer to the
  -- community pool, and then the selling coin from the auctioneer to the selling reserve of this id.
  pub create_fixed_price_auction_lem :
      QuietHooks
      → create_fixed_price_auction now msg s ≡ (ok a, s')
      → (m : Balances) × (now ≤ msg.end_time)
        × (length msg.vesting_schedules ≤ max_num_vesting_schedules)
        × (a.id ≡ (s.last_auction_id + 1) % 2 ^ 64)
        × (a.kind ≡ fixed_price_auction msg.selling_coin)
        × (get_auction a.id s' ≡ some a)
        × (env.fund_community_pool s.params.auction_creation_fee msg.auctioneer s.bank ≡ some m)
        × Moves msg.auctioneer
            (selling_reserve_address a.id)
            msg.selling_coin
            (record s { bank = m })
            s'
  unfolding create_fixed_price_auction ◌>>=◌ get_next_auction_id_with_update pay_creation_fee
      reserve_selling_coin new_fixed_price_auction new_base_auction set_auction
  create_fixed_price_auction_lem quiet h =
      let (ends, h1) = guard-inv (ltb msg.end_time now) invalid_request _ s s' h in
      let (few, h2) =
        guard-inv (ltb max_num_vesting_schedules (length msg.vesting_schedules)) invalid_request _ s
          s' h1 in
      let id = (s.last_auction_id + 1) % 2 ^ 64 in
      let s1 = record s { last_auction_id = id } in
      let (m, paid, h3) =
        fund_community_pool-inv s.params.auction_creation_fee msg.auctioneer _ s1 s' h2 in
      let (n, sent, h4) =
        send-inv msg.auctioneer (selling_reserve_address id) msg.selling_coin _
          (record s1 { bank = m }) s' h3 in
      let s2 = record s1 { bank = n } in
      let base =
        new_base_auction id AuctionType.fixed_price msg.auctioneer (selling_reserve_address id)
          (paying_reserve_address id) msg.start_price msg.selling_coin msg.paying_coin_denom
          (vesting_reserve_address id) msg.vesting_schedules msg.start_time (msg.end_time ∷ [])
          AuctionStatus.stand_by in
      let a' = new_fixed_price_auction (start_if_due now base) msg.selling_coin in
      let same : a' ≡ a = ok-inj (ap (λ r. r.0) h4) in
      let same_id : a.id ≡ id = sym (ap (λ x. x.id) same) ∙ start_if_due-id now base in
      let after : s' ≡ set_auction a s2 =
        sym (ap (λ r. r.1) h4)
        ∙ quiet _ _
        ∙ ap (set_auction a') (quiet _ _)
        ∙ ap (λ x. set_auction x s2) same in
      (
        m,
        ltb-false msg.end_time now ends,
        ltb-false max_num_vesting_schedules _ few,
        same_id,
        sym (ap (λ x. x.kind) same),
        subst (λ t. get_auction a.id t ≡ some a) (sym after)
            (get_auction-set_auction a.id a s2 refl),
        paid,
        subst
            (λ i.
              Moves msg.auctioneer (selling_reserve_address i) msg.selling_coin
                (record s { bank = m }) s')
            (sym same_id)
            (send_coins-Moves msg.auctioneer (selling_reserve_address id) msg.selling_coin
              (record s { bank = m }) s' n sent (ap (λ t. t.bank) after)),
      )
