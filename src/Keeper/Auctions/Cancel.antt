-- ===== src/Keeper/Auctions/Cancel.antt =====
-- Cancelling an auction (x/fundraising/keeper/auction.go).
use fundraising.Keeper.Action.{◌>>=◌}
use fundraising.Keeper.Auctions.{cancel_auction, cancelled_auction}
use fundraising.Keeper.Env.{Env, call_hooks}
use fundraising.Keeper.Frame.{QuietHooks}
use fundraising.Keeper.Inversion.{
  Moves, found-inv, guard-inv, lift-inv, not-==_false, send-inv, send_coins-Moves,
}
use fundraising.Keeper.State.{State, before_auction_canceled}
use fundraising.Keeper.Tables.{get_auction, set_auction}
use fundraising.Keeper.Tables.Laws.{get_auction-set_auction}
use fundraising.Prelude.{ap, arith, false, not, refl, some, subst, ◌==◌, ◌∙◌, ◌≡◌}
use fundraising.Sdk.{new_coin}
use fundraising.Sdk.Accounts.{Accounts}
use fundraising.Sdk.Outcome.{invalid_auction_status, not_found, ok, unauthorized}
use fundraising.Types.{Auction, AuctionStatus, MsgCancelAuction, status_eq}
use fundraising.Types.Auctions.{set_status}
use mathlib.Core.Path.{sym}

-- The fields that a cancelled auction has, and those that it keeps.
cancelled_auction_lem :
    (a a' : Auction)
    → cancelled_auction a ≡ ok a'
    → (a'.id ≡ a.id) × (a'.status ≡ AuctionStatus.cancelled)
unfolding cancelled_auction set_status
cancelled_auction_lem a a' h = ground arith

stand_by-status_eq :
    (t : AuctionStatus)
    → not (status_eq t AuctionStatus.stand_by) ≡ false
    → t ≡ AuctionStatus.stand_by
stand_by-status_eq AuctionStatus.stand_by h = refl
stand_by-status_eq AuctionStatus.nil h = cc
stand_by-status_eq AuctionStatus.started h = cc
stand_by-status_eq AuctionStatus.vesting h = cc
stand_by-status_eq AuctionStatus.finished h = cc
stand_by-status_eq AuctionStatus.cancelled h = cc

module _ ⦃acc : Accounts⦄ ⦃env : Env⦄ (msg : MsgCancelAuction) (s s' : State) where
  -- If the hooks leave the state alone and `CancelAuction` succeeds: the auction was in stand-by and
  -- the sender is its auctioneer; it is stored as cancelled; and the whole balance of the selling
  -- reserve in the selling coin has moved to the auctioneer, and no other balance has changed.
  pub cancel_auction_lem :
      QuietHooks
      → cancel_auction msg s ≡ (ok tt, s')
      → (a : Auction) × (get_auction msg.auction_id s ≡ some a)
        × (a.auctioneer ≡ msg.auctioneer)
        × (a.status ≡ AuctionStatus.stand_by)
        × (a' : Auction) × (get_auction a.id s' ≡ some a')
        × (a'.status ≡ AuctionStatus.cancelled)
        × (let reserve = a.selling_reserve_address in
            let denom = a.selling_coin.denom in
            Moves reserve a.auctioneer (new_coin denom (s.bank reserve denom)) s s')
  unfolding cancel_auction ◌>>=◌ set_auction
  cancel_auction_lem quiet h =
      let (a, ea, h1) = found-inv (get_auction msg.auction_id s) not_found _ s s' h in
      let (own, h2) = guard-inv (not (a.auctioneer == msg.auctioneer)) unauthorized _ s s' h1 in
      let (idle, h3) =
        guard-inv (not (status_eq a.status AuctionStatus.stand_by)) invalid_auction_status _ s s'
          h2 in
      let c =
        new_coin a.selling_coin.denom (s.bank a.selling_reserve_address a.selling_coin.denom) in
      let (m, sent, h4) = send-inv a.selling_reserve_address a.auctioneer c _ s s' h3 in
      let (a', ca, h5) =
        lift-inv (cancelled_auction a) _
          (call_hooks (before_auction_canceled msg.auction_id msg.auctioneer)
            (record s { bank = m }))
          s' h4 in
      let (same_id, gone) = cancelled_auction_lem a a' ca in
      let after : s' ≡ set_auction a' (record s { bank = m }) =
        sym (ap (λ r. r.1) h5) ∙ ap (set_auction a') (quiet _ _) in
      (
        a,
        ea,
        not-==_false a.auctioneer msg.auctioneer own,
        stand_by-status_eq a.status idle,
        a',
        subst (λ t. get_auction a.id t ≡ some a') (sym after)
            (get_auction-set_auction a.id a' _ same_id),
        gone,
        send_coins-Moves a.selling_reserve_address a.auctioneer c s s' m sent
            (ap (λ t. t.bank) after),
      )
