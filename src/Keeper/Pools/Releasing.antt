-- ===== src/Keeper/Pools/Releasing.antt =====
-- Releasing vested coins (x/fundraising/keeper/auction.go, ReleaseVestingPayingCoin), and the
-- reserves.
use fundraising.Keeper.Action.{>>=-inv, modify, pure, ◌>>=◌, ◌>>◌}
use fundraising.Keeper.Closing.Release.{mark_released, release_queue, release_queues}
use fundraising.Keeper.Env.{Env}
use fundraising.Keeper.Fees.{send_coins}
use fundraising.Keeper.Frame.{QuietHooks}
use fundraising.Keeper.Pools.{Everyone, IsApart, IsFunded, Spares}
use fundraising.Keeper.Pools.Auctions.{kept_open-IsFunded}
use fundraising.Keeper.Pools.Closing.{Holds, ends, spare}
use fundraising.Keeper.Pools.Transfers.{
  paying-not_vesting, selling-not_vesting, send_coins-Spares, set_vesting_queue-Spares,
}
use fundraising.Keeper.State.{State}
use fundraising.Keeper.Tables.{set_auction, set_vesting_queue}
use fundraising.Prelude.{
  Bool, List, [], ap, false, if◌then◌else◌, refl, subst, true, ℕ, ◌∙◌, ◌∷◌, ◌≡◌,
}
use fundraising.Sdk.{Time}
use fundraising.Sdk.Accounts.{Accounts}
use fundraising.Sdk.Decimals.{Decimals}
use fundraising.Sdk.Outcome.{ok}
use fundraising.Types.{Auction, AuctionStatus, VestingQueue}
use fundraising.Types.Auctions.{set_status}
use fundraising.Types.Vesting.{should_release}

module _ ⦃dec : Decimals⦄ ⦃acc : Accounts⦄ ⦃env : Env⦄ (quiet : QuietHooks) (now : Time)
    (a : Auction) where
  not_vesting :
      (s : State)
      → Holds quiet a Everyone s
      → (k : ℕ) → Everyone k
      → IsApart k a.vesting_reserve_address
  not_vesting s h k _ =
      let own = ((h.0).well_made a.id a h.1).own_vesting in
      (λ p. paying-not_vesting k a.id (p ∙ own), λ p. selling-not_vesting k a.id (p ∙ own))

  queue_paid :
      (q : VestingQueue) (s u : State)
      → Holds quiet a Everyone s
      → send_coins a.vesting_reserve_address a.auctioneer q.paying_coin s ≡ (ok tt, u)
      → Holds quiet a Everyone (set_vesting_queue (mark_released q) u)
  queue_paid q s u h e =
      let held =
        spare quiet a Everyone Everyone s u (λ k _. tt)
          (ends (Spares Everyone) (send_coins a.vesting_reserve_address a.auctioneer q.paying_coin)
            s u
            (send_coins-Spares Everyone a.vesting_reserve_address a.auctioneer q.paying_coin
              (not_vesting s h))
            e)
          h in
      spare quiet a Everyone Everyone u _ (λ k _. tt)
        (set_vesting_queue-Spares Everyone (mark_released q) u) held

  after_queue :
      (q : VestingQueue) (last : Bool) (s t : State)
      → Holds quiet a Everyone s
      → release_queue now a q last s ≡ (ok tt, t)
      → IsFunded Everyone t × (last ≡ false → Holds quiet a Everyone t)
  unfolding release_queue ◌>>=◌ set_status
  after_queue q last s t h e = go (should_release q now) last e
    where
      go :
          (c l : Bool)
          → (if c
                then (do
                  send_coins a.vesting_reserve_address a.auctioneer q.paying_coin
                  modify (set_vesting_queue (mark_released q))
                  if l then modify (set_auction (set_status AuctionStatus.finished a)) else pure tt)
                else pure tt)
              s
            ≡ (ok tt, t)
          → IsFunded Everyone t × (l ≡ false → Holds quiet a Everyone t)
      go false l e =
          let same = ap (λ r. r.1) e in
          (subst (IsFunded Everyone) same h.0, λ _. subst (Holds quiet a Everyone) same h)
      go true l e =
          let (_, u, sent, e1) =
            >>=-inv (send_coins a.vesting_reserve_address a.auctioneer q.paying_coin) _ s t e in
          go_on l u sent e1
        where
          go_on :
              (l : Bool) (u : State)
              → send_coins a.vesting_reserve_address a.auctioneer q.paying_coin s ≡ (ok tt, u)
              → (if l then modify (set_auction (set_status AuctionStatus.finished a)) else pure tt)
                  (set_vesting_queue (mark_released q) u)
                ≡ (ok tt, t)
              → IsFunded Everyone t × (l ≡ false → Holds quiet a Everyone t)
          go_on false u sent e1 =
              let same = ap (λ r. r.1) e1 in
              let held = queue_paid q s u h sent in
              (subst (IsFunded Everyone) same held.0, λ _. subst (Holds quiet a Everyone) same held)
          go_on true u sent e1 =
              let held = queue_paid q s u h sent in
              (
                subst (IsFunded Everyone) (ap (λ r. r.1) e1) (
                    kept_open-IsFunded (set_vesting_queue (mark_released q) u) a
                      AuctionStatus.finished a.end_times a.kind held.0 held.1 (λ o. cc)),
                λ o. cc,
              )

  pub release_queues-IsFunded :
      (qs : List VestingQueue) (s t : State)
      → Holds quiet a Everyone s
      → release_queues now a qs s ≡ (ok tt, t)
      → IsFunded Everyone t
  unfolding release_queues ◌>>=◌
  release_queues-IsFunded [] s t h e = subst (IsFunded Everyone) (ap (λ r. r.1) e) h.0
  release_queues-IsFunded (q ∷ []) s t h e =
      let (_, u, e1, e2) = >>=-inv (release_queue now a q true) _ s t e in
      subst (IsFunded Everyone) (ap (λ r. r.1) e2) (after_queue q true s u h e1).0
  release_queues-IsFunded (q ∷ p ∷ qs) s t h e =
      let (_, u, e1, e2) = >>=-inv (release_queue now a q false) _ s t e in
      release_queues-IsFunded (p ∷ qs) u t ((after_queue q false s u h e1).1 refl) e2
