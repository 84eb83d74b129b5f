-- ===== src/Keeper/Pools/Auctions.antt =====
-- Storing an auction (x/fundraising/keeper/store.go, SetAuction) and what the reserves hold.
use fundraising.Keeper.Pools.{
  Everyone, FitsAuction, IsFunded, IsWellMade, Others, Spares-IsFrame, Spares-IsFunded, bid_total,
  is_open, pool, stock,
}
use fundraising.Keeper.State.{State}
use fundraising.Keeper.Tables.{get_auction, get_bid, set_auction}
use fundraising.Prelude.{
  ==_iff, Bool, List, ap, arith, false, if◌then◌else◌, inl, inr, none, refl, some, subst, true, ℕ,
  ◌==◌, ◌∙◌, ◌≡◌, ◌≢◌, ◌≤◌, ◌⊎◌,
}
use fundraising.Prelude.Store.{insert-IsOrdered, lookup, lookup-insert}
use fundraising.Sdk.{Time}
use fundraising.Sdk.Accounts.{Accounts}
use fundraising.Sdk.Decimals.{Decimals}
use fundraising.Types.{Auction, AuctionStatus, Bid, Kind}
use mathlib.Core.Path.{sym}

-- What is read after an auction is stored.
pub set_auction-cases :
    (a : Auction) (s : State) (j : ℕ) (x : Auction)
    → get_auction j (set_auction a s) ≡ some x
    → ((j ≡ a.id) × (x ≡ a)) ⊎ ((j ≢ a.id) × (get_auction j s ≡ some x))
unfolding get_auction set_auction
set_auction-cases a s j x h = go (j == a.id) refl (sym (lookup-insert j a.id a s.auctions) ∙ h)
  where
    go :
        (c : Bool)
        → j == a.id ≡ c
        → (if c then some a else lookup j s.auctions) ≡ some x
        → ((j ≡ a.id) × (x ≡ a)) ⊎ ((j ≢ a.id) × (lookup j s.auctions ≡ some x))
    go true e g = inl ((==_iff j a.id).0 e, cc)
    go false e g = inr (ground arith, g)

pub set_auction-none :
    (a : Auction) (s : State) (j : ℕ)
    → get_auction j (set_auction a s) ≡ none
    → get_auction j s ≡ none
unfolding get_auction set_auction
set_auction-none a s j h = go (j == a.id) (sym (lookup-insert j a.id a s.auctions) ∙ h)
  where
    go :
        (c : Bool) → (if c then some a else lookup j s.auctions) ≡ none → lookup j s.auctions ≡ none
    go true g = cc
    go false g = g

abbrev pub renewed : Auction → AuctionStatus → List Time → Kind → Auction
renewed a st ts kd = record { base = record a.base { status = st; end_times = ts }; kind = kd }

module _ ⦃dec : Decimals⦄ ⦃acc : Accounts⦄ (s : State) where
  pub set_auction-IsFunded :
      (a : Auction)
      → IsFunded (Others a.id) s
      → IsWellMade a.id a
      → a.id ≤ s.last_auction_id
      → ((i : ℕ) (b : Bid) → get_bid a.id i s ≡ some b → FitsAuction a b)
      → (is_open a.status ≡ true
          → bid_total a.id a.paying_coin_denom s ≤ pool a.id a.paying_coin_denom s)
      → (is_open a.status ≡ true → a.selling_coin.amount ≤ stock a.id a.selling_coin.denom s)
      → IsFunded Everyone (set_auction a s)
  unfolding set_auction get_bid
  set_auction-IsFunded a f made le fits covers stocks = record {
    auctions_ordered = insert-IsOrdered a.id a s.auctions f.auctions_ordered;
    well_made = λ k x e. elim (set_auction-cases a s k x e) [
      | inl (p, q) ↦ subst (λ i. IsWellMade i x) (sym p) (subst (IsWellMade a.id) (sym q) made)
      | inr (_, g) ↦ f.well_made k x g
    ];
    numbered = λ k x e. elim (set_auction-cases a s k x e) [
      | inl (p, q) ↦ omega arith
      | inr (_, g) ↦ f.numbered k x g
    ];
    bids_fit = λ k i x b e h. elim (set_auction-cases a s k x e) [
      | inl (p, q) ↦
          subst (λ y. FitsAuction y b) (sym q) (fits i b (subst (λ j. get_bid j i s ≡ some b) p h))
      | inr (_, g) ↦ f.bids_fit k i x b g h
    ];
    no_bids = λ k e. f.no_bids k (set_auction-none a s k e);
    funded = λ k x _ e o. elim (set_auction-cases a s k x e) [
      | inl (p, q) ↦
          let c = covers (sym (ap (λ y. is_open y.status) q) ∙ o) in
          subst (λ i. bid_total i x.paying_coin_denom s ≤ pool i x.paying_coin_denom s) (sym p)
            (subst (λ y. bid_total a.id y.paying_coin_denom s ≤ pool a.id y.paying_coin_denom s)
              (sym q) c)
      | inr (n, g) ↦ f.funded k x n g o
    ];
    stocked = λ k x _ e o. elim (set_auction-cases a s k x e) [
      | inl (p, q) ↦
          let c = stocks (sym (ap (λ y. is_open y.status) q) ∙ o) in
          subst (λ i. x.selling_coin.amount ≤ stock i x.selling_coin.denom s) (sym p)
            (subst (λ y. y.selling_coin.amount ≤ stock a.id y.selling_coin.denom s) (sym q) c)
      | inr (n, g) ↦ f.stocked k x n g o
    ];
  }

  -- A stored auction may be stored again with another status, other end times or another rest of
  -- coins; where it is open then, its reserves must cover its bids and what it sells.
  pub renewed-IsFunded :
      (a : Auction) (st : AuctionStatus) (ts : List Time) (kd : Kind)
      → IsFunded (Others a.id) s
      → get_auction a.id s ≡ some a
      → (is_open st ≡ true → bid_total a.id a.paying_coin_denom s ≤ pool a.id a.paying_coin_denom s)
      → (is_open st ≡ true → a.selling_coin.amount ≤ stock a.id a.selling_coin.denom s)
      → IsFunded Everyone (set_auction (renewed a st ts kd) s)
  renewed-IsFunded a st ts kd f e covers stocks =
      let w = f.well_made a.id a e in
      set_auction-IsFunded (renewed a st ts kd) f
        (record {
          own_id = w.own_id;
          own_selling = w.own_selling;
          own_paying = w.own_paying;
          own_vesting = w.own_vesting;
          two_coins = w.two_coins;
        })
        (f.numbered a.id a e) (λ i b g. f.bids_fit a.id i a b e g) covers stocks

  -- One that stays open as it was needs nothing more.
  pub kept_open-IsFunded :
      (a : Auction) (st : AuctionStatus) (ts : List Time) (kd : Kind)
      → IsFunded Everyone s
      → get_auction a.id s ≡ some a
      → (is_open st ≡ true → is_open a.status ≡ true)
      → IsFunded Everyone (set_auction (renewed a st ts kd) s)
  kept_open-IsFunded a st ts kd f e was =
      renewed-IsFunded a st ts kd
        (Spares-IsFunded Everyone (Others a.id) s s (λ k n. tt)
          ((Spares-IsFrame (Others a.id)).same s) f)
        e (λ o. f.funded a.id a tt e (was o)) (λ o. f.stocked a.id a tt e (was o))
