-- ===== src/Keeper/Pools/Stored.antt =====
-- Storing a bid (x/fundraising/keeper/store.go, SetBid) and the total that a paying reserve must hold.
use fundraising.Keeper.Bids.Consistent.{get_bid-set_bid_at}
use fundraising.Keeper.Bids.Stored.{both_eq, when_then}
use fundraising.Keeper.Invariants.{total_bids}
use fundraising.Keeper.Pools.{FitsAuction, IsFunded, bid_total, is_open, pool}
use fundraising.Keeper.State.{State}
use fundraising.Keeper.Tables.{get_auction, get_bid, set_bid}
use fundraising.Prelude.{
  ==_iff, Bool, Bool-cases, Option, [], ap, arith, false, if◌then◌else◌, inl, inr, none, refl, some,
  subst, true, ℕ, ◌&&◌, ◌+◌, ◌==◌, ◌∙◌, ◌∷◌, ◌≡◌, ◌≢◌, ◌≤◌, ◌⊎◌,
}
use fundraising.Prelude.Store.{
  IsOrdered, Store, insert, lookup_or, lookup_or-insert, sum_of, sum_of-insert, values,
}
use fundraising.Sdk.{Amount, Denom}
use fundraising.Sdk.Accounts.{Accounts}
use fundraising.Sdk.Decimals.{Decimals}
use fundraising.Types.{Auction, Bid}
use fundraising.Types.Bids.{convert_to_paying_amount}
use mathlib.Core.Path.{sym}

pub one_value : {A : Type 0} {o : Option A} {x y : A} → o ≡ some x → o ≡ some y → x ≡ y
one_value e f = cc

pub none_value : {A : Type 0} {o : Option A} {x : A} → o ≡ none → o ≡ some x → ⊥
none_value e f = cc

module _ ⦃dec : Decimals⦄ where
  total_bids-values :
      (d : Denom) (m : Store Bid) → total_bids d (values m) ≡ sum_of (convert_to_paying_amount d) m
  unfolding total_bids
  total_bids-values d [] = refl
  total_bids-values d ((j, b) ∷ m) =
      ap (λ x. convert_to_paying_amount d b + x) (total_bids-values d m)

  -- What a bid that may not be there pays.
  abbrev pub paid_by : Denom → Option Bid → Amount
  paid_by d o = elim o [ none ↦ 0 | some w ↦ convert_to_paying_amount d w ]

module _ ⦃dec : Decimals⦄ ⦃acc : Accounts⦄ (b : Bid) (s : State) where
  pub bids_at-set_bid :
      (k : ℕ)
      → lookup_or [] k (set_bid b s).bids ≡ (
          if k == b.auction_id
          then insert b.id b (lookup_or [] b.auction_id s.bids)
          else lookup_or [] k s.bids)
  unfolding set_bid
  bids_at-set_bid k =
      lookup_or-insert [] k b.auction_id (insert b.id b (lookup_or [] b.auction_id s.bids)) s.bids

  -- The old bid leaves the total, if there is one, and the new one joins it.
  bid_total-set_bid :
      (d : Denom)
      → IsOrdered (lookup_or [] b.auction_id s.bids)
      → bid_total b.auction_id d (set_bid b s) + paid_by d (get_bid b.auction_id b.id s)
        ≡ bid_total b.auction_id d s + convert_to_paying_amount d b
  unfolding get_bid
  bid_total-set_bid d o =
      let m = lookup_or [] b.auction_id s.bids in
      rw
        (
          bids_at-set_bid b.auction_id,
          (==_iff b.auction_id b.auction_id).1 refl,
          total_bids-values d (insert b.id b m),
          total_bids-values d m,
        )
        (sum_of-insert (convert_to_paying_amount d) b.id b m o)

  bids_other :
      (k : ℕ) → k ≢ b.auction_id → lookup_or [] k (set_bid b s).bids ≡ lookup_or [] k s.bids
  bids_other k n =
      let e : k == b.auction_id ≡ false = ground arith in
      bids_at-set_bid k
      ∙ ap
          (λ (c : Bool).
            if c then insert b.id b (lookup_or [] b.auction_id s.bids) else lookup_or [] k s.bids)
          e

  pub set_bid-IsFunded :
      (P : ℕ → Type 0) (a : Auction)
      → IsFunded P s
      → IsOrdered (lookup_or [] b.auction_id s.bids)
      → get_auction b.auction_id s ≡ some a
      → FitsAuction a b
      → (P b.auction_id
          → is_open a.status ≡ true
          → let d = a.paying_coin_denom in
            bid_total b.auction_id d s + convert_to_paying_amount d b
            ≤ pool b.auction_id d s + paid_by d (get_bid b.auction_id b.id s))
      → IsFunded P (set_bid b s)
  unfolding set_bid get_auction
  set_bid-IsFunded P a f o stored fits covers = record {
    auctions_ordered = f.auctions_ordered;
    well_made = f.well_made;
    numbered = f.numbered;
    bids_fit = λ k i x c e g. elim (stored-cases k i c g) [
      | inl (p, q, r) ↦
          subst (λ y. FitsAuction y c) (sym (the_auction k x p e))
            (subst (FitsAuction a) (sym r) fits)
      | inr h ↦ f.bids_fit k i x c e h
    ];
    no_bids = λ k e. elim (dec_eq k b.auction_id) [
      | inl p ↦ absurd (none_value (subst (λ j. get_auction j s ≡ none) p e) stored)
      | inr n ↦ bids_other k n ∙ f.no_bids k e
    ];
    funded = λ k x p e op. elim (dec_eq k b.auction_id) [
      | inl q ↦
          let same = the_auction k x q e in
          let still_open = sym (ap (λ y. is_open y.status) same) ∙ op in
          subst (λ j. bid_total j x.paying_coin_denom (set_bid b s) ≤ pool j x.paying_coin_denom s)
            (sym q)
            (subst
              (λ y.
                bid_total b.auction_id y.paying_coin_denom (set_bid b s)
                ≤ pool b.auction_id y.paying_coin_denom s)
              (sym same)
              (omega
                (arith, bid_total-set_bid a.paying_coin_denom o, covers (subst P q p) still_open)))
      | inr n ↦ rw (bids_other k n) (f.funded k x p e op)
    ];
    stocked = f.stocked;
  }
    where
      the_auction : (k : ℕ) (x : Auction) → k ≡ b.auction_id → get_auction k s ≡ some x → x ≡ a
      the_auction k x p e = one_value (subst (λ j. get_auction j s ≡ some x) p e) stored

      dec_eq : (k j : ℕ) → (k ≡ j) ⊎ (k ≢ j)
      dec_eq k j = elim (Bool-cases (k == j)) [
        | inl e ↦ inl (ground arith)
        | inr e ↦ inr (ground arith)
      ]

      stored-cases :
          (k i : ℕ) (c : Bid)
          → get_bid k i (set_bid b s) ≡ some c
          → ((k ≡ b.auction_id) × (i ≡ b.id) × (c ≡ b)) ⊎ (get_bid k i s ≡ some c)
      stored-cases k i c g =
          elim (when_then (k == b.auction_id && i == b.id) b c (get_bid k i s)
            (sym (get_bid-set_bid_at b s k i) ∙ g)) [
              | inl (e, h) ↦ let (p, q) = both_eq k b.auction_id i b.id e in inl (p, q, h)
              | inr (_, h) ↦ inr h
            ]
