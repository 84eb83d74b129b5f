-- ===== src/Keeper/Bids/Stored.antt =====
-- Storing a bid (x/fundraising/keeper/store.go, SetBid) keeps the tables of bids consistent.
use fundraising.Keeper.Bids.Consistent.{IsConsistent, IsIndexed, get_bid-set_bid_at, index-set_bid}
use fundraising.Keeper.State.{State}
use fundraising.Keeper.Tables.{get_auction, get_bid, get_last_bid_id, set_bid}
use fundraising.Prelude.{
  Bool, Bool-cases, Option, [], ap, arith, false, if◌then◌else◌, inl, inr, refl, some, subst, true,
  ℕ, ◌&&◌, ◌==◌, ◌∙◌, ◌≡◌, ◌≤◌, ◌⊎◌,
}
use fundraising.Prelude.Store.{
  IsOrdered, insert, insert-IsOrdered, lookup, lookup_or, lookup_or-insert,
}
use fundraising.Types.{Bid}
use mathlib.Core.Path.{sym}

pub when_then :
    {A : Type 0} (c : Bool) (x y : A) (o : Option A)
    → (if c then some x else o) ≡ some y
    → ((c ≡ true) × (y ≡ x)) ⊎ ((c ≡ false) × (o ≡ some y))
when_then true x y o h = inl (refl, cc)
when_then false x y o h = inr (refl, h)

pub both_eq : (x y z w : ℕ) → (x == y && z == w) ≡ true → (x ≡ y) × (z ≡ w)
both_eq x y z w h = ground arith

eq_both : (x y z w : ℕ) → x ≡ y → z ≡ w → (x == y && z == w) ≡ true
eq_both x y z w e f = ground arith

eq_and : (x y : ℕ) (c : Bool) → x ≡ y → c ≡ true → (x == y && c) ≡ true
eq_and x y c e f = ground arith

and_eq : (x y : ℕ) (c : Bool) → (x == y && c) ≡ true → (x ≡ y) × (c ≡ true)
and_eq x y c h = ground arith

if_some : (c : Bool) (o : Option (Unit {0})) → o ≡ some tt → (if c then some tt else o) ≡ some tt
if_some true o h = refl
if_some false o h = h

module _ (b : Bid) (s : State) (c : IsConsistent s)
    (given_out : b.id ≤ get_last_bid_id b.auction_id s)
    (same_bidder : (old : Bid)
      → get_bid b.auction_id b.id s ≡ some old
      → old.bidder ≡ b.bidder) where
  stored :
      (a i : ℕ) (x : Bid)
      → get_bid a i (set_bid b s) ≡ some x
      → ((a ≡ b.auction_id) × (i ≡ b.id) × (x ≡ b)) ⊎ (get_bid a i s ≡ some x)
  stored a i x h =
      elim (when_then (a == b.auction_id && i == b.id) b x (get_bid a i s)
        (sym (get_bid-set_bid_at b s a i) ∙ h)) [
          | inl (e, f) ↦ let (p, q) = both_eq a b.auction_id i b.id e in inl (p, q, f)
          | inr (e, f) ↦ inr f
        ]

  IsOrdered-after : (a : ℕ) → IsOrdered (lookup_or [] a (set_bid b s).bids)
  unfolding set_bid
  IsOrdered-after a =
      rw
        (lookup_or-insert [] a b.auction_id (insert b.id b (lookup_or [] b.auction_id s.bids))
          s.bids)
        (elim (Bool-cases (a == b.auction_id)) [
          | inl e ↦ rw e (
              insert-IsOrdered b.id b (lookup_or [] b.auction_id s.bids)
                (c.bids_ordered b.auction_id))
          | inr e ↦ rw e (c.bids_ordered a)
        ])

  index-IsOrdered_after : (k : ℕ) → IsOrdered (lookup_or [] k (set_bid b s).bid_index)
  unfolding set_bid
  index-IsOrdered_after k =
      let mine = lookup_or [] b.bidder s.bid_index in
      let added = insert b.auction_id (insert b.id tt (lookup_or [] b.auction_id mine)) mine in
      rw (lookup_or-insert [] k b.bidder added s.bid_index) (elim (Bool-cases (k == b.bidder)) [
        | inl e ↦ rw e (insert-IsOrdered b.auction_id _ mine (c.index_ordered b.bidder))
        | inr e ↦ rw e (c.index_ordered k)
      ])

  last_id_after : (a : ℕ) → get_last_bid_id a (set_bid b s) ≡ get_last_bid_id a s
  unfolding set_bid get_last_bid_id
  last_id_after a = refl

  keyed_after :
      (a i : ℕ) (x : Bid)
      → get_bid a i (set_bid b s) ≡ some x
      → (x.auction_id ≡ a) × (x.id ≡ i) × (i ≤ get_last_bid_id a (set_bid b s))
  keyed_after a i x h = elim (stored a i x h) [
    | inl (p, q, e) ↦ rw (last_id_after a, p, q, e) (refl, refl, given_out)
    | inr g ↦ rw (last_id_after a) (c.bids_keyed a i x g)
  ]

  abbrev old_index : ℕ → ℕ → ℕ → Option (Unit {0})
  old_index a i k = lookup i (lookup_or [] a (lookup_or [] k s.bid_index))

  index_cases :
      (k a i : ℕ)
      → IsIndexed k a i (set_bid b s)
      → ((k ≡ b.bidder) × ((a == b.auction_id && i == b.id) ≡ true)) ⊎ IsIndexed k a i s
  index_cases k a i h =
      elim (when_then (k == b.bidder && (a == b.auction_id && i == b.id)) tt tt (old_index a i k)
        (sym (index-set_bid b s a i k) ∙ h)) [
          | inl (e, _) ↦ inl (and_eq k b.bidder (a == b.auction_id && i == b.id) e)
          | inr (_, f) ↦ inr f
        ]

  bidder_of :
      (k a i : ℕ)
      → a ≡ b.auction_id
      → i ≡ b.id
      → ((k ≡ b.bidder) × ((a == b.auction_id && i == b.id) ≡ true)) ⊎ IsIndexed k a i s
      → b.bidder ≡ k
  bidder_of k a i p q (inl (e, _)) = sym e
  bidder_of k a i p q (inr h) =
      let (x, g, f) = c.index_sound k a i h in
      sym (
        same_bidder x (
          subst (λ (j : ℕ). get_bid j b.id s ≡ some x) p
            (subst (λ (j : ℕ). get_bid a j s ≡ some x) q g)))
      ∙ f

  still-IsIndexed :
      (k a i : ℕ)
      → (a == b.auction_id && i == b.id) ≡ false
      → ((k ≡ b.bidder) × ((a == b.auction_id && i == b.id) ≡ true)) ⊎ IsIndexed k a i s
      → IsIndexed k a i s
  still-IsIndexed k a i e (inl (_, f)) = cc
  still-IsIndexed k a i e (inr h) = h

  IsIndexed-after :
      (a i : ℕ) (x : Bid)
      → get_bid a i (set_bid b s) ≡ some x
      → IsIndexed x.bidder a i (set_bid b s)
  IsIndexed-after a i x h = index-set_bid b s a i x.bidder ∙ elim (stored a i x h) [
    | inl (p, q, e) ↦
        ap (λ (t : Bool). if t then some tt else old_index a i x.bidder)
          (eq_and x.bidder b.bidder (a == b.auction_id && i == b.id) (ap (λ y. y.bidder) e)
            (eq_both a b.auction_id i b.id p q))
    | inr g ↦ if_some _ _ (c.indexed a i x g)
  ]

  sound_after :
      (k a i : ℕ)
      → IsIndexed k a i (set_bid b s)
      → (x : Bid) × (get_bid a i (set_bid b s) ≡ some x) × (x.bidder ≡ k)
  sound_after k a i h = elim (Bool-cases (a == b.auction_id && i == b.id)) [
    | inl e ↦ (
      b,
      get_bid-set_bid_at b s a i ∙ ap (λ (t : Bool). if t then some b else get_bid a i s) e,
      bidder_of k a i (both_eq a b.auction_id i b.id e).0 (both_eq a b.auction_id i b.id e).1
          (index_cases k a i h),
    )
    | inr e ↦
        let (x, g, f) = c.index_sound k a i (still-IsIndexed k a i e (index_cases k a i h)) in
        (
          x,
          get_bid-set_bid_at b s a i ∙ ap (λ (t : Bool). if t then some b else get_bid a i s) e ∙ g,
          f,
        )
  ]

  keeps_auctions : (set_bid b s).auctions ≡ s.auctions
  unfolding set_bid
  keeps_auctions = refl

  -- A bid may be stored under an id that was given out, over no other bid than one of its bidder.
  pub set_bid-IsConsistent : IsConsistent (set_bid b s)
  unfolding get_auction
  set_bid-IsConsistent = record {
    auctions_keyed = λ i a h. c.auctions_keyed i a (sym (ap (lookup i) keeps_auctions) ∙ h);
    bids_ordered = IsOrdered-after;
    bids_keyed = keyed_after;
    index_ordered = index-IsOrdered_after;
    indexed = IsIndexed-after;
    index_sound = sound_after;
  }
