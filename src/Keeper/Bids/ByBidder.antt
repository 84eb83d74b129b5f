-- ===== src/Keeper/Bids/ByBidder.antt =====
-- The bids of a bidder as `IterateBidsByBidder` (x/fundraising/keeper/store.go) reads them, through
-- the index.
use fundraising.Keeper.Bids.Consistent.{IsConsistent, get_bid_own}
use fundraising.Keeper.State.{State}
use fundraising.Keeper.Tables.{bid_or_zero, get_bid, get_bids_by_bidder, index_auctions, index_bids}
use fundraising.Prelude.{
  ==_iff, All, Bool, Bool-cases, List, Option, [], ap, arith, false, if◌then◌else◌, inl, inr, none,
  refl, some, subst, true, ℕ, ◌++◌, ◌==◌, ◌∙◌, ◌∷◌, ◌≡◌,
}
use fundraising.Prelude.Store.{Above, Has, IsOrdered, Store, lookup, lookup-Above, lookup_or}
use fundraising.Sdk.{Address}
use fundraising.Types.{Bid}
use fundraising.Types.Matching.OrderBook.{All-append}
use mathlib.Core.Path.{sym}

Has-append_left : (b : Bid) (xs ys : List Bid) → Has b xs → Has b (xs ++ ys)
Has-append_left b [] ys h = elim h [ ]
Has-append_left b (x ∷ xs) ys (inl e) = inl e
Has-append_left b (x ∷ xs) ys (inr h) = inr (Has-append_left b xs ys h)

Has-append_right : (b : Bid) (xs ys : List Bid) → Has b ys → Has b (xs ++ ys)
Has-append_right b [] ys h = h
Has-append_right b (x ∷ xs) ys h = inr (Has-append_right b xs ys h)

-- Looking up in a table of tables that has one more entry in front.
module _ (x i a : ℕ) (m : Store (Unit {0})) (ms : Store (Store (Unit {0}))) where
  lookup_front :
      lookup i (lookup_or [] x ((a, m) ∷ ms))
      ≡ (if x == a then lookup i m else lookup i (lookup_or [] x ms))
  unfolding lookup
  lookup_front = go (x == a) (lookup x ms)
    where
      go :
          (c : Bool) (o : Option (Store (Unit {0})))
          → lookup i (elim (if c then some m else o) [ none ↦ [] | some w ↦ w ])
            ≡ (if c then lookup i m else lookup i (elim o [ none ↦ [] | some w ↦ w ]))
      go true o = refl
      go false o = refl

  no_entry :
      (r : Option (Store (Unit {0})))
      → r ≡ none
      → lookup i (elim r [ none ↦ [] | some w ↦ w ]) ≡ some tt
      → ⊥
  unfolding lookup
  no_entry none h g = cc
  no_entry (some w) h g = cc

  pub lookup_there :
      Above a ms
      → lookup i (lookup_or [] x ms) ≡ some tt
      → lookup i (lookup_or [] x ((a, m) ∷ ms)) ≡ some tt
  lookup_there o e = elim (Bool-cases (x == a)) [
    | inl f ↦ absurd (
        no_entry (lookup x ms)
          (subst (λ j. lookup j ms ≡ none) (sym ((==_iff x a).0 f)) (lookup-Above a ms o)) e)
    | inr f ↦
        lookup_front
        ∙ ap (λ (t : Bool). if t then lookup i m else lookup i (lookup_or [] x ms)) f
        ∙ e
  ]

pub lookup_here :
    (a i : ℕ) (m : Store (Unit {0})) (ms : Store (Store (Unit {0})))
    → lookup i m ≡ some tt
    → lookup i (lookup_or [] a ((a, m) ∷ ms)) ≡ some tt
lookup_here a i m ms e =
    lookup_front a i a m ms
    ∙ ap (λ (t : Bool). if t then lookup i m else lookup i (lookup_or [] a ms))
        ((==_iff a a).1 refl)
    ∙ e

module _ (s : State) (P : Bid → Type 0) where
  All-index_bids :
      (a : ℕ) (m : Store (Unit {0}))
      → ((i : ℕ) → lookup i m ≡ some tt → P (bid_or_zero (get_bid a i s)))
      → All P (index_bids s a m)
  unfolding index_bids lookup
  All-index_bids a [] h = tt
  All-index_bids a ((j, u) ∷ m) h =
      (h j (ground arith), All-index_bids a m (λ i e. h i (ground arith)))

  All-index_auctions :
      (ms : Store (Store (Unit {0})))
      → IsOrdered ms
      → ((a i : ℕ) → lookup i (lookup_or [] a ms) ≡ some tt → P (bid_or_zero (get_bid a i s)))
      → All P (index_auctions s ms)
  unfolding index_auctions
  All-index_auctions [] o h = tt
  All-index_auctions ((a, m) ∷ ms) o h =
      All-append P (index_bids s a m) (index_auctions s ms)
        (All-index_bids a m (λ i e. h a i (lookup_here a i m ms e)))
        (All-index_auctions ms o.1 (λ x i e. h x i (lookup_there x i a m ms o.0 e)))

module _ (s : State) (b : Bid) where
  Has-index_bids :
      (a i : ℕ) (m : Store (Unit {0}))
      → get_bid a i s ≡ some b
      → lookup i m ≡ some tt
      → Has b (index_bids s a m)
  unfolding index_bids lookup
  Has-index_bids a i [] g h = cc
  Has-index_bids a i ((j, u) ∷ m) g h = elim (Bool-cases (i == j)) [
    | inl e ↦ inl (ap bid_or_zero (subst (λ x. get_bid a x s ≡ some b) ((==_iff i j).0 e) g))
    | inr e ↦ inr (Has-index_bids a i m g (rw e at h))
  ]

  Has-index_auctions :
      (a i : ℕ) (ms : Store (Store (Unit {0})))
      → get_bid a i s ≡ some b
      → lookup i (lookup_or [] a ms) ≡ some tt
      → Has b (index_auctions s ms)
  unfolding index_auctions lookup
  Has-index_auctions a i [] g h = cc
  Has-index_auctions a i ((x, m) ∷ ms) g h' =
      let h : (if a == x then lookup i m else lookup i (lookup_or [] a ms)) ≡ some tt =
        sym (lookup_front a i x m ms) ∙ h' in
      elim (Bool-cases (a == x)) [
        | inl e ↦ Has-append_left b (index_bids s x m) (index_auctions s ms) (
            Has-index_bids x i m (subst (λ y. get_bid y i s ≡ some b) ((==_iff a x).0 e) g)
              (rw e at h))
        | inr e ↦
            Has-append_right b (index_bids s x m) (index_auctions s ms)
              (Has-index_auctions a i ms g (rw e at h))
      ]

-- In consistent tables, reading the bids of a bidder through the index gives exactly the bids of the
-- bidder that stand in the table: each bid that is read stands under its own ids and is the bidder's, and
-- each bid that stands there is among those that are read for its bidder.
pub get_bids_by_bidder_exact :
    (s : State) (k : Address)
    → IsConsistent s
    → All (λ b. (get_bid b.auction_id b.id s ≡ some b) × (b.bidder ≡ k)) (get_bids_by_bidder k s)
      × ((a i : ℕ) (b : Bid)
          → get_bid a i s ≡ some b
          → b.bidder ≡ k
          → Has b (get_bids_by_bidder k s))
unfolding get_bids_by_bidder
get_bids_by_bidder_exact s k c = (
  All-index_auctions s _ (lookup_or [] k s.bid_index) (c.index_ordered k) (λ a i h.
      let (b, g, e) = c.index_sound k a i h in
      subst
        (λ o.
          (get_bid (bid_or_zero o).auction_id (bid_or_zero o).id s ≡ some (bid_or_zero o))
          × ((bid_or_zero o).bidder ≡ k))
        (sym g) (get_bid_own a i b s c g, e)),
  λ a i b g e. Has-index_auctions s b a i (lookup_or [] k s.bid_index) g (
      subst (λ j. lookup i (lookup_or [] a (lookup_or [] j s.bid_index)) ≡ some tt) e
        (c.indexed a i b g)),
)
