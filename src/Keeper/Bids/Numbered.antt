-- ===== src/Keeper/Bids/Numbered.antt =====
-- The tables of bids after a bid has got its id (x/fundraising/keeper/bid.go), and after the writes
-- before it is stored.
use fundraising.Keeper.Action.{Action, continue_with}
use fundraising.Keeper.Bids.Consistent.{
  IsConsistent, KeepsBids, KeepsBids-IsConsistent, KeepsBids-IsFrame,
}
use fundraising.Keeper.Bids.Stored.{set_bid-IsConsistent}
use fundraising.Keeper.Frame.{Relates}
use fundraising.Keeper.State.{State}
use fundraising.Keeper.Tables.{get_auction, get_bid, get_last_bid_id, set_bid}
use fundraising.Prelude.{
  ==_iff, Bool-cases, Option, ap, arith, if◌then◌else◌, inl, inr, refl, some, subst, ℕ, ◌%◌, ◌+◌,
  ◌<◌, ◌==◌, ◌^◌, ◌∙◌, ◌≡◌, ◌≤◌,
}
use fundraising.Prelude.Store.{insert, lookup_or, lookup_or-insert}
use fundraising.Sdk.Outcome.{Result, err, ok, panic}
use fundraising.Types.{Bid}
use mathlib.Core.Path.{sym}

-- What a call leaves of the tables of bids is known up to its end, and what follows keeps them.
pub after_keeps :
    {A B : Type 0} (s t : State) (m : Action A) (f : A → Action B)
    → IsConsistent s
    → KeepsBids s t
    → Relates KeepsBids m
    → ((a : A) (u : State) → m t ≡ (ok a, u) → KeepsBids s u → IsConsistent (f a u).1)
    → IsConsistent (continue_with f (m t)).1
after_keeps s t m f c k h next = go (m t) refl (KeepsBids-IsFrame.then_also s t (m t).1 k (h t))
  where
    go : (r : Result _ × State) → m t ≡ r → KeepsBids s r.1 → IsConsistent (continue_with f r).1
    go (ok a, u) e g = next a u e g
    go (err x, u) e g = KeepsBids-IsConsistent s u g c
    go (panic, u) e g = KeepsBids-IsConsistent s u g c

-- Storing a bid after writes that have nothing to do with bids.
pub store_after :
    (b : Bid) (s t : State)
    → IsConsistent s
    → KeepsBids s t
    → b.id ≤ get_last_bid_id b.auction_id s
    → ((old : Bid) → get_bid b.auction_id b.id s ≡ some old → old.bidder ≡ b.bidder)
    → IsConsistent (set_bid b t)
unfolding get_bid get_last_bid_id
store_after b s t c k le h =
    set_bid-IsConsistent b t (KeepsBids-IsConsistent s t k c) (rw k.same_last_ids le)
      (λ old e. h old (rw k.same_bids at e))

module _ (k : ℕ) (s : State) (c : IsConsistent s) (room : get_last_bid_id k s + 1 < 2 ^ 64) where
  abbrev pub numbered : State
  numbered = record s {
    last_bid_ids = insert k ((get_last_bid_id k s + 1) % 2 ^ 64) s.last_bid_ids;
  }

  last_id-numbered :
      (a : ℕ)
      → get_last_bid_id a numbered
        ≡ (if a == k then get_last_bid_id k s + 1 else get_last_bid_id a s)
  unfolding get_last_bid_id
  last_id-numbered a =
      let old : ℕ = lookup_or 0 k s.last_bid_ids in
      lookup_or-insert 0 a k ((old + 1) % 2 ^ 64) s.last_bid_ids
      ∙ ap (λ x. if a == k then x else lookup_or 0 a s.last_bid_ids) (omega arith)

  last_id_grows : (a i : ℕ) → i ≤ get_last_bid_id a s → i ≤ get_last_bid_id a numbered
  last_id_grows a i le = elim (Bool-cases (a == k)) [
    | inl e ↦
        let same : a ≡ k = (==_iff a k).0 e in
        let le' = subst (λ x. i ≤ get_last_bid_id x s) same le in
        rw (last_id-numbered a, e) (omega arith)
    | inr e ↦ rw (last_id-numbered a, e) le
  ]

  pub numbered-IsConsistent : IsConsistent numbered
  unfolding get_auction get_bid
  numbered-IsConsistent = record {
    auctions_keyed = c.auctions_keyed;
    bids_ordered = c.bids_ordered;
    bids_keyed = λ a i b h. let (p, q, le) = c.bids_keyed a i b h in (p, q, last_id_grows a i le);
    index_ordered = c.index_ordered;
    indexed = c.indexed;
    index_sound = c.index_sound;
  }

  -- The id that was given out is new.
  module _ (x : Bid) (p : x.auction_id ≡ k) (q : x.id ≡ (get_last_bid_id k s + 1) % 2 ^ 64) where
    is_next : x.id ≡ get_last_bid_id k s + 1
    is_next = q ∙ (omega arith)

    pub given_out : x.id ≤ get_last_bid_id x.auction_id numbered
    given_out =
        subst (λ a. x.id ≤ get_last_bid_id a numbered) (sym p)
          (rw (last_id-numbered k, (==_iff k k).1 refl, is_next) (omega arith))

    pub is_new : (old : Bid) → get_bid x.auction_id x.id numbered ≡ some old → ⊥
    unfolding get_bid
    is_new old h =
        let h' : get_bid k x.id s ≡ some old = subst (λ a. get_bid a x.id s ≡ some old) p h in
        let (_, _, le) = c.bids_keyed k x.id old h' in let e = is_next in omega arith

pub last_id_kept : (s t : State) (a : ℕ) → KeepsBids s t → get_last_bid_id a t ≡ get_last_bid_id a s
unfolding get_last_bid_id
last_id_kept s t a k = ap (lookup_or 0 a) k.same_last_ids

pub same_bidder : (o : Option Bid) (x y : Bid) → o ≡ some x → o ≡ some y → x.bidder ≡ y.bidder
same_bidder o x y h g = let eq : x ≡ y = cc in ap (λ b. b.bidder) eq
