-- ===== src/Keeper/Bids/Consistent.antt =====
-- The tables of bids (x/fundraising/keeper/store.go): the bids, their index by bidder, and the last
-- ids, and what holds between them.
use fundraising.Keeper.Frame.{IsFrame}
use fundraising.Keeper.State.{State}
use fundraising.Keeper.Tables.{get_auction, get_bid, get_last_bid_id, set_bid}
use fundraising.Prelude.{
  ==_iff, Bool-cases, [], ap, if◌then◌else◌, inl, inr, refl, some, subst, ℕ, ◌&&◌, ◌==◌, ◌∙◌, ◌≡◌,
  ◌≤◌,
}
use fundraising.Prelude.Store.{
  IsOrdered, insert, lookup, lookup-insert_inner, lookup_or, lookup_or-insert,
}
use fundraising.Types.{Auction, Bid}
use mathlib.Core.Path.{sym}

-- The index has an entry for a bidder, an auction and a bid.
abbrev pub IsIndexed : ℕ → ℕ → ℕ → State → Type 0
IsIndexed k a i s = lookup i (lookup_or [] a (lookup_or [] k s.bid_index)) ≡ some tt

-- Auctions and bids stand under their own ids, bids under ids that were given out; and the index has
-- an entry for a bidder exactly where a bid of this bidder stands.
pub record IsConsistent (s : State) : Type 0 where
  pub auctions_keyed : (i : ℕ) (a : Auction) → get_auction i s ≡ some a → a.id ≡ i
  pub bids_ordered : (a : ℕ) → IsOrdered (lookup_or [] a s.bids)
  pub bids_keyed :
      (a i : ℕ) (b : Bid)
      → get_bid a i s ≡ some b
      → (b.auction_id ≡ a) × (b.id ≡ i) × (i ≤ get_last_bid_id a s)
  pub index_ordered : (k : ℕ) → IsOrdered (lookup_or [] k s.bid_index)
  pub indexed : (a i : ℕ) (b : Bid) → get_bid a i s ≡ some b → IsIndexed b.bidder a i s
  pub index_sound :
      (k a i : ℕ) → IsIndexed k a i s → (b : Bid) × (get_bid a i s ≡ some b) × (b.bidder ≡ k)

-- A bid stands under its own ids.
pub get_bid_own :
    (k i : ℕ) (b : Bid) (s : State)
    → IsConsistent s
    → get_bid k i s ≡ some b
    → get_bid b.auction_id b.id s ≡ some b
get_bid_own k i b s c h =
    let (p, q, _) = c.bids_keyed k i b h in
    subst (λ (a : ℕ). get_bid a b.id s ≡ some b) (sym p)
      (subst (λ (j : ℕ). get_bid k j s ≡ some b) (sym q) h)

-- What an action leaves alone that has to do with auctions only.
pub record KeepsBids (s t : State) : Type 0 where
  pub same_bids : t.bids ≡ s.bids
  pub same_index : t.bid_index ≡ s.bid_index
  pub same_last_ids : t.last_bid_ids ≡ s.last_bid_ids
  pub still_keyed :
      ((i : ℕ) (a : Auction) → get_auction i s ≡ some a → a.id ≡ i)
      → (i : ℕ) (a : Auction) → get_auction i t ≡ some a
      → a.id ≡ i

pub KeepsBids-IsFrame : IsFrame KeepsBids
KeepsBids-IsFrame = record {
  same = λ s. record {
    same_bids = refl;
    same_index = refl;
    same_last_ids = refl;
    still_keyed = λ h. h;
  };
  then_also = λ s t u p q. record {
    same_bids = q.same_bids ∙ p.same_bids;
    same_index = q.same_index ∙ p.same_index;
    same_last_ids = q.same_last_ids ∙ p.same_last_ids;
    still_keyed = λ h. q.still_keyed (p.still_keyed h);
  };
}

pub KeepsBids-IsConsistent : (s t : State) → KeepsBids s t → IsConsistent s → IsConsistent t
unfolding get_bid get_last_bid_id
KeepsBids-IsConsistent s t k c = record {
  auctions_keyed = k.still_keyed c.auctions_keyed;
  bids_ordered = λ a. rw k.same_bids (c.bids_ordered a);
  bids_keyed = λ a i b h. rw k.same_last_ids (c.bids_keyed a i b (rw k.same_bids at h));
  index_ordered = λ j. rw k.same_index (c.index_ordered j);
  indexed = λ a i b h. rw k.same_index (c.indexed a i b (rw k.same_bids at h));
  index_sound = λ j a i h. rw k.same_bids (c.index_sound j a i (rw k.same_index at h));
}

-- Reading the two tables after a bid is stored.
module _ (b : Bid) (s : State) (a i : ℕ) where
  pub get_bid-set_bid_at :
      get_bid a i (set_bid b s) ≡ (if a == b.auction_id && i == b.id then some b else get_bid a i s)
  unfolding get_bid set_bid
  get_bid-set_bid_at = lookup-insert_inner a b.auction_id i b.id b s.bids

  pub index-set_bid :
      (k : ℕ)
      → lookup i (lookup_or [] a (lookup_or [] k (set_bid b s).bid_index)) ≡ (
          if k == b.bidder && (a == b.auction_id && i == b.id)
          then some tt
          else lookup i (lookup_or [] a (lookup_or [] k s.bid_index)))
  unfolding set_bid
  index-set_bid k =
      let mine = lookup_or [] b.bidder s.bid_index in
      let added = insert b.auction_id (insert b.id tt (lookup_or [] b.auction_id mine)) mine in
      rw (lookup_or-insert [] k b.bidder added s.bid_index) (elim (Bool-cases (k == b.bidder)) [
        | inl e ↦
            rw (e, lookup-insert_inner a b.auction_id i b.id tt mine)
              (ap
                (λ (x : ℕ).
                  if a == b.auction_id && i == b.id
                  then some tt
                  else lookup i (lookup_or [] a (lookup_or [] x s.bid_index)))
                (sym ((==_iff k b.bidder).0 e)))
        | inr e ↦ rw e refl
      ])
