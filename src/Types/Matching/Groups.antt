-- ===== src/Types/Matching/Groups.antt =====
-- The groups of the order book (x/fundraising/types/utils.go): which bids they hold, and what a
-- measure of the bids adds up to over the prices.
use fundraising.Prelude.{
  ==_iff, All, Bool-cases, List, Option, [], arith, inl, inr, ltb, none, refl, some, subst, ℕ, ◌++◌,
  ◌+◌, ◌==◌, ◌∷◌, ◌≡◌,
}
use fundraising.Prelude.Store.{
  IsOrdered, Store, insert, insert-IsOrdered, keys, lookup, lookup-insert, lookup_or, sum_of,
  sum_of-insert,
}
use fundraising.Types.{Bid}
use fundraising.Types.Matching.{bid_less, bids_by_price, group_by_price, sort_bids, sort_slice}
use fundraising.Types.Matching.OrderBook.{
  All-append, All-reverse, sort_slice-All, sort_slice-total, total_by, total_by-append,
  total_by-keys, total_by-reverse,
}
use mathlib.Core.Path.{sym}

module _ {κ} (Q : Bid → Type κ) where
  -- Every group holds bids of its price, and such as `Q` admits.
  abbrev pub HoldsGroups : Store (List Bid) → Type κ
  HoldsGroups m = (q : ℕ) → All (λ b. (b.price ≡ q) × Q b) (lookup_or [] q m)

  group_by_price-HoldsGroups :
      (bs : List Bid) (m : Store (List Bid))
      → All Q bs
      → HoldsGroups m
      → HoldsGroups (group_by_price bs m)
  unfolding group_by_price
  group_by_price-HoldsGroups [] m p h = h
  group_by_price-HoldsGroups (b ∷ bs) m p h =
      group_by_price-HoldsGroups bs (insert b.price group m) p.1 next
    where
      group : List Bid
      group = lookup_or [] b.price m ++ b ∷ []

      AtPrice : ℕ → Option (List Bid) → Type κ
      AtPrice q r = All (λ c. (c.price ≡ q) × Q c) (elim r [ none ↦ [] | some v ↦ v ])

      added : (q : ℕ) (e : q ≡ b.price) → AtPrice q (some group)
      added q e =
          subst (λ (x : ℕ). AtPrice x (some group)) (sym e)
            (All-append (λ c. (c.price ≡ b.price) × Q c) (lookup_or [] b.price m) (b ∷ [])
              (h b.price) ((refl, p.0), tt))

      next : HoldsGroups (insert b.price group m)
      next q =
          subst (AtPrice q) (sym (lookup-insert q b.price group m))
            (elim (Bool-cases (q == b.price)) [
              | inl e ↦ rw e (added q ((==_iff q b.price).0 e))
              | inr e ↦ rw e (h q)
            ])

  pub bids_by_price-HoldsGroups : (bs : List Bid) → All Q bs → HoldsGroups (bids_by_price bs).1
  unfolding bids_by_price sort_bids lookup
  bids_by_price-HoldsGroups bs p =
      group_by_price-HoldsGroups (sort_slice bid_less bs) [] (sort_slice-All Q bid_less bs p)
        (λ q. tt)

module _ (P : ℕ → Type 0) where
  insert-keys-All :
      {V : Type 0} (k : ℕ) (v : V) (m : Store V)
      → P k
      → All P (keys m)
      → All P (keys (insert k v m))
  unfolding insert
  insert-keys-All k v [] h a = (h, tt)
  insert-keys-All k v ((j, w) ∷ m) h a = elim (Bool-cases (k == j)) [
    | inl e ↦ rw e (h, a.1)
    | inr e ↦ elim (Bool-cases (ltb k j)) [
      | inl l ↦ rw (e, l) (h, a)
      | inr l ↦ rw (e, l) (a.0, insert-keys-All k v m h a.1)
    ]
  ]

  group_by_price-keys :
      (bs : List Bid) (m : Store (List Bid))
      → All (λ b. P b.price) bs
      → All P (keys m)
      → All P (keys (group_by_price bs m))
  unfolding group_by_price
  group_by_price-keys [] m p a = a
  group_by_price-keys (b ∷ bs) m p a =
      group_by_price-keys bs _ p.1 (insert-keys-All b.price _ m p.0 a)

  -- What holds of every bid's price holds of every listed price.
  pub bids_by_price-prices : (bs : List Bid) → All (λ b. P b.price) bs → All P (bids_by_price bs).0
  unfolding bids_by_price sort_bids
  bids_by_price-prices bs p = All-reverse P (keys (group_by_price (sort_slice bid_less bs) [])) (
      group_by_price-keys (sort_slice bid_less bs) []
        (sort_slice-All (λ b. P b.price) bid_less bs p) tt)

module _ (f : Bid → ℕ) where
  group_by_price-total :
      (bs : List Bid) (m : Store (List Bid))
      → IsOrdered m
      → sum_of (total_by f) (group_by_price bs m) ≡ sum_of (total_by f) m + total_by f bs
  unfolding group_by_price
  group_by_price-total [] m o = omega arith
  group_by_price-total (b ∷ bs) m o =
      let group = lookup_or [] b.price m ++ b ∷ [] in
      ground (
        arith,
        group_by_price-total bs (insert b.price group m) (insert-IsOrdered b.price group m o),
        sum_of-insert (total_by f) b.price group m o,
        total_by-append f (lookup_or [] b.price m) (b ∷ []),
      )

  group_by_price-IsOrdered :
      (bs : List Bid) (m : Store (List Bid)) → IsOrdered m → IsOrdered (group_by_price bs m)
  unfolding group_by_price
  group_by_price-IsOrdered [] m o = o
  group_by_price-IsOrdered (b ∷ bs) m o =
      group_by_price-IsOrdered bs _ (insert-IsOrdered b.price _ m o)

  -- Going through the groups of all listed prices is going through all bids.
  pub bids_by_price-total :
      (bs : List Bid)
      → total_by (λ (q : ℕ). total_by f (lookup_or [] q (bids_by_price bs).1)) (bids_by_price bs).0
        ≡ total_by f bs
  unfolding bids_by_price sort_bids
  bids_by_price-total bs =
      let sorted = sort_slice bid_less bs in
      let m = group_by_price sorted [] in
      let o = group_by_price-IsOrdered sorted [] tt in
      let g : Option (List Bid) → ℕ = λ r. total_by f (elim r [ none ↦ [] | some v ↦ v ]) in
      omega (
        arith,
        total_by-reverse (λ (q : ℕ). g (lookup q m)) (keys m),
        total_by-keys g m o,
        group_by_price-total sorted [] tt,
        sort_slice-total f bid_less bs,
      )
