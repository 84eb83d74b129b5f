-- ===== src/Types/Matching/OrderBook.antt =====
-- The order book (x/fundraising/types/utils.go): sorting and grouping keep the bids, and each group
-- holds the bids of its price.
use fundraising.Prelude.{
  All, Bool, Bool-cases, List, Option, [], arith, inl, inr, refl, reverse, some, ℕ, ◌++◌, ◌+◌, ◌<◌,
  ◌∷◌, ◌≡◌,
}
use fundraising.Prelude.Store.{Above, IsOrdered, Store, keys, lookup, sum_of}
use fundraising.Types.Matching.{insert_before, sort_slice}
use mathlib.Core.List.{reverse-cons}

module _ {ℓ} {A : Type ℓ} (f : A → ℕ) where
  abbrev pub total_by : List A → ℕ
  total_by [] = 0
  total_by (x ∷ xs) = f x + total_by xs

  pub total_by-append : (xs ys : List A) → total_by (xs ++ ys) ≡ total_by xs + total_by ys
  total_by-append [] ys = omega arith
  total_by-append (x ∷ xs) ys = omega (arith, total_by-append xs ys)

  pub total_by-reverse : (xs : List A) → total_by (reverse xs) ≡ total_by xs
  total_by-reverse [] = refl
  total_by-reverse (x ∷ xs) =
      rw reverse-cons (omega (arith, total_by-append (reverse xs) (x ∷ []), total_by-reverse xs))

  insert_before-total :
      (less : A → A → Bool) (x : A) (xs : List A)
      → total_by (insert_before less x xs) ≡ f x + total_by xs
  unfolding insert_before
  insert_before-total less x [] = refl
  insert_before-total less x (y ∷ ys) = ground (arith, insert_before-total less x ys)

  pub sort_slice-total :
      (less : A → A → Bool) (xs : List A) → total_by (sort_slice less xs) ≡ total_by xs
  unfolding sort_slice
  sort_slice-total less [] = refl
  sort_slice-total less (x ∷ xs) =
      omega (arith, insert_before-total less x (sort_slice less xs), sort_slice-total less xs)

module _ {ℓ κ} {A : Type ℓ} (P : A → Type κ) where
  pub All-append : (xs ys : List A) → All P xs → All P ys → All P (xs ++ ys)
  All-append [] ys p q = q
  All-append (x ∷ xs) ys p q = (p.0, All-append xs ys p.1 q)

  pub All-reverse : (xs : List A) → All P xs → All P (reverse xs)
  All-reverse [] p = p
  All-reverse (x ∷ xs) p =
      rw reverse-cons (All-append (reverse xs) (x ∷ []) (All-reverse xs p.1) (p.0, tt))

  insert_before-All :
      (less : A → A → Bool) (x : A) (xs : List A) → P x → All P xs → All P (insert_before less x xs)
  unfolding insert_before
  insert_before-All less x [] h p = (h, tt)
  insert_before-All less x (y ∷ ys) h p = elim (Bool-cases (less x y)) [
    | inl e ↦ rw e (h, p)
    | inr e ↦ rw e (p.0, insert_before-All less x ys h p.1)
  ]

  pub sort_slice-All : (less : A → A → Bool) (xs : List A) → All P xs → All P (sort_slice less xs)
  unfolding sort_slice
  sort_slice-All less [] p = p
  sort_slice-All less (x ∷ xs) p =
      insert_before-All less x (sort_slice less xs) p.0 (sort_slice-All less xs p.1)

pub All-map {ℓ κ μ} :
    {A : Type ℓ} {P : A → Type κ} {Q : A → Type μ} (xs : List A)
    → All P xs
    → ((x : A) → P x → Q x)
    → All Q xs
All-map [] a f = tt
All-map (x ∷ xs) a f = (f x a.0, All-map xs a.1 f)

-- Over an ordered table, going through the keys is going through the values.
module _ {V : Type 0} (g : Option V → ℕ) where
  lookup-tail :
      (j : ℕ) (v : V) (m : Store V) (ks : List ℕ)
      → All (λ (k : ℕ). j < k) ks
      → total_by (λ (k : ℕ). g (lookup k ((j, v) ∷ m))) ks ≡ total_by (λ (k : ℕ). g (lookup k m)) ks
  unfolding lookup
  lookup-tail j v m [] h = refl
  lookup-tail j v m (k ∷ ks) h = ground (arith, lookup-tail j v m ks h.1)

  keys-All : (j : ℕ) (m : Store V) → Above j m → All (λ (k : ℕ). j < k) (keys m)
  keys-All j [] a = tt
  keys-All j ((k, v) ∷ m) a = (a.0, keys-All j m a.1)

  pub total_by-keys :
      (m : Store V)
      → IsOrdered m
      → total_by (λ (k : ℕ). g (lookup k m)) (keys m) ≡ sum_of (λ v. g (some v)) m
  unfolding lookup
  total_by-keys [] o = refl
  total_by-keys ((j, v) ∷ m) o =
      ground (arith, lookup-tail j v m (keys m) (keys-All j m o.0), total_by-keys m o.1)
