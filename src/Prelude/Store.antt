-- ===== src/Prelude/Store.antt =====
-- Ordered tables: a key-value store under one key prefix, read back in ascending order of keys, and
-- a Go map whose keys are collected and sorted before they are used.
use fundraising.Prelude.{
  ==_iff, Bool, Bool-cases, List, Option, [], ap, arith, false, if◌then◌else◌, inl, inr, ltb, none,
  refl, some, true, ℕ, ◌&&◌, ◌+◌, ◌<◌, ◌==◌, ◌∙◌, ◌∷◌, ◌≡◌, ◌⊎◌,
}
use mathlib.Core.Path.{sym}

-- The entries in ascending order of keys.
abbrev pub Store {ℓ} : Type ℓ → Type ℓ
Store V = List (ℕ × V)

module _ {ℓ} {V : Type ℓ} where
  unfoldable pub lookup : ℕ → Store V → Option V
  lookup k [] = none
  lookup k ((j, v) ∷ m) = if k == j then some v else lookup k m

  unfoldable pub insert : ℕ → V → Store V → Store V
  insert k v [] = (k, v) ∷ []
  insert k v ((j, w) ∷ m) =
      if k == j then (k, v) ∷ m else if ltb k j then (k, v) ∷ (j, w) ∷ m else (j, w) ∷ insert k v m

  abbrev pub lookup_or : V → ℕ → Store V → V
  lookup_or d k m = elim (lookup k m) [ none ↦ d | some v ↦ v ]

  abbrev pub values : Store V → List V
  values [] = []
  values ((j, v) ∷ m) = v ∷ values m

  abbrev pub keys : Store V → List ℕ
  keys [] = []
  keys ((j, v) ∷ m) = j ∷ keys m

  -- Every key of the table is above the bound.
  abbrev pub Above : ℕ → Store V → Type 0
  Above n [] = Unit {0}
  Above n ((j, v) ∷ m) = (n < j) × Above n m

  abbrev pub IsOrdered : Store V → Type 0
  IsOrdered [] = Unit {0}
  IsOrdered ((j, v) ∷ m) = Above j m × IsOrdered m

  pub Above-mono : (i j : ℕ) (m : Store V) → i < j → Above j m → Above i m
  Above-mono i j [] h a = tt
  Above-mono i j ((k, v) ∷ m) h a = (omega arith, Above-mono i j m h a.1)

  pub lookup-Above : (k : ℕ) (m : Store V) → Above k m → lookup k m ≡ none
  unfolding lookup
  lookup-Above k [] a = refl
  lookup-Above k ((j, v) ∷ m) a = ground (arith, lookup-Above k m a.1)

  pub lookup-insert :
      (j k : ℕ) (v : V) (m : Store V)
      → lookup j (insert k v m) ≡ (if j == k then some v else lookup j m)
  unfolding lookup insert
  lookup-insert j k v [] = refl
  lookup-insert j k v ((i, w) ∷ m) = ground (arith, lookup-insert j k v m)

  insert-Above : (n k : ℕ) (v : V) (m : Store V) → n < k → Above n m → Above n (insert k v m)
  unfolding insert
  insert-Above n k v [] h a = (h, tt)
  insert-Above n k v ((j, w) ∷ m) h a = ground (arith, insert-Above n k v m h a.1)

  pub insert-IsOrdered : (k : ℕ) (v : V) (m : Store V) → IsOrdered m → IsOrdered (insert k v m)
  unfolding insert
  insert-IsOrdered k v [] o = (tt, tt)
  insert-IsOrdered k v ((j, w) ∷ m) o =
      ground (arith, insert-IsOrdered k v m o.1, insert-Above j k v m, Above-mono k j m)

-- A sum of a measure over the values of a table.
module _ {ℓ} {V : Type ℓ} (f : V → ℕ) where
  abbrev pub sum_of : Store V → ℕ
  sum_of [] = 0
  sum_of ((j, v) ∷ m) = f v + sum_of m

  pub sum_of-insert_new :
      (k : ℕ) (v : V) (m : Store V) → lookup k m ≡ none → sum_of (insert k v m) ≡ sum_of m + f v
  unfolding lookup insert
  sum_of-insert_new k v [] e = omega arith
  sum_of-insert_new k v ((j, w) ∷ m) e = ground (arith, sum_of-insert_new k v m)

  pub sum_of-insert_old :
      (k : ℕ) (v w : V) (m : Store V)
      → IsOrdered m
      → lookup k m ≡ some w
      → sum_of (insert k v m) + f w ≡ sum_of m + f v
  unfolding lookup insert
  sum_of-insert_old k v w [] o e = cc
  sum_of-insert_old k v w ((j, u) ∷ m) o e =
      ground (arith, sum_of-insert_old k v w m o.1, lookup-Above k m, Above-mono k j m)

  -- One law for both cases: the old entry leaves the sum, if there is one, and the new one joins it.
  pub sum_of-insert :
      (k : ℕ) (v : V) (m : Store V)
      → IsOrdered m
      → sum_of (insert k v m) + (elim (lookup k m) [ none ↦ 0 | some w ↦ f w ]) ≡ sum_of m + f v
  sum_of-insert k v m o = go (lookup k m) refl
    where
      go :
          (r : Option V)
          → lookup k m ≡ r
          → sum_of (insert k v m) + (elim r [ none ↦ 0 | some w ↦ f w ]) ≡ sum_of m + f v
      go none e = omega (arith, sum_of-insert_new k v m e)
      go (some w) e = sum_of-insert_old k v w m o e

-- Tables of tables: an entry of an inner table, after one is written.
module _ {ℓ} {V : Type ℓ} where
  pub lookup_or-insert :
      (d : V) (j k : ℕ) (v : V) (m : Store V)
      → lookup_or d j (insert k v m) ≡ (if j == k then v else lookup_or d j m)
  lookup_or-insert d j k v m =
      ap (λ (r : Option V). elim r [ none ↦ d | some w ↦ w ]) (lookup-insert j k v m)
      ∙ if_or (j == k)
    where
      if_or :
          (c : Bool)
          → (elim (if c then some v else lookup j m) [ none ↦ d | some w ↦ w ])
            ≡ (if c then v else lookup_or d j m)
      if_or true = refl
      if_or false = refl

module _ {ℓ} {V : Type ℓ} where
  pub lookup-insert_inner :
      (a c i j : ℕ) (v : V) (m : Store (Store V))
      → lookup i (lookup_or [] a (insert c (insert j v (lookup_or [] c m)) m))
        ≡ (if a == c && i == j then some v else lookup i (lookup_or [] a m))
  lookup-insert_inner a c i j v m =
      rw (lookup_or-insert [] a c (insert j v (lookup_or [] c m)) m) (elim (Bool-cases (a == c)) [
        | inl e ↦
            rw (e, lookup-insert i j v (lookup_or [] c m))
              (ap (λ (x : ℕ). if i == j then some v else lookup i (lookup_or [] x m))
                (sym ((==_iff a c).0 e)))
        | inr e ↦ rw e refl
      ])

-- An entry is in the list.
abbrev pub Has : {V : Type 0} → V → List V → Type 0
Has v [] = ⊥
Has v (x ∷ xs) = (x ≡ v) ⊎ Has v xs
