-- ===== src/Sdk/Pages.antt =====
-- Paginated queries of the SDK, and how a query answers.
use fundraising.Prelude.{Bool, List, [], length, true, ℕ, ◌∷◌, ◌≡◌}
use fundraising.Prelude.Store.{Has}

-- The codes that queries use; `other` is an error of another kind, before it is wrapped.
pub data Code : Type 0 where
  invalid_argument no_such internal other : Code

pub data Answer (A : Type 0) : Type 0 where
  answer : A → Answer A
  refused : Code → Answer A

abbrev pub and_answer : {A B : Type 0} → Answer A → (A → Answer B) → Answer B
and_answer (answer a) f = f a
and_answer (refused c) f = refused c

-- A callback gets an entry, whether it is on the page, and what was collected; it says whether the
-- entry is a hit.
abbrev pub Callback : Type 0 → Type 0 → Type 0
Callback V W = V → Bool → List W → Answer (Bool × List W)

abbrev pub run_calls : {V W : Type 0} → Callback V W → List (V × Bool) → List W → Answer (List W)
run_calls f [] out = answer out
run_calls f ((v, on_page) ∷ calls) out = and_answer (f v on_page out) (λ r. run_calls f calls r.1)

abbrev pub on_page : {V : Type 0} → List V → List (V × Bool)
on_page [] = []
on_page (v ∷ vs) = (v, true) ∷ on_page vs

pub record Pages : Type 1 where
  pub PageRequest : Type 0
  pub PageResponse : Type 0
  -- `FilteredPaginate`, over the entries of a store in the order of their keys.
  pub filtered_paginate :
      {V W : Type 0} → List V → PageRequest → Callback V W → Answer (PageResponse × List W)
  -- The page begins with the first entry, and its limit is at least this number.
  pub covers : PageRequest → ℕ → Bool
  -- The callback is called on entries of the store.
  pub paginate_calls :
      {V W : Type 0} (entries : List V) (req : PageRequest) (f : Callback V W) (r : PageResponse)
      (out : List W)
      → filtered_paginate entries req f ≡ answer (r, out)
      → (calls : List (V × Bool)) × ((v : V) (b : Bool) → Has (v, b) calls → Has v entries)
        × (run_calls f calls [] ≡ answer out)
  -- A page that covers all entries has all of them on it.
  pub paginate_whole :
      {V W : Type 0} (entries : List V) (req : PageRequest) (f : Callback V W) (out : List W)
      → covers req (length entries) ≡ true
      → run_calls f (on_page entries) [] ≡ answer out
      → (r : PageResponse) × (filtered_paginate entries req f ≡ answer (r, out))
