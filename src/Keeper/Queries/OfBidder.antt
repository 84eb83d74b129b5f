-- ===== src/Keeper/Queries/OfBidder.antt =====
-- `Bids` of x/fundraising/keeper/grpc_query.go, for a bidder.
use Prim.Native.String.{String}
use fundraising.Keeper.Bids.ByBidder.{lookup_here, lookup_there}
use fundraising.Keeper.Bids.Consistent.{IsConsistent, get_bid_own}
use fundraising.Keeper.Queries.{
  QueryBidsRequest, accept, bids, bids_by, bids_by_bidder_callback, entry_keys, index_keys,
  query_bids_by_bidder, refuse_if, same_bool, skip, with_found, wrap_internal,
}
use fundraising.Keeper.State.{State}
use fundraising.Keeper.Tables.{bid_or_zero, get_auction, get_bid}
use fundraising.Prelude.{
  All, Bool, Bool-cases, List, Option, [], ap, arith, false, if◌then◌else◌, inl, inr, none, not,
  refl, some, subst, true, ℕ, ◌==◌, ◌∷◌, ◌≡◌,
}
use fundraising.Prelude.Store.{Has, IsOrdered, Store, lookup, lookup_or}
use fundraising.Sdk.{Address}
use fundraising.Sdk.Accounts.{Accounts}
use fundraising.Sdk.Pages.{
  Answer, Callback, Code, Pages, and_answer, answer, other, refused, run_calls,
}
use fundraising.Types.{Auction, Bid}
use fundraising.Types.Matching.OrderBook.{All-append}
use fundraising.Types.Names.{same_text}
use mathlib.Core.Path.{sym}

module _ (P : ℕ → ℕ → Type 0) where
  entry_keys-All :
      (a : ℕ) (m : Store (Unit {0}))
      → ((i : ℕ) → lookup i m ≡ some tt → P a i)
      → All (λ k. P k.0 k.1) (entry_keys a m)
  unfolding lookup
  entry_keys-All a [] h = tt
  entry_keys-All a ((j, u) ∷ m) h =
      (h j (ground arith), entry_keys-All a m (λ i e. h i (ground arith)))

  index_keys-All :
      (ms : Store (Store (Unit {0})))
      → IsOrdered ms
      → ((a i : ℕ) → lookup i (lookup_or [] a ms) ≡ some tt → P a i)
      → All (λ k. P k.0 k.1) (index_keys ms)
  index_keys-All [] o h = tt
  index_keys-All ((a, m) ∷ ms) o h =
      All-append (λ k. P k.0 k.1) (entry_keys a m) (index_keys ms)
        (entry_keys-All a m (λ i e. h a i (lookup_here a i m ms e)))
        (index_keys-All ms o.1 (λ x i e. h x i (lookup_there x i a m ms o.0 e)))

Has-All : {V : Type 0} (P : V → Type 0) (v : V) (vs : List V) → All P vs → Has v vs → P v
Has-All P v [] h e = elim e [ ]
Has-All P v (x ∷ xs) h (inl e) = subst P e h.0
Has-All P v (x ∷ xs) h (inr e) = Has-All P v xs h.1 e

answer-inj : {A : Type 0} {a b : A} → answer a ≡ answer b → a ≡ b
answer-inj e = cc

answer_refused : {A : Type 0} {a : A} {c : Code} → answer a ≡ refused c → ⊥
answer_refused e = cc

-- What every call adds holds of all that is collected.
run_calls-All :
    {V W : Type 0} (Q : V → Type 0) (P : W → Type 0) (f : Callback V W)
    → ((v : V) (b hit : Bool) (out out' : List W)
        → Q v
        → All P out
        → f v b out ≡ answer (hit, out')
        → All P out')
    → (calls : List (V × Bool)) (out out' : List W) → ((v : V) (b : Bool) → Has (v, b) calls → Q v)
    → All P out
    → run_calls f calls out ≡ answer out'
    → All P out'
run_calls-All Q P f step [] out out' q h e = subst (All P) (answer-inj e) h
run_calls-All {W = W} Q P f step ((v, b) ∷ calls) out out' q h e =
    go (f v b out) refl e
      (λ mid m g. run_calls-All Q P f step calls mid out' (λ w c z. q w c (inr z)) m g)
  where
    go :
        (r : Answer (Bool × List W))
        → f v b out ≡ r
        → and_answer r (λ x. run_calls f calls x.1) ≡ answer out'
        → ((mid : List W) → All P mid → run_calls f calls mid ≡ answer out' → All P out')
        → All P out'
    go (refused c) p g next = absurd (answer_refused (sym g))
    go (answer (hit, mid)) p g next = next mid (step v b hit out mid (q v b (inl refl)) h p) g

module _ (parse_bool : String → Option Bool) (s : State) (x : Address) (is_matched : String) where
  -- What is collected by one call was there, or is the bid of the key, if it is the bidder's.
  accepted :
      (P : Bid → Type 0) (b : Bid) (on hit : Bool) (out out' : List Bid)
      → P b
      → All P out
      → accept b on out ≡ answer (hit, out')
      → All P out'
  accepted P b true hit out out' p h e =
      subst (All P) (ap (λ r. r.1) (answer-inj e)) (All-append P out (b ∷ []) h (p, tt))
  accepted P b false hit out out' p h e = subst (All P) (ap (λ r. r.1) (answer-inj e)) h

  skipped :
      (P : Bid → Type 0) (hit : Bool) (out out' : List Bid)
      → All P out
      → skip out ≡ answer (hit, out')
      → All P out'
  skipped P hit out out' h e = subst (All P) (ap (λ r. r.1) (answer-inj e)) h

  callback_keeps :
      (P : Bid → Type 0) (k : ℕ × ℕ) (on hit : Bool) (out out' : List Bid)
      → P (bid_or_zero (get_bid k.0 k.1 s))
      → All P out
      → bids_by_bidder_callback parse_bool s x is_matched k on out ≡ answer (hit, out')
      → All P out'
  unfolding bids_by_bidder_callback
  callback_keeps P k on hit out out' p h e =
      go (x == b.bidder) (same_text is_matched "") (parse_bool is_matched) e
    where
      b : Bid
      b = bid_or_zero (get_bid k.0 k.1 s)

      go :
          (mine all : Bool) (o : Option Bool)
          → (if not mine
              then skip out
              else if all
              then accept b on out
              else and_answer
                  (elim o [ none ↦ refused other | some m ↦ answer m ])
                  (λ matched. if same_bool b.is_matched matched then accept b on out else skip out))
            ≡ answer (hit, out')
          → All P out'
      go false all o g = skipped P hit out out' h g
      go true true o g = accepted P b on hit out out' p h g
      go true false none g = absurd (answer_refused (sym g))
      go true false (some m) g = elim (Bool-cases (same_bool b.is_matched m)) [
        | inl c ↦ accepted P b on hit out out' p h (rw c at g)
        | inr c ↦ skipped P hit out out' h (rw c at g)
      ]

wrap_internal-inv : {A : Type 0} (m : Answer A) (a : A) → wrap_internal m ≡ answer a → m ≡ answer a
wrap_internal-inv (answer b) a e = e
wrap_internal-inv (refused c) a e = absurd (answer_refused (sym e))

refuse_if-inv :
    {A : Type 0} (b : Bool) (c : Code) (m : Answer A) (a : A)
    → refuse_if b c m ≡ answer a
    → m ≡ answer a
refuse_if-inv true c m a e = absurd (answer_refused (sym e))
refuse_if-inv false c m a e = e

with_found-inv :
    {R A : Type 0} (o : Option R) (f : R → Answer A) (a : A)
    → with_found o f ≡ answer a
    → (r : R) × (o ≡ some r) × (f r ≡ answer a)
with_found-inv none f a e = absurd (answer_refused (sym e))
with_found-inv (some r) f a e = (r, refl, e)

module _ ⦃pages : Pages⦄ ⦃acc : Accounts⦄ (parse_bool : String → Option Bool) (s : State) where
  open pages use {PageRequest, PageResponse}

  -- In consistent tables, whatever page a request asks for, what `Bids` answers for a bidder are bids
  -- that stand in the table and are the bidder's; and an answer means that the auction is stored.
  pub bids_of_bidder :
      (req : QueryBidsRequest PageRequest) (x : Address) (r : PageResponse) (out : List Bid)
      → IsConsistent s
      → req.bidder ≡ some x
      → bids parse_bool (some req) s ≡ answer (r, out)
      → All (λ b. (get_bid b.auction_id b.id s ≡ some b) × (b.bidder ≡ x)) out
        × ((a : Auction) × (get_auction req.auction_id s ≡ some a))
  unfolding bids bids_by query_bids_by_bidder
  bids_of_bidder req x r out c named e =
      let IsHis : Bid → Type 0 = λ b. (get_bid b.auction_id b.id s ≡ some b) × (b.bidder ≡ x) in
      let keys = index_keys (lookup_or [] x s.bid_index) in
      let callback = bids_by_bidder_callback parse_bool s x req.is_matched in
      let (a, stored, e1) = with_found-inv (get_auction req.auction_id s) _ (r, out) e in
      let e2 = wrap_internal-inv (bids_by parse_bool req.bidder req s) (r, out) e1 in
      let e3 : bids_by parse_bool (some x) req s ≡ answer (r, out) =
        subst (λ o. bids_by parse_bool o req s ≡ answer (r, out)) named e2 in
      let e4 = refuse_if-inv (not (acc.valid_address x)) other _ (r, out) e3 in
      let e5 =
        wrap_internal-inv (pages.filtered_paginate keys req.pagination callback) (r, out) e4 in
      let (calls, from_store, run) = pages.paginate_calls keys req.pagination callback r out e5 in
      let sound : All (λ k. IsHis (bid_or_zero (get_bid k.0 k.1 s))) keys =
        index_keys-All (λ k i. IsHis (bid_or_zero (get_bid k i s))) (lookup_or [] x s.bid_index)
          (c.index_ordered x)
          (λ k i h.
            let (b, g, his) = c.index_sound x k i h in
            subst (λ o. IsHis (bid_or_zero o)) (sym g) (get_bid_own k i b s c g, his)) in
      (
        run_calls-All (λ k. IsHis (bid_or_zero (get_bid k.0 k.1 s))) IsHis callback
            (λ k on hit mid mid' p all g.
              callback_keeps parse_bool s x req.is_matched IsHis k on hit mid mid' p all g)
            calls [] out
            (λ k on h.
              Has-All (λ k. IsHis (bid_or_zero (get_bid k.0 k.1 s))) k keys sound
                (from_store k on h))
            tt run,
        (a, stored),
      )
