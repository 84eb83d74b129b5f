-- ===== src/Keeper/Queries/Exact.antt =====
-- The queries of x/fundraising/keeper/grpc_query.go on a page that covers the store.
use Prim.Native.String.{String}
use fundraising.Keeper.Queries.{
  QueryAuctionsRequest, QueryBidsRequest, accept, auctions, auctions_callback, bids, bids_by,
  bids_of_auction_callback, differs, query_all_bids, skip, valid_status_text, valid_type_text,
  wrap_internal,
}
use fundraising.Keeper.State.{State}
use fundraising.Keeper.Tables.{get_auction, get_auctions, get_bids}
use fundraising.Prelude.{
  Bool, List, Option, [], ap, false, if◌then◌else◌, length, none, not, refl, some, true, ℕ, ◌&&◌,
  ◌++◌, ◌==◌, ◌∙◌, ◌∷◌, ◌≡◌,
}
use fundraising.Sdk.Accounts.{Accounts}
use fundraising.Sdk.Pages.{Callback, Pages, and_answer, answer, on_page, run_calls}
use fundraising.Types.{Auction}
use fundraising.Types.Names.{same_text, status_name, type_name}
use mathlib.Core.List.{append-nil, append_assoc}
use mathlib.Core.Path.{sym}

-- The entries that pass a test.
abbrev pub select : {V : Type 0} → (V → Bool) → List V → List V
select t [] = []
select t (v ∷ vs) = if t v then v ∷ select t vs else select t vs

-- A callback that collects what passes a test.
abbrev IsTest : {V : Type 0} → (V → Bool) → Callback V V → Type 0
IsTest t f =
    (v : _) (b : Bool) (out : List _) → f v b out ≡ (if t v then accept v b out else skip out)

module _ {V : Type 0} (t : V → Bool) (f : Callback V V) (h : IsTest t f) where
  run_calls-select :
      (entries out : List V) → run_calls f (on_page entries) out ≡ answer (out ++ select t entries)
  run_calls-select [] out = ap answer (sym (append-nil out))
  run_calls-select (v ∷ vs) out =
      ap (λ r. and_answer r (λ x. run_calls f (on_page vs) x.1)) (h v true out)
      ∙ go (t v) (run_calls-select vs (out ++ v ∷ [])) (run_calls-select vs out)
    where
      go :
          (c : Bool)
          → run_calls f (on_page vs) (out ++ v ∷ []) ≡ answer ((out ++ v ∷ []) ++ select t vs)
          → run_calls f (on_page vs) out ≡ answer (out ++ select t vs)
          → and_answer
              (if c then accept v true out else skip out)
              (λ x. run_calls f (on_page vs) x.1)
            ≡ answer (out ++ (if c then v ∷ select t vs else select t vs))
      go true p q = p ∙ ap answer (append_assoc out (v ∷ []) (select t vs))
      go false p q = q

  paginated :
      ⦃pages : Pages⦄ (entries : List V) (req : pages.PageRequest)
      → pages.covers req (length entries) ≡ true
      → (r : pages.PageResponse) × (wrap_internal (pages.filtered_paginate entries req f)
          ≡ answer (r, select t entries))
  paginated ⦃pages⦄ entries req c =
      let (r, e) =
        pages.paginate_whole entries req f (select t entries) c (run_calls-select entries []) in
      (r, ap wrap_internal e)

-- What `Auctions` asks of an auction, by two texts that may be empty.
abbrev pub asked : String → String → Auction → Bool
asked typ status a =
    not (differs typ (type_name a.typ)) && not (differs status (status_name a.status))

auctions_callback-IsTest :
    (typ status : String) → IsTest (asked typ status) (auctions_callback typ status)
unfolding auctions_callback
auctions_callback-IsTest typ status a b out =
    go (differs typ (type_name a.typ)) (differs status (status_name a.status))
  where
    go :
        (c d : Bool)
        → (if c then skip out else if d then skip out else accept a b out)
          ≡ (if not c && not d then accept a b out else skip out)
    go true d = refl
    go false true = refl
    go false false = refl

bids_of_auction_callback-IsTest :
    (k : ℕ) → IsTest (λ b. b.auction_id == k) (bids_of_auction_callback k)
unfolding bids_of_auction_callback
bids_of_auction_callback-IsTest k b acc out = go (b.auction_id == k)
  where
    go :
        (c : Bool)
        → (if not c then skip out else accept b acc out)
          ≡ (if c then accept b acc out else skip out)
    go true = refl
    go false = refl

module _ ⦃pages : Pages⦄ (s : State) where
  open pages use {PageRequest, PageResponse, covers}

  pub auctions_exact :
      (req : QueryAuctionsRequest PageRequest)
      → (not (same_text req.typ "") && not (valid_type_text req.typ)) ≡ false
      → (not (same_text req.status "") && not (valid_status_text req.status)) ≡ false
      → covers req.pagination (length (get_auctions s)) ≡ true
      → (r : PageResponse) × (auctions (some req) s
          ≡ answer (r, select (asked req.typ req.status) (get_auctions s)))
  unfolding auctions
  auctions_exact req e f c =
      let (r, g) =
        paginated (asked req.typ req.status) (auctions_callback req.typ req.status)
          (auctions_callback-IsTest req.typ req.status) (get_auctions s) req.pagination c in
      (r, rw (e, f) g)

  -- Where the auction of a request is stored, the request names no bidder and does not ask for matched
  -- bids or for others, and its page covers the bids, `Bids` answers with exactly the bids of the auction.
  pub bids_exact :
      ⦃acc : Accounts⦄ (parse_bool : String → Option Bool) (req : QueryBidsRequest PageRequest)
      (a : Auction)
      → get_auction req.auction_id s ≡ some a
      → req.bidder ≡ none
      → same_text req.is_matched "" ≡ true
      → covers req.pagination (length (get_bids s)) ≡ true
      → (r : PageResponse) × (bids parse_bool (some req) s
          ≡ answer (r, select (λ b. b.auction_id == req.auction_id) (get_bids s)))
  unfolding bids bids_by query_all_bids
  bids_exact parse_bool req a stored no_bidder all c =
      let (r, g) =
        paginated (λ b. b.auction_id == req.auction_id) (bids_of_auction_callback req.auction_id)
          (bids_of_auction_callback-IsTest req.auction_id) (get_bids s) req.pagination c in
      (r, rw (stored, no_bidder, all) (ap wrap_internal g))
