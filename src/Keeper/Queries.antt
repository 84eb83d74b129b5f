-- ===== src/Keeper/Queries.antt =====
-- x/fundraising/keeper/grpc_query.go: the queries. A missing request is `none`; a bidder that is the
-- empty text is `none`.
pub mod Exact
pub mod OfBidder
use Prim.Native.String.{String}
use fundraising.Keeper.State.{State}
use fundraising.Keeper.Tables.{
  bid_or_zero, get_allowed_bidder, get_allowed_bidders_by_auction, get_auction, get_auctions,
  get_bid, get_bids, get_vesting_queues_by_auction_id,
}
use fundraising.Prelude.{
  Bool, List, Option, [], false, if◌then◌else◌, none, not, some, true, ℕ, ◌&&◌, ◌++◌, ◌==◌, ◌||◌,
  ◌∷◌,
}
use fundraising.Prelude.Store.{Store, lookup_or}
use fundraising.Sdk.{Address}
use fundraising.Sdk.Accounts.{Accounts}
use fundraising.Sdk.Pages.{
  Answer, Callback, Code, Pages, and_answer, answer, internal, invalid_argument, no_such, other,
  refused,
}
use fundraising.Types.{AllowedBidder, Auction, AuctionStatus, AuctionType, Bid, VestingQueue}
use fundraising.Types.Names.{same_text, status_name, type_name}

pub record QueryAuctionsRequest (PageRequest : Type 0) : Type 0 where
  pub status : String
  pub typ : String
  pub pagination : PageRequest

pub record QueryAllowedBiddersRequest (PageRequest : Type 0) : Type 0 where
  pub auction_id : ℕ
  pub pagination : PageRequest

pub record QueryBidsRequest (PageRequest : Type 0) : Type 0 where
  pub auction_id : ℕ
  pub bidder : Option Address
  pub is_matched : String
  pub pagination : PageRequest

-- `if req == nil { return InvalidArgument }`
abbrev pub with_request : {R A : Type 0} → Option R → (R → Answer A) → Answer A
with_request none f = refused invalid_argument
with_request (some req) f = f req

abbrev pub refuse_if : {A : Type 0} → Bool → Code → Answer A → Answer A
refuse_if b c rest = if b then refused c else rest

-- `if !found { return NotFound }`
abbrev pub with_found : {R A : Type 0} → Option R → (R → Answer A) → Answer A
with_found none f = refused no_such
with_found (some r) f = f r

-- `if err != nil { return Internal }`
abbrev pub wrap_internal : {A : Type 0} → Answer A → Answer A
wrap_internal (answer a) = answer a
wrap_internal (refused c) = refused internal

-- The end of a callback: a hit is collected if it is on the page.
abbrev pub accept : {W : Type 0} → W → Bool → List W → Answer (Bool × List W)
accept w accumulate out = answer (true, if accumulate then out ++ w ∷ [] else out)

abbrev pub skip : {W : Type 0} → List W → Answer (Bool × List W)
skip out = answer (false, out)

abbrev pub valid_type_text : String → Bool
valid_type_text t =
    same_text t (type_name AuctionType.fixed_price) || same_text t (type_name AuctionType.batch)

abbrev pub valid_status_text : String → Bool
valid_status_text t =
    same_text t (status_name AuctionStatus.stand_by)
    || same_text t (status_name AuctionStatus.started)
    || same_text t (status_name AuctionStatus.vesting)
    || same_text t (status_name AuctionStatus.finished)
    || same_text t (status_name AuctionStatus.cancelled)

-- `asked != "" && name != asked`
abbrev pub differs : String → String → Bool
differs asked name = not (same_text asked "") && not (same_text name asked)

unfoldable pub auctions_callback : String → String → Callback Auction Auction
auctions_callback typ status a accumulate out =
    if differs typ (type_name a.typ)
    then skip out
    else if differs status (status_name a.status)
    then skip out
    else accept a accumulate out

unfoldable pub bids_of_auction_callback : ℕ → Callback Bid Bid
bids_of_auction_callback auction_id b accumulate out =
    if not (b.auction_id == auction_id) then skip out else accept b accumulate out

abbrev pub same_bool : Bool → Bool → Bool
same_bool true b = b
same_bool false b = not b

unfoldable pub matched_bids_callback : ℕ → Bool → Callback Bid Bid
matched_bids_callback auction_id matched b accumulate out =
    if not (b.auction_id == auction_id)
    then skip out
    else if same_bool b.is_matched matched
    then accept b accumulate out
    else skip out

-- The keys of the index behind the prefix of a bidder: an auction id and a bid id each.
abbrev pub entry_keys : ℕ → Store (Unit {0}) → List (ℕ × ℕ)
entry_keys a [] = []
entry_keys a ((i, u) ∷ m) = (a, i) ∷ entry_keys a m

abbrev pub index_keys : Store (Store (Unit {0})) → List (ℕ × ℕ)
index_keys [] = []
index_keys ((a, m) ∷ ms) = entry_keys a m ++ index_keys ms

-- `parse_bool` is `strconv.ParseBool`.
module _ (parse_bool : String → Option Bool) where
  abbrev pub parsed : String → Answer Bool
  parsed t = elim (parse_bool t) [ none ↦ refused other | some b ↦ answer b ]

  unfoldable pub bids_by_bidder_callback : State → Address → String → Callback (ℕ × ℕ) Bid
  bids_by_bidder_callback s bidder is_matched key accumulate out =
      let b = bid_or_zero (get_bid key.0 key.1 s) in
      if not (bidder == b.bidder)
      then skip out
      else if same_text is_matched ""
      then accept b accumulate out
      else and_answer (parsed is_matched)
          (λ matched. if same_bool b.is_matched matched then accept b accumulate out else skip out)

module _ ⦃pages : Pages⦄ where
  open pages use {PageRequest, PageResponse, filtered_paginate}

  -- `Auctions`
  unfoldable pub auctions :
      Option (QueryAuctionsRequest PageRequest) → State → Answer (PageResponse × List Auction)
  auctions asked s = with_request asked (λ req.
      refuse_if (not (same_text req.typ "") && not (valid_type_text req.typ)) invalid_argument (
        refuse_if (not (same_text req.status "") && not (valid_status_text req.status))
          invalid_argument
          (wrap_internal (
            filtered_paginate (get_auctions s) req.pagination
              (auctions_callback req.typ req.status)))))

  -- `AllowedBidders`
  unfoldable pub allowed_bidders :
      Option (QueryAllowedBiddersRequest PageRequest)
      → State
      → Answer (PageResponse × List AllowedBidder)
  allowed_bidders asked s = with_request asked (λ req.
      refuse_if (req.auction_id == 0) invalid_argument (
        with_found (get_auction req.auction_id s) (λ a. wrap_internal (
          filtered_paginate (get_allowed_bidders_by_auction req.auction_id s) req.pagination
            accept))))

  module _ ⦃acc : Accounts⦄ (parse_bool : String → Option Bool) where
    unfoldable pub query_all_bids :
        QueryBidsRequest PageRequest → State → Answer (PageResponse × List Bid)
    query_all_bids req s =
        wrap_internal
          (filtered_paginate (get_bids s) req.pagination (bids_of_auction_callback req.auction_id))

    unfoldable pub query_bids_by_bidder :
        Address → QueryBidsRequest PageRequest → State → Answer (PageResponse × List Bid)
    query_bids_by_bidder bidder req s = refuse_if (not (acc.valid_address bidder)) other (
        wrap_internal (
          filtered_paginate (index_keys (lookup_or [] bidder s.bid_index)) req.pagination
            (bids_by_bidder_callback parse_bool s bidder req.is_matched)))

    unfoldable pub query_bids_by_is_matched :
        QueryBidsRequest PageRequest → State → Answer (PageResponse × List Bid)
    query_bids_by_is_matched req s = and_answer (parsed parse_bool req.is_matched) (λ matched.
        wrap_internal (
          filtered_paginate (get_bids s) req.pagination
            (matched_bids_callback req.auction_id matched)))

    -- The `switch` of `Bids`.
    unfoldable pub bids_by :
        Option Address → QueryBidsRequest PageRequest → State → Answer (PageResponse × List Bid)
    bids_by (some bidder) req s = query_bids_by_bidder bidder req s
    bids_by none req s =
        if same_text req.is_matched "" then query_all_bids req s else query_bids_by_is_matched req s

    -- `Bids`
    unfoldable pub bids :
        Option (QueryBidsRequest PageRequest) → State → Answer (PageResponse × List Bid)
    bids asked s = with_request asked (λ req.
        with_found (get_auction req.auction_id s) (λ a. wrap_internal (bids_by req.bidder req s)))

-- `Auction`, `Bid` and `Vestings`, of a request with these fields.
unfoldable pub auction : Option ℕ → State → Answer Auction
auction asked s = with_request asked (λ id. with_found (get_auction id s) (λ a. answer a))

unfoldable pub bid : Option (ℕ × ℕ) → State → Answer Bid
bid asked s = with_request asked (λ req. with_found (get_bid req.0 req.1 s) (λ b. answer b))

unfoldable pub vestings : Option ℕ → State → Answer (List VestingQueue)
vestings asked s =
    with_request asked
      (λ id. with_found (get_auction id s) (λ a. answer (get_vesting_queues_by_auction_id a.id s)))

-- `AllowedBidder`, of an auction id and a bidder; an empty bidder is `none`.
unfoldable pub allowed_bidder :
    ⦃acc : Accounts⦄ → Option (ℕ × Option Address) → State → Answer AllowedBidder
allowed_bidder ⦃acc⦄ asked s = with_request asked (λ req.
    refuse_if (req.0 == 0) invalid_argument (elim req.1 [
      | none ↦ refused invalid_argument
      | some bidder ↦ with_found (get_auction req.0 s) (λ a.
          refuse_if (not (acc.valid_address bidder)) invalid_argument
            (with_found (get_allowed_bidder req.0 bidder s) (λ ab. answer ab)))
    ]))
