-- ===== src/Examples/Queries.antt =====
-- Examples for the queries, with a pagination that puts everything on one page.
use Prim.Native.String.{String}
use fundraising.Examples.Methods.{batch_sale, many_bid, market}
use fundraising.Examples.Tables.{stocked, stocked-IsConsistent}
use fundraising.Examples.World.{numbered_accounts}
use fundraising.Keeper.Queries.{
  QueryAuctionsRequest, QueryBidsRequest, auctions, bids, bids_by, bids_by_bidder_callback,
  query_bids_by_bidder,
}
use fundraising.Keeper.Queries.Exact.{asked, auctions_exact, bids_exact, select}
use fundraising.Keeper.Queries.OfBidder.{bids_of_bidder}
use fundraising.Keeper.Tables.{get_auction, get_auctions, get_bid, get_bids, set_bid}
use fundraising.Prelude.{
  All, Bool, List, Option, [], ap, inl, inr, none, refl, some, true, ◌==◌, ◌∷◌, ◌≡◌,
}
use fundraising.Prelude.Store.{Has, insert, lookup}
use fundraising.Sdk.Pages.{Answer, Pages, answer, on_page, refused, run_calls}
use fundraising.Types.{Auction}

Has-on_page : {V : Type 0} (v : V) (b : Bool) (vs : List V) → Has (v, b) (on_page vs) → Has v vs
Has-on_page v b [] h = elim h [ ]
Has-on_page v b (x ∷ xs) (inl e) = inl (ap (λ r. r.0) e)
Has-on_page v b (x ∷ xs) (inr h) = inr (Has-on_page v b xs h)

abbrev respond : {W : Type 0} → Answer (List W) → Answer (Unit {0} × List W)
respond (answer out) = answer (tt, out)
respond (refused c) = refused c

respond_out :
    {W : Type 0} (m : Answer (List W)) (r : Unit {0}) (out : List W)
    → respond m ≡ answer (r, out)
    → m ≡ answer out
respond_out (answer x) r out e =
    ap
      (λ (m : Answer (Unit {0} × List _)). elim m [ answer y ↦ answer y.1 | refused c ↦ refused c ])
      e
respond_out (refused c) r out e = cc

instance abbrev one_page : Pages
one_page = record {
  PageRequest = Unit {0};
  PageResponse = Unit {0};
  filtered_paginate = λ entries req f. respond (run_calls f (on_page entries) []);
  covers = λ req n. true;
  paginate_calls = λ entries req f r out e.
      (on_page entries, λ v b h. Has-on_page v b entries h, respond_out _ r out e);
  paginate_whole = λ entries req f out c e. (tt, ap respond e);
}

abbrev no_parse : String → Option Bool
no_parse t = none

abbrev batch_request : QueryAuctionsRequest (Unit {0})
batch_request = record { status = ""; typ = "AUCTION_TYPE_BATCH"; pagination = tt }

auctions_exact_example :
    (r : Unit {0}) × (auctions (some batch_request) market
      ≡ answer (r, select (asked "AUCTION_TYPE_BATCH" "") (get_auctions market)))
auctions_exact_example = auctions_exact market batch_request refl refl refl

abbrev all_request : QueryBidsRequest (Unit {0})
all_request = record { auction_id = 2; bidder = none; is_matched = ""; pagination = tt }

bids_exact_example :
    (r : Unit {0}) × (bids no_parse (some all_request) stocked
      ≡ answer (r, select (λ b. b.auction_id == 2) (get_bids stocked)))
unfolding numbered_accounts get_auction lookup set_bid
bids_exact_example = bids_exact stocked no_parse all_request batch_sale refl refl refl refl

abbrev his_request : QueryBidsRequest (Unit {0})
his_request = record all_request { bidder = some 11 }

bids_of_bidder_example :
    All (λ b. (get_bid b.auction_id b.id stocked ≡ some b) × (b.bidder ≡ 11)) (many_bid ∷ [])
    × ((a : Auction) × (get_auction 2 stocked ≡ some a))
unfolding numbered_accounts get_auction lookup set_bid bids bids_by query_bids_by_bidder
    bids_by_bidder_callback get_bid insert
bids_of_bidder_example =
    bids_of_bidder no_parse stocked his_request 11 tt (many_bid ∷ []) stocked-IsConsistent refl refl
