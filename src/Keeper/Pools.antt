-- ===== src/Keeper/Pools.antt =====
-- What the paying and selling reserves of an auction must hold (x/fundraising/keeper/invariants.go),
-- with what else of the tables this rests on.
pub mod Auctions
pub mod Placing
pub mod Closing
pub mod Marked
pub mod Creating
pub mod Raising
pub mod Bids
pub mod Stored
pub mod Transfers
pub mod Releasing
pub mod Blocks
pub mod Messages
pub mod Unbroken
pub mod Runs
pub mod Start
use fundraising.Keeper.Frame.{IsFrame}
use fundraising.Keeper.Invariants.{total_bids}
use fundraising.Keeper.State.{State}
use fundraising.Keeper.Tables.{get_auction, get_bid}
use fundraising.Prelude.{
  Bool, [], ap, arith, false, none, refl, some, true, ℕ, ◌∙◌, ◌≡◌, ◌≢◌, ◌≤◌, ◌⊎◌,
}
use fundraising.Prelude.Store.{IsOrdered, lookup, lookup_or, values}
use fundraising.Sdk.{Address, Amount, Denom}
use fundraising.Sdk.Accounts.{Accounts}
use fundraising.Sdk.Decimals.{Decimals}
use fundraising.Types.{Auction, AuctionStatus, AuctionType, Bid, BidType}
use fundraising.Types.Auctions.{
  paying_reserve_address, selling_reserve_address, vesting_reserve_address,
}

-- An auction whose bids may still have to be paid back.
abbrev pub is_open : AuctionStatus → Bool
is_open AuctionStatus.stand_by = true
is_open AuctionStatus.started = true
is_open AuctionStatus.nil = false
is_open AuctionStatus.vesting = false
is_open AuctionStatus.finished = false
is_open AuctionStatus.cancelled = false

-- How a bid of a batch auction is stated.
abbrev pub FitsAuction : Auction → Bid → Type 0
FitsAuction a b =
    a.typ ≡ AuctionType.batch
    → ((b.typ ≡ BidType.batch_worth) × (b.coin.denom ≡ a.paying_coin_denom))
      ⊎ ((b.typ ≡ BidType.batch_many) × (b.coin.denom ≡ a.selling_coin.denom))

abbrev pub Everyone : ℕ → Type 0
Everyone k = Unit {0}

abbrev pub Others : ℕ → ℕ → Type 0
Others j k = k ≢ j

-- An account that is neither the paying nor the selling reserve of an auction.
abbrev pub IsApart : ⦃acc : Accounts⦄ → ℕ → Address → Type 0
IsApart k x = (paying_reserve_address k ≢ x) × (selling_reserve_address k ≢ x)

module _ ⦃dec : Decimals⦄ ⦃acc : Accounts⦄ where
  -- An auction stands under its id, with the reserve accounts of this id, and sells another coin than
  -- it takes.
  pub record IsWellMade (k : ℕ) (a : Auction) : Type 0 where
    pub own_id : a.id ≡ k
    pub own_selling : a.selling_reserve_address ≡ selling_reserve_address k
    pub own_paying : a.paying_reserve_address ≡ paying_reserve_address k
    pub own_vesting : a.vesting_reserve_address ≡ vesting_reserve_address k
    pub two_coins : a.selling_coin.denom ≢ a.paying_coin_denom

  abbrev pub bid_total : ℕ → Denom → State → Amount
  bid_total k denom s = total_bids denom (values (lookup_or [] k s.bids))

  abbrev pub pool : ℕ → Denom → State → Amount
  pool k denom s = s.bank (paying_reserve_address k) denom

  abbrev pub stock : ℕ → Denom → State → Amount
  stock k denom s = s.bank (selling_reserve_address k) denom

  -- For each open auction that `P` admits, the paying reserve holds what its bids have paid, and the
  -- selling reserve what it sells.
  pub record IsFunded (P : ℕ → Type 0) (s : State) : Type 0 where
    pub auctions_ordered : IsOrdered s.auctions
    pub well_made : (k : ℕ) (a : Auction) → get_auction k s ≡ some a → IsWellMade k a
    pub numbered : (k : ℕ) (a : Auction) → get_auction k s ≡ some a → k ≤ s.last_auction_id
    pub bids_fit :
        (k i : ℕ) (a : Auction) (b : Bid)
        → get_auction k s ≡ some a
        → get_bid k i s ≡ some b
        → FitsAuction a b
    pub no_bids : (k : ℕ) → get_auction k s ≡ none → lookup_or [] k s.bids ≡ []
    pub funded :
        (k : ℕ) (a : Auction)
        → P k
        → get_auction k s ≡ some a
        → is_open a.status ≡ true
        → bid_total k a.paying_coin_denom s ≤ pool k a.paying_coin_denom s
    pub stocked :
        (k : ℕ) (a : Auction)
        → P k
        → get_auction k s ≡ some a
        → is_open a.status ≡ true
        → a.selling_coin.amount ≤ stock k a.selling_coin.denom s

  -- What an action leaves alone, and the reserves that it takes nothing from.
  pub record Spares (P : ℕ → Type 0) (s t : State) : Type 0 where
    pub same_auctions : t.auctions ≡ s.auctions
    pub same_last_id : t.last_auction_id ≡ s.last_auction_id
    pub same_bids : t.bids ≡ s.bids
    pub pool_kept : (k : ℕ) → P k → (d : Denom) → pool k d s ≤ pool k d t
    pub stock_kept : (k : ℕ) → P k → (d : Denom) → stock k d s ≤ stock k d t

  pub Spares-IsFrame : (P : ℕ → Type 0) → IsFrame (Spares P)
  Spares-IsFrame P = record {
    same = λ s. record {
      same_auctions = refl;
      same_last_id = refl;
      same_bids = refl;
      pool_kept = λ k p d. omega arith;
      stock_kept = λ k p d. omega arith;
    };
    then_also = λ s t u p q. record {
      same_auctions = q.same_auctions ∙ p.same_auctions;
      same_last_id = q.same_last_id ∙ p.same_last_id;
      same_bids = q.same_bids ∙ p.same_bids;
      pool_kept = λ k h d. omega (arith, p.pool_kept k h d, q.pool_kept k h d);
      stock_kept = λ k h d. omega (arith, p.stock_kept k h d, q.stock_kept k h d);
    };
  }

  pub Spares-IsFunded :
      (P Q : ℕ → Type 0) (s t : State)
      → ((k : ℕ) → Q k → P k)
      → Spares Q s t
      → IsFunded P s
      → IsFunded Q t
  unfolding get_auction get_bid
  Spares-IsFunded P Q s t sub h f = record {
    auctions_ordered = rw h.same_auctions f.auctions_ordered;
    well_made = λ k a e. f.well_made k a (rw h.same_auctions at e);
    numbered = λ k a e. rw h.same_last_id (f.numbered k a (rw h.same_auctions at e));
    bids_fit = λ k i a b e g. f.bids_fit k i a b (rw h.same_auctions at e) (rw h.same_bids at g);
    no_bids = λ k e. rw h.same_bids (f.no_bids k (rw h.same_auctions at e));
    funded = λ k a q e o.
        let total = f.funded k a (sub k q) (rw h.same_auctions at e) o in
        rw h.same_bids (omega (arith, h.pool_kept k q a.paying_coin_denom));
    stocked = λ k a q e o. omega (
      arith,
      f.stocked k a (sub k q) (rw h.same_auctions at e) o,
      h.stock_kept k q a.selling_coin.denom,
    );
  }

  module _ (P : ℕ → Type 0) (s t : State) (h : Spares P s t) where
    pub Spares-stored : (k : ℕ) (a : Auction) → get_auction k s ≡ some a → get_auction k t ≡ some a
    unfolding get_auction
    Spares-stored k a e = ap (lookup k) h.same_auctions ∙ e

    pub Spares-total : (k : ℕ) (d : Denom) → bid_total k d t ≡ bid_total k d s
    Spares-total k d = ap (λ m. total_bids d (values (lookup_or [] k m))) h.same_bids
