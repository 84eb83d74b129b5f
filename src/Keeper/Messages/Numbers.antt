-- ===== src/Keeper/Messages/Numbers.antt =====
-- How many ids of auctions a message (x/fundraising/handler.go) and a block (x/fundraising/abci.go)
-- give out.
use fundraising.Keeper.Action.{Action, continue_with, found_or, modify, pure, ◌>>=◌}
use fundraising.Keeper.Auctions.{
  add_allowed_bidders, cancel_auction, create_batch_auction, create_fixed_price_auction,
  store_allowed_bidders,
}
use fundraising.Keeper.Bids.{
  check_min_bid_price, place_bid, place_by_type, validate_batch_bid, validate_batch_many_bid,
  validate_batch_worth_bid, validate_fixed_price_bid,
}
use fundraising.Keeper.Bids.Modify.{modify_bid, reserve_difference}
use fundraising.Keeper.Env.{Env, call_hooks}
use fundraising.Keeper.Execution.{begin_blocker}
use fundraising.Keeper.Execution.Keeps.{begin_blocker-Relates}
use fundraising.Keeper.Fees.{
  fund_community_pool, keep_balances, pay_creation_fee, pay_place_bid_fee, reserve_paying_coin,
  reserve_selling_coin, send_coins,
}
use fundraising.Keeper.Frame.{>>=-Relates, IsFrame, QuietHooks, Relates, found_or-Relates}
use fundraising.Keeper.Matching.{calculate_batch_allocation, store_matched}
use fundraising.Keeper.Messages.{
  Msg, add_allowed_bidder_msg, cancel_auction_msg, create_batch_auction_msg,
  create_fixed_price_auction_msg, handle, modify_bid_msg, place_bid_msg, server_add_allowed_bidder,
}
use fundraising.Keeper.State.{Balances, HookCall, State}
use fundraising.Keeper.Tables.{
  get_next_auction_id_with_update, get_next_bid_id_with_update, set_allowed_bidder, set_auction,
  set_bid, set_matched_bids_len, set_vesting_queue,
}
use fundraising.Prelude.{
  Bool, List, Option, [], ap, arith, false, if◌then◌else◌, none, refl, some, true, ℕ, ◌%◌, ◌+◌, ◌^◌,
  ◌∙◌, ◌∷◌, ◌≡◌, ◌≤◌,
}
use fundraising.Sdk.{Address, Coin, Time}
use fundraising.Sdk.Accounts.{Accounts}
use fundraising.Sdk.Coins.{Coins}
use fundraising.Sdk.Decimals.{Decimals}
use fundraising.Sdk.Outcome.{Error, Result, err, ok, panic}
use fundraising.Types.{
  AllowedBidder, Auction, Bid, BidType, MsgCancelAuction, MsgCreateBatchAuction,
  MsgCreateFixedPriceAuction, MsgModifyBid, MsgPlaceBid, VestingQueue,
}
use fundraising.Types.Bids.{set_matched}

-- No id of an auction is given out.
abbrev SameNumber : State → State → Type 0
SameNumber s t = t.last_auction_id ≡ s.last_auction_id

SameNumber-IsFrame : IsFrame SameNumber
SameNumber-IsFrame = record { same = λ s. refl; then_also = λ s t u p q. q ∙ p }

-- An action that gives out no id of an auction.
record Numbers {A : Type 0} (m : Action A) : Type 0 where
  kept : (s : State) → (m s).1.last_auction_id ≡ s.last_auction_id

bind-Numbers :
    {A B : Type 0} (m : Action A) (f : A → Action B)
    → Numbers m
    → ((a : A) → Numbers (f a))
    → Numbers (m >>= f)
bind-Numbers m f h k = record {
  kept = >>=-Relates SameNumber SameNumber-IsFrame m f h.kept (λ a. (k a).kept);
}

if-Numbers :
    {A : Type 0} (b : Bool) (m k : Action A) → Numbers m → Numbers k → Numbers (if b then m else k)
if-Numbers true m k h g = h
if-Numbers false m k h g = g

-- What only reads: `pure`, `throw`, `gets`, `lift` and `return_if`.
reads-Numbers : {A : Type 0} (f : State → Result A) → Numbers (λ s. (f s, s))
reads-Numbers f = record { kept = λ s. refl }

found_or-Numbers : {A : Type 0} (o : Option A) (e : Error) → Numbers (found_or o e)
found_or-Numbers o e = record { kept = found_or-Relates SameNumber SameNumber-IsFrame o e }

set_auction-Numbers : (a : Auction) → Numbers (modify (set_auction a))
unfolding set_auction
set_auction-Numbers a = record { kept = λ s. refl }

set_bid-Numbers : (b : Bid) → Numbers (modify (set_bid b))
unfolding set_bid
set_bid-Numbers b = record { kept = λ s. refl }

set_allowed_bidder-Numbers :
    (k : ℕ) (ab : AllowedBidder) → Numbers (modify (set_allowed_bidder k ab))
unfolding set_allowed_bidder
set_allowed_bidder-Numbers k ab = record { kept = λ s. refl }

get_next_bid_id-Numbers : (k : ℕ) → Numbers (get_next_bid_id_with_update k)
unfolding get_next_bid_id_with_update
get_next_bid_id-Numbers k = record { kept = λ s. refl }

module _ ⦃env : Env⦄ where
  keep_balances-Numbers : (f : State → Option Balances) → Numbers (λ s. keep_balances s (f s))
  keep_balances-Numbers f = record { kept = λ s. go (f s) s }
    where
      go :
          (o : Option Balances) (s : State)
          → (keep_balances s o).1.last_auction_id ≡ s.last_auction_id
      go none s = refl
      go (some m) s = refl

  send_coins-Numbers : (from to : Address) (c : Coin) → Numbers (send_coins from to c)
  unfolding send_coins
  send_coins-Numbers from to c = keep_balances-Numbers (λ s. env.send_coins from to c s.bank)

  fund_community_pool-Numbers :
      (fee : List Coin) (x : Address) → Numbers (fund_community_pool fee x)
  unfolding fund_community_pool
  fund_community_pool-Numbers fee x =
      keep_balances-Numbers (λ s. env.fund_community_pool fee x s.bank)

ruleset numbers_rules = (
  bind-Numbers, if-Numbers, reads-Numbers, found_or-Numbers, set_auction-Numbers, set_bid-Numbers,
  set_allowed_bidder-Numbers, get_next_bid_id-Numbers, send_coins-Numbers,
  fund_community_pool-Numbers,
)

module _ ⦃dec : Decimals⦄ ⦃coins : Coins⦄ ⦃acc : Accounts⦄ ⦃env : Env⦄ (quiet : QuietHooks) where
  call_hooks-Numbers : (c : HookCall) → Numbers (modify (call_hooks c))
  call_hooks-Numbers c = record { kept = λ s. ap (λ t. t.last_auction_id) (quiet c s) }

  cancel_auction-Numbers : (msg : MsgCancelAuction) → Numbers (cancel_auction msg)
  unfolding cancel_auction
  cancel_auction-Numbers msg = search (numbers_rules, call_hooks-Numbers) depth 20

  place_by_type-Numbers : (a : Auction) (b : Bid) (typ : BidType) → Numbers (place_by_type a b typ)
  unfolding place_by_type validate_fixed_price_bid validate_batch_worth_bid validate_batch_many_bid
      validate_batch_bid reserve_paying_coin
  place_by_type-Numbers a b BidType.nil = search numbers_rules depth 20
  place_by_type-Numbers a b BidType.fixed_price = search numbers_rules depth 20
  place_by_type-Numbers a b BidType.batch_worth = search numbers_rules depth 20
  place_by_type-Numbers a b BidType.batch_many = search numbers_rules depth 20

  place_bid-Numbers : (msg : MsgPlaceBid) → Numbers (place_bid msg)
  unfolding place_bid check_min_bid_price pay_place_bid_fee
  place_bid-Numbers msg = search (numbers_rules, call_hooks-Numbers, place_by_type-Numbers) depth 20

  reserve_difference-Numbers :
      (a : Auction) (b : Bid) (msg : MsgModifyBid) (typ : BidType)
      → Numbers (reserve_difference a b msg typ)
  unfolding reserve_difference reserve_paying_coin
  reserve_difference-Numbers a b msg BidType.nil = search numbers_rules depth 20
  reserve_difference-Numbers a b msg BidType.fixed_price = search numbers_rules depth 20
  reserve_difference-Numbers a b msg BidType.batch_worth = search numbers_rules depth 20
  reserve_difference-Numbers a b msg BidType.batch_many = search numbers_rules depth 20

  modify_bid-Numbers : (msg : MsgModifyBid) → Numbers (modify_bid msg)
  unfolding modify_bid
  modify_bid-Numbers msg =
      search (numbers_rules, call_hooks-Numbers, reserve_difference-Numbers) depth 20

  store_allowed_bidders-Numbers :
      (a : Auction) (k : ℕ) (abs : List AllowedBidder) → Numbers (store_allowed_bidders a k abs)
  unfolding store_allowed_bidders
  store_allowed_bidders-Numbers a k [] = search numbers_rules
  store_allowed_bidders-Numbers a k (ab ∷ abs) = bind-Numbers _ _ (reads-Numbers _) (λ _.
      bind-Numbers _ _ (reads-Numbers _) (λ _.
        bind-Numbers _ _ (set_allowed_bidder-Numbers k ab)
          (λ _. store_allowed_bidders-Numbers a k abs)))

  add_allowed_bidders-Numbers :
      (k : ℕ) (abs : List AllowedBidder) → Numbers (add_allowed_bidders k abs)
  unfolding add_allowed_bidders
  add_allowed_bidders-Numbers k abs =
      search (numbers_rules, call_hooks-Numbers, store_allowed_bidders-Numbers) depth 20

-- An action that gives out at most one id of an auction.
record Grows {A : Type 0} (m : Action A) : Type 0 where
  pub by_one : (s : State) → (m s).1.last_auction_id ≤ s.last_auction_id + 1

Numbers-Grows : {A : Type 0} (m : Action A) → Numbers m → Grows m
Numbers-Grows m h = record { by_one = λ s. rw (h.kept s) (omega arith) }

read_first-Grows :
    {A B : Type 0} (f : State → Result A) (k : A → Action B)
    → ((a : A) → Grows (k a))
    → Grows ((λ s. (f s, s)) >>= k)
unfolding ◌>>=◌
read_first-Grows {A} f k h = record { by_one = λ s. go (f s) s }
  where
    go :
        (r : Result A) (s : State)
        → (continue_with k (r, s)).1.last_auction_id ≤ s.last_auction_id + 1
    go (ok a) s = (h a).by_one s
    go (err e) s = omega arith
    go panic s = omega arith

numbering-Grows :
    {B : Type 0} (k : ℕ → Action B)
    → ((i : ℕ) → Numbers (k i))
    → Grows (get_next_auction_id_with_update >>= k)
unfolding ◌>>=◌ get_next_auction_id_with_update
numbering-Grows k h = record {
  by_one = λ s.
      let n = (s.last_auction_id + 1) % 2 ^ 64 in
      rw ((h n).kept (record s { last_auction_id = n })) (omega arith);
}

last-Grows : {A B : Type 0} (m : Action A) (x : B) → Grows m → Grows (m >>= λ _. pure x)
unfolding ◌>>=◌
last-Grows {A} {B} m x h = record { by_one = λ s. go (m s) s (h.by_one s) }
  where
    go :
        (r : Result A × State) (s : State)
        → r.1.last_auction_id ≤ s.last_auction_id + 1
        → (continue_with (λ _. pure x) r).1.last_auction_id ≤ s.last_auction_id + 1
    go (ok a, t) s le = le
    go (err e, t) s le = le
    go (panic, t) s le = le

module _ ⦃dec : Decimals⦄ ⦃coins : Coins⦄ ⦃acc : Accounts⦄ ⦃env : Env⦄ (quiet : QuietHooks) where
  create_fixed_price_auction-Grows :
      (now : Time) (msg : MsgCreateFixedPriceAuction) → Grows (create_fixed_price_auction now msg)
  unfolding create_fixed_price_auction pay_creation_fee reserve_selling_coin
  create_fixed_price_auction-Grows now msg =
      search (numbers_rules, call_hooks-Numbers quiet, read_first-Grows, numbering-Grows) depth 20

  create_batch_auction-Grows :
      (now : Time) (msg : MsgCreateBatchAuction) → Grows (create_batch_auction now msg)
  unfolding create_batch_auction pay_creation_fee reserve_selling_coin
  create_batch_auction-Grows now msg =
      search (numbers_rules, call_hooks-Numbers quiet, read_first-Grows, numbering-Grows) depth 20

  handle-Grows : (enabled : Bool) (now : Time) (msg : Msg) → Grows (handle enabled now msg)
  unfolding handle server_add_allowed_bidder
  handle-Grows enabled now (create_fixed_price_auction_msg m) =
      last-Grows _ _ (create_fixed_price_auction-Grows now m)
  handle-Grows enabled now (create_batch_auction_msg m) =
      last-Grows _ _ (create_batch_auction-Grows now m)
  handle-Grows enabled now (cancel_auction_msg m) = Numbers-Grows _ (cancel_auction-Numbers quiet m)
  handle-Grows enabled now (place_bid_msg m) =
      last-Grows _ _ (Numbers-Grows _ (place_bid-Numbers quiet m))
  handle-Grows enabled now (modify_bid_msg m) = Numbers-Grows _ (modify_bid-Numbers quiet m)
  handle-Grows true now (add_allowed_bidder_msg m) =
      Numbers-Grows _ (add_allowed_bidders-Numbers quiet m.auction_id (m.allowed_bidder ∷ []))
  handle-Grows false now (add_allowed_bidder_msg m) = Numbers-Grows _ (reads-Numbers _)

  -- A message gives out at most one id of an auction.
  pub handle-last_auction_id :
      (enabled : Bool) (now : Time) (msg : Msg) (s : State)
      → (handle enabled now msg s).1.last_auction_id ≤ s.last_auction_id + 1
  handle-last_auction_id enabled now msg = (handle-Grows enabled now msg).by_one

set_matched_bids_len-Numbers : (k n : ℕ) → Numbers (modify (set_matched_bids_len k n))
unfolding set_matched_bids_len
set_matched_bids_len-Numbers k n = record { kept = λ s. refl }

store_matched-Numbers : (bs : List Bid) → Numbers (modify (store_matched bs))
unfolding store_matched
store_matched-Numbers [] = record { kept = λ s. refl }
store_matched-Numbers (b ∷ bs) = record {
  kept = λ s. (store_matched-Numbers bs).kept _ ∙ (set_bid-Numbers (set_matched true b)).kept s;
}

calculate_batch_allocation-SameNumber :
    ⦃dec : Decimals⦄ (a : Auction) → Relates SameNumber (calculate_batch_allocation a)
unfolding calculate_batch_allocation
calculate_batch_allocation-SameNumber a =
    (bind-Numbers _ _ (reads-Numbers _) (λ bids. bind-Numbers _ _ (reads-Numbers _) (λ allowed.
      bind-Numbers _ _ (reads-Numbers _) (λ best. bind-Numbers _ _ (reads-Numbers _) (λ r.
        bind-Numbers _ _ (store_matched-Numbers r.matched_bids) (λ _.
          bind-Numbers _ _ (set_matched_bids_len-Numbers a.id _) (λ _. reads-Numbers _))))))).kept

module _ ⦃dec : Decimals⦄ ⦃env : Env⦄ (quiet : QuietHooks) where
  set_vesting_queue-SameNumber :
      (q : VestingQueue) → Relates SameNumber (modify (set_vesting_queue q))
  unfolding set_vesting_queue
  set_vesting_queue-SameNumber q s = refl

  -- A block gives out no id of an auction.
  pub begin_blocker-last_auction_id :
      (now : Time) (s : State) → (begin_blocker now s).1.last_auction_id ≡ s.last_auction_id
  begin_blocker-last_auction_id = begin_blocker-Relates SameNumber (record {
    frame = SameNumber-IsFrame;
    bank_kept = λ s m. refl;
    hooks_kept = λ c s. ap (λ t. t.last_auction_id) (quiet c s);
    auction_kept = λ a. (set_auction-Numbers a).kept;
    queue_kept = set_vesting_queue-SameNumber;
    allocation_kept = calculate_batch_allocation-SameNumber;
  })
