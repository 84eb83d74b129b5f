-- ===== src/Keeper/Messages/Refused.antt =====
-- What a message that returns an error (x/fundraising/handler.go) may have changed.
use fundraising.Keeper.Action.{Action, continue_with, found_or, modify, pure, ◌>>=◌, ◌>>◌}
use fundraising.Keeper.Auctions.{
  add_allowed_bidders, cancel_auction, create_batch_auction, create_fixed_price_auction,
  store_allowed_bidders,
}
use fundraising.Keeper.Bids.{
  check_min_bid_price, new_bid, place_bid, place_by_type, validate_batch_bid,
  validate_batch_many_bid, validate_batch_worth_bid, validate_fixed_price_bid,
}
use fundraising.Keeper.Bids.Modify.{modify_bid, reserve_difference}
use fundraising.Keeper.Env.{Env, call_hooks}
use fundraising.Keeper.Fees.{
  fund_community_pool, keep_balances, pay_creation_fee, pay_place_bid_fee, reserve_paying_coin,
  reserve_selling_coin, send_coins,
}
use fundraising.Keeper.Frame.{>>=-Relates, IsFrame, QuietHooks, found_or-Relates}
use fundraising.Keeper.Messages.{
  Msg, add_allowed_bidder_msg, cancel_auction_msg, create_batch_auction_msg,
  create_fixed_price_auction_msg, handle, modify_bid_msg, place_bid_msg, server_add_allowed_bidder,
}
use fundraising.Keeper.State.{Balances, HookCall, State, before_bid_placed}
use fundraising.Keeper.Tables.{
  get_next_auction_id_with_update, get_next_bid_id_with_update, set_bid,
}
use fundraising.Prelude.{
  Bool, List, Option, [], ap, false, if◌then◌else◌, none, refl, some, subst, true, ℕ, ◌∙◌, ◌∷◌, ◌≡◌,
  ◌≢◌,
}
use fundraising.Sdk.{Address, Coin, Time}
use fundraising.Sdk.Accounts.{Accounts}
use fundraising.Sdk.Coins.{Coins}
use fundraising.Sdk.Decimals.{Decimals}
use fundraising.Sdk.Outcome.{Error, Result, err, ok, panic}
use fundraising.Types.{
  AllowedBidder, Auction, Bid, BidType, MsgCancelAuction, MsgCreateBatchAuction,
  MsgCreateFixedPriceAuction, MsgModifyBid, MsgPlaceBid,
}
use mathlib.Core.Path.{sym}

-- Everything but the ids that were given out and the balances.
pub record SameTables (s t : State) : Type 0 where
  pub same_params : t.params ≡ s.params
  pub same_auctions : t.auctions ≡ s.auctions
  pub same_allowed_bidders : t.allowed_bidders ≡ s.allowed_bidders
  pub same_bids : t.bids ≡ s.bids
  pub same_bid_index : t.bid_index ≡ s.bid_index
  pub same_matched_bids_lens : t.matched_bids_lens ≡ s.matched_bids_lens
  pub same_vesting_queues : t.vesting_queues ≡ s.vesting_queues

all_same : (s : State) → SameTables s s
all_same s = record {
  same_params = refl;
  same_auctions = refl;
  same_allowed_bidders = refl;
  same_bids = refl;
  same_bid_index = refl;
  same_matched_bids_lens = refl;
  same_vesting_queues = refl;
}

SameTables-IsFrame : IsFrame SameTables
SameTables-IsFrame = record {
  same = all_same;
  then_also = λ s t u p q. record {
    same_params = q.same_params ∙ p.same_params;
    same_auctions = q.same_auctions ∙ p.same_auctions;
    same_allowed_bidders = q.same_allowed_bidders ∙ p.same_allowed_bidders;
    same_bids = q.same_bids ∙ p.same_bids;
    same_bid_index = q.same_bid_index ∙ p.same_bid_index;
    same_matched_bids_lens = q.same_matched_bids_lens ∙ p.same_matched_bids_lens;
    same_vesting_queues = q.same_vesting_queues ∙ p.same_vesting_queues;
  };
}

-- An action that never changes the tables, one that returns no error, and one that returns an error
-- only with the tables as they were.
record KeepsTables {A : Type 0} (m : Action A) : Type 0 where
  tables_kept : (s : State) → SameTables s (m s).1

record Accepts {A : Type 0} (m : Action A) : Type 0 where
  accepts : (s : State) (e : Error) → (m s).0 ≢ err e

record Refuses {A : Type 0} (m : Action A) : Type 0 where
  refuses : (s t : State) (e : Error) → m s ≡ (err e, t) → SameTables s t

module _ {A B : Type 0} (m : Action A) (k : A → Action B) where
  bind-KeepsTables : KeepsTables m → ((a : A) → KeepsTables (k a)) → KeepsTables (m >>= k)
  bind-KeepsTables h g = record {
    tables_kept =
        >>=-Relates SameTables SameTables-IsFrame m k h.tables_kept (λ a. (g a).tables_kept);
  }

  bind-Accepts : Accepts m → ((a : A) → Accepts (k a)) → Accepts (m >>= k)
  unfolding ◌>>=◌
  bind-Accepts h g = record { accepts = λ s e. go (m s) e (h.accepts s e) }
    where
      go : (r : Result A × State) (e : Error) → r.0 ≢ err e → (continue_with k r).0 ≢ err e
      go (ok a, t) e n p = (g a).accepts t e p
      go (err x, t) e n p = n (cc)
      go (panic, t) e n p = cc

  -- What fails in `m`, or after it, fails with the tables as they were.
  bind_kept-Refuses : KeepsTables m → ((a : A) → Refuses (k a)) → Refuses (m >>= k)
  unfolding ◌>>=◌
  bind_kept-Refuses h g = record { refuses = λ s t e p. go (m s) s t e (h.tables_kept s) p }
    where
      go :
          (r : Result A × State) (s t : State) (e : Error)
          → SameTables s r.1
          → continue_with k r ≡ (err e, t)
          → SameTables s t
      go (ok a, u) s t e q p = SameTables-IsFrame.then_also s u t q ((g a).refuses u t e p)
      go (err x, u) s t e q p = subst (SameTables s) (ap (λ r. r.1) p) q
      go (panic, u) s t e q p = subst (SameTables s) (ap (λ r. r.1) p) q

  -- What fails, fails in `m`.
  bind_accepted-Refuses : Refuses m → ((a : A) → Accepts (k a)) → Refuses (m >>= k)
  unfolding ◌>>=◌
  bind_accepted-Refuses h g = record {
    refuses = λ s t e p. go (m s) s t e (λ u x q. h.refuses s u x q) p;
  }
    where
      go :
          (r : Result A × State) (s t : State) (e : Error)
          → ((u : State) (x : Error) → r ≡ (err x, u) → SameTables s u)
          → continue_with k r ≡ (err e, t)
          → SameTables s t
      go (ok a, u) s t e q p = absurd ((g a).accepts u e (ap (λ r. r.0) p))
      go (err x, u) s t e q p = q t x (cc)
      go (panic, u) s t e q p = cc

KeepsTables-Refuses : {A : Type 0} (m : Action A) → KeepsTables m → Refuses m
KeepsTables-Refuses m h = record {
  refuses = λ s t e p. subst (SameTables s) (ap (λ r. r.1) p) (h.tables_kept s);
}

Accepts-Refuses : {A : Type 0} (m : Action A) → Accepts m → Refuses m
Accepts-Refuses m h = record { refuses = λ s t e p. absurd (h.accepts s e (ap (λ r. r.0) p)) }

if-KeepsTables :
    {A : Type 0} (b : Bool) (m k : Action A)
    → KeepsTables m
    → KeepsTables k
    → KeepsTables (if b then m else k)
if-KeepsTables true m k h g = h
if-KeepsTables false m k h g = g

reads-KeepsTables : {A : Type 0} (f : State → Result A) → KeepsTables (λ s. (f s, s))
reads-KeepsTables f = record { tables_kept = all_same }

found_or-KeepsTables : {A : Type 0} (o : Option A) (e : Error) → KeepsTables (found_or o e)
found_or-KeepsTables o e = record {
  tables_kept = found_or-Relates SameTables SameTables-IsFrame o e;
}

-- A write, and a value that is returned.
writes-Accepts : {A : Type 0} (f : State → A) (g : State → State) → Accepts (λ s. (ok (f s), g s))
writes-Accepts f g = record { accepts = λ s e p. cc }

module _ ⦃env : Env⦄ where
  balances-KeepsTables : (f : State → Option Balances) → KeepsTables (λ s. keep_balances s (f s))
  balances-KeepsTables f = record { tables_kept = λ s. go (f s) s }
    where
      go : (o : Option Balances) (s : State) → SameTables s (keep_balances s o).1
      go none s = all_same s
      go (some m) s = record {
        same_params = refl;
        same_auctions = refl;
        same_allowed_bidders = refl;
        same_bids = refl;
        same_bid_index = refl;
        same_matched_bids_lens = refl;
        same_vesting_queues = refl;
      }

  send_coins-KeepsTables : (from to : Address) (c : Coin) → KeepsTables (send_coins from to c)
  unfolding send_coins
  send_coins-KeepsTables from to c = balances-KeepsTables (λ s. env.send_coins from to c s.bank)

  fund_community_pool-KeepsTables :
      (fee : List Coin) (x : Address) → KeepsTables (fund_community_pool fee x)
  unfolding fund_community_pool
  fund_community_pool-KeepsTables fee x =
      balances-KeepsTables (λ s. env.fund_community_pool fee x s.bank)

get_next_bid_id-KeepsTables : (k : ℕ) → KeepsTables (get_next_bid_id_with_update k)
unfolding get_next_bid_id_with_update
get_next_bid_id-KeepsTables k = record {
  tables_kept = λ s. record {
    same_params = refl;
    same_auctions = refl;
    same_allowed_bidders = refl;
    same_bids = refl;
    same_bid_index = refl;
    same_matched_bids_lens = refl;
    same_vesting_queues = refl;
  };
}

get_next_auction_id-KeepsTables : KeepsTables get_next_auction_id_with_update
unfolding get_next_auction_id_with_update
get_next_auction_id-KeepsTables = record {
  tables_kept = λ s. record {
    same_params = refl;
    same_auctions = refl;
    same_allowed_bidders = refl;
    same_bids = refl;
    same_bid_index = refl;
    same_matched_bids_lens = refl;
    same_vesting_queues = refl;
  };
}

ruleset refusal_rules = (
  bind-KeepsTables, if-KeepsTables, reads-KeepsTables, found_or-KeepsTables, send_coins-KeepsTables,
  fund_community_pool-KeepsTables, get_next_bid_id-KeepsTables, get_next_auction_id-KeepsTables,
  bind_kept-Refuses, Accepts-Refuses, bind-Accepts, writes-Accepts,
)

module _ ⦃dec : Decimals⦄ ⦃coins : Coins⦄ ⦃acc : Accounts⦄ ⦃env : Env⦄ (quiet : QuietHooks) where
  call_hooks-KeepsTables : (c : HookCall) → KeepsTables (modify (call_hooks c))
  call_hooks-KeepsTables c = record {
    tables_kept = λ s. subst (SameTables s) (sym (quiet c s)) (all_same s);
  }

  place_by_type-Refuses : (a : Auction) (b : Bid) (typ : BidType) → Refuses (place_by_type a b typ)
  unfolding place_by_type validate_fixed_price_bid validate_batch_worth_bid validate_batch_many_bid
      validate_batch_bid reserve_paying_coin
  place_by_type-Refuses a b BidType.nil = search refusal_rules depth 20
  place_by_type-Refuses a b BidType.fixed_price = search refusal_rules depth 20
  place_by_type-Refuses a b BidType.batch_worth = search refusal_rules depth 20
  place_by_type-Refuses a b BidType.batch_many = search refusal_rules depth 20

  -- The bid is stored only after the last check.
  place_rest-Refuses :
      (a : Auction) (msg : MsgPlaceBid) (id : ℕ)
      → Refuses (do
        b' ← place_by_type a (new_bid msg id) msg.bid_type
        modify
            (call_hooks (before_bid_placed b'.auction_id b'.id b'.bidder b'.typ b'.price b'.coin))
        modify (set_bid b')
        pure b')
  place_rest-Refuses a msg id =
      bind_accepted-Refuses _ _ (place_by_type-Refuses a (new_bid msg id) msg.bid_type)
        (λ b'. search refusal_rules depth 20)

  place_bid-Refuses : (msg : MsgPlaceBid) → Refuses (place_bid msg)
  unfolding place_bid check_min_bid_price pay_place_bid_fee
  place_bid-Refuses msg = search (refusal_rules, place_rest-Refuses) depth 20 fits 4000

  reserve_difference-KeepsTables :
      (a : Auction) (b : Bid) (msg : MsgModifyBid) (typ : BidType)
      → KeepsTables (reserve_difference a b msg typ)
  unfolding reserve_difference reserve_paying_coin
  reserve_difference-KeepsTables a b msg BidType.nil = search refusal_rules depth 20
  reserve_difference-KeepsTables a b msg BidType.fixed_price = search refusal_rules depth 20
  reserve_difference-KeepsTables a b msg BidType.batch_worth = search refusal_rules depth 20
  reserve_difference-KeepsTables a b msg BidType.batch_many = search refusal_rules depth 20

  modify_bid-Refuses : (msg : MsgModifyBid) → Refuses (modify_bid msg)
  unfolding modify_bid
  modify_bid-Refuses msg = search (refusal_rules, reserve_difference-KeepsTables) depth 20 fits 4000

  cancel_auction-Refuses : (msg : MsgCancelAuction) → Refuses (cancel_auction msg)
  unfolding cancel_auction
  cancel_auction-Refuses msg = search (refusal_rules, call_hooks-KeepsTables) depth 20 fits 4000

  add_allowed_bidder-Refuses :
      (k : ℕ) (ab : AllowedBidder) → Refuses (add_allowed_bidders k (ab ∷ []))
  unfolding add_allowed_bidders store_allowed_bidders
  add_allowed_bidder-Refuses k ab =
      search (refusal_rules, call_hooks-KeepsTables) depth 20 fits 4000

  create_fixed_price_auction-Refuses :
      (now : Time) (msg : MsgCreateFixedPriceAuction) → Refuses (create_fixed_price_auction now msg)
  unfolding create_fixed_price_auction pay_creation_fee reserve_selling_coin
  create_fixed_price_auction-Refuses now msg = search refusal_rules depth 20 fits 4000

  create_batch_auction-Refuses :
      (now : Time) (msg : MsgCreateBatchAuction) → Refuses (create_batch_auction now msg)
  unfolding create_batch_auction pay_creation_fee reserve_selling_coin
  create_batch_auction-Refuses now msg = search refusal_rules depth 20 fits 4000

  handle-Refuses : (enabled : Bool) (now : Time) (msg : Msg) → Refuses (handle enabled now msg)
  unfolding handle server_add_allowed_bidder
  handle-Refuses enabled now (create_fixed_price_auction_msg m) =
      bind_accepted-Refuses _ _ (create_fixed_price_auction-Refuses now m) (λ _. writes-Accepts _ _)
  handle-Refuses enabled now (create_batch_auction_msg m) =
      bind_accepted-Refuses _ _ (create_batch_auction-Refuses now m) (λ _. writes-Accepts _ _)
  handle-Refuses enabled now (cancel_auction_msg m) = cancel_auction-Refuses m
  handle-Refuses enabled now (place_bid_msg m) =
      bind_accepted-Refuses _ _ (place_bid-Refuses m) (λ _. writes-Accepts _ _)
  handle-Refuses enabled now (modify_bid_msg m) = modify_bid-Refuses m
  handle-Refuses true now (add_allowed_bidder_msg m) =
      add_allowed_bidder-Refuses m.auction_id m.allowed_bidder
  handle-Refuses false now (add_allowed_bidder_msg m) = KeepsTables-Refuses _ (reads-KeepsTables _)

  -- If the hooks of other modules leave the state alone, a message that returns an error has left the
  -- parameters and the tables of auctions, allowed bidders, bids, their index, matched lengths and vesting
  -- queues as they were, without counting on being rolled back; only ids may have been given out, and
  -- balances changed.
  pub handle_refused_lem :
      (enabled : Bool) (now : Time) (msg : Msg) (s t : State) (e : Error)
      → handle enabled now msg s ≡ (err e, t)
      → SameTables s t
  handle_refused_lem enabled now msg = (handle-Refuses enabled now msg).refuses
