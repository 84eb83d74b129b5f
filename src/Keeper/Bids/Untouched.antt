-- ===== src/Keeper/Bids/Untouched.antt =====
-- Writes that have nothing to do with bids (x/fundraising/keeper/store.go, keeper.go, hooks.go).
use fundraising.Keeper.Action.{Action, found_or, modify, ◌>>=◌}
use fundraising.Keeper.Bids.Consistent.{KeepsBids, KeepsBids-IsFrame}
use fundraising.Keeper.Bids.Stored.{when_then}
use fundraising.Keeper.Env.{Env, call_hooks}
use fundraising.Keeper.Fees.{fund_community_pool, keep_balances, send_coins}
use fundraising.Keeper.Frame.{>>=-Relates, QuietHooks, Relates, found_or-Relates}
use fundraising.Keeper.State.{Balances, HookCall, State}
use fundraising.Keeper.Tables.{
  get_auction, get_next_auction_id_with_update, set_allowed_bidder, set_auction,
  set_matched_bids_len, set_vesting_queue,
}
use fundraising.Prelude.{
  ==_iff, List, Option, ap, inl, inr, none, refl, some, subst, ℕ, ◌==◌, ◌∙◌, ◌≡◌,
}
use fundraising.Prelude.Store.{lookup, lookup-insert}
use fundraising.Sdk.{Address, Coin}
use fundraising.Sdk.Outcome.{Error}
use fundraising.Types.{AllowedBidder, Auction, VestingQueue}
use mathlib.Core.Path.{sym}

same_tables :
    (s t : State)
    → t.auctions ≡ s.auctions
    → t.bids ≡ s.bids
    → t.bid_index ≡ s.bid_index
    → t.last_bid_ids ≡ s.last_bid_ids
    → KeepsBids s t
unfolding get_auction
same_tables s t a b i l = record {
  same_bids = b;
  same_index = i;
  same_last_ids = l;
  still_keyed = λ h j x e. h j x (sym (ap (lookup j) a) ∙ e);
}

pub bank-KeepsBids : (s : State) (m : Balances) → KeepsBids s (record s { bank = m })
bank-KeepsBids s m = same_tables s _ refl refl refl refl

pub set_vesting_queue-KeepsBids :
    (q : VestingQueue) → Relates KeepsBids (modify (set_vesting_queue q))
unfolding set_vesting_queue
set_vesting_queue-KeepsBids q s = same_tables s _ refl refl refl refl

pub set_allowed_bidder-KeepsBids :
    (k : ℕ) (ab : AllowedBidder) → Relates KeepsBids (modify (set_allowed_bidder k ab))
unfolding set_allowed_bidder
set_allowed_bidder-KeepsBids k ab s = same_tables s _ refl refl refl refl

pub set_matched_bids_len-KeepsBids :
    (k n : ℕ) → Relates KeepsBids (modify (set_matched_bids_len k n))
unfolding set_matched_bids_len
set_matched_bids_len-KeepsBids k n s = same_tables s _ refl refl refl refl

pub get_next_auction_id-KeepsBids : Relates KeepsBids get_next_auction_id_with_update
unfolding get_next_auction_id_with_update
get_next_auction_id-KeepsBids s = same_tables s _ refl refl refl refl

keyed_after :
    (a : Auction) (s : State)
    → ((i : ℕ) (x : Auction) → get_auction i s ≡ some x → x.id ≡ i)
    → (i : ℕ) (x : Auction) → get_auction i (set_auction a s) ≡ some x
    → x.id ≡ i
unfolding get_auction set_auction
keyed_after a s h i x e =
    elim (when_then (i == a.id) a x (lookup i s.auctions)
      (sym (lookup-insert i a.id a s.auctions) ∙ e)) [
        | inl (f, g) ↦ ap (λ y. y.id) g ∙ sym ((==_iff i a.id).0 f)
        | inr (_, g) ↦ h i x g
      ]

pub set_auction-KeepsBids : (a : Auction) → Relates KeepsBids (modify (set_auction a))
unfolding set_auction
set_auction-KeepsBids a s = record {
  same_bids = refl;
  same_index = refl;
  same_last_ids = refl;
  still_keyed = keyed_after a s;
}

module _ ⦃env : Env⦄ where
  pub call_hooks-KeepsBids : QuietHooks → (c : HookCall) → Relates KeepsBids (modify (call_hooks c))
  call_hooks-KeepsBids quiet c s = subst (KeepsBids s) (sym (quiet c s)) (KeepsBids-IsFrame.same s)

  keep_balances-KeepsBids : (o : Option Balances) (s : State) → KeepsBids s (keep_balances s o).1
  keep_balances-KeepsBids none s = KeepsBids-IsFrame.same s
  keep_balances-KeepsBids (some m) s = bank-KeepsBids s m

  pub send_coins-KeepsBids :
      (from to : Address) (c : Coin) → Relates KeepsBids (send_coins from to c)
  unfolding send_coins
  send_coins-KeepsBids from to c s = keep_balances-KeepsBids (env.send_coins from to c s.bank) s

  pub fund_community_pool-KeepsBids :
      (fee : List Coin) (payer : Address) → Relates KeepsBids (fund_community_pool fee payer)
  unfolding fund_community_pool
  fund_community_pool-KeepsBids fee payer s =
      keep_balances-KeepsBids (env.fund_community_pool fee payer s.bank) s

-- Actions one after the other, and an action that writes nothing.
pub steps :
    {A B : Type 0} (m : Action A) (f : A → Action B)
    → Relates KeepsBids m
    → ((a : A) → Relates KeepsBids (f a))
    → Relates KeepsBids (m >>= f)
steps m f h k = >>=-Relates KeepsBids KeepsBids-IsFrame m f h k

pub still : (s : State) → KeepsBids s s
still s = KeepsBids-IsFrame.same s

pub found : {A : Type 0} (o : Option A) (e : Error) → Relates KeepsBids (found_or o e)
found o e = found_or-Relates KeepsBids KeepsBids-IsFrame o e
