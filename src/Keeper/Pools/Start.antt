-- ===== src/Keeper/Pools/Start.antt =====
-- A chain that starts from the default genesis state (x/fundraising/types/genesis.go, keeper/genesis.go),
-- and its reserves.
use fundraising.Keeper.Action.{lift, modify, must, ◌>>=◌}
use fundraising.Keeper.Bids.Consistent.{IsConsistent}
use fundraising.Keeper.Env.{Env}
use fundraising.Keeper.Frame.{QuietHooks}
use fundraising.Keeper.Genesis.{
  init_allowed_bidders, init_auctions, init_bids, init_genesis, init_vesting_queues,
}
use fundraising.Keeper.Invariants.{
  paying_pool_reserve_amount_invariant, selling_pool_reserve_amount_invariant,
}
use fundraising.Keeper.Pools.{Everyone, IsFunded}
use fundraising.Keeper.Pools.Runs.{LiveRun, LiveRun-pool_invariants}
use fundraising.Keeper.State.{Balances, State}
use fundraising.Keeper.Tables.{get_auction, get_bid, get_last_bid_id}
use fundraising.Prelude.{Bool, [], ap, arith, false, none, refl, some, subst, ℕ, ◌<◌, ◌^◌, ◌≡◌}
use fundraising.Prelude.Store.{lookup}
use fundraising.Sdk.{Denom}
use fundraising.Sdk.Accounts.{Accounts}
use fundraising.Sdk.Coins.{Coins}
use fundraising.Sdk.Decimals.{Decimals}
use fundraising.Sdk.Outcome.{Result, err, ok, panic}
use fundraising.Types.{Params}
use fundraising.Types.Genesis.{default_genesis_state, default_params, validate_genesis}
use mathlib.Core.Path.{sym}

-- A store with nothing in it.
abbrev pub empty_store : Params → Balances → State
empty_store params bank = record {
  params = params;
  last_auction_id = 0;
  last_bid_ids = [];
  auctions = [];
  allowed_bidders = [];
  bids = [];
  bid_index = [];
  matched_bids_lens = [];
  vesting_queues = [];
  bank = bank;
}

none_found : {A B : Type 0} {x : A} → none ≡ some x → B
none_found h = cc

empty-IsConsistent : (p : Params) (m : Balances) → IsConsistent (empty_store p m)
unfolding get_auction get_bid lookup
empty-IsConsistent p m = record {
  auctions_keyed = λ i a h. none_found h;
  bids_ordered = λ a. tt;
  bids_keyed = λ a i b h. none_found h;
  index_ordered = λ k. tt;
  indexed = λ a i b h. none_found h;
  index_sound = λ k a i h. none_found h;
}

module _ ⦃dec : Decimals⦄ ⦃acc : Accounts⦄ where
  empty-IsFunded : (p : Params) (m : Balances) → IsFunded Everyone (empty_store p m)
  unfolding get_auction get_bid lookup
  empty-IsFunded p m = record {
    auctions_ordered = tt;
    well_made = λ k a h. none_found h;
    numbered = λ k a h. none_found h;
    bids_fit = λ k i a b h. none_found h;
    no_bids = λ k h. refl;
    funded = λ k a _ h. none_found h;
    stocked = λ k a _ h. none_found h;
  }

  -- The default genesis state sets the parameters, and nothing else.
  init_default_genesis :
      (bond : Denom) (p : Params) (m : Balances) (s : State)
      → init_genesis (default_genesis_state bond) (empty_store p m) ≡ (ok tt, s)
      → empty_store (default_params bond) m ≡ s
  unfolding init_genesis init_auctions init_allowed_bidders init_bids init_vesting_queues ◌>>=◌ must
  init_default_genesis bond p m s h = go (validate_genesis (default_genesis_state bond)) h
    where
      go :
          (r : Result (Unit {0}))
          → (must (lift r) >>= λ _. modify (λ t. record t { params = default_params bond }))
              (empty_store p m)
            ≡ (ok tt, s)
          → empty_store (default_params bond) m ≡ s
      go (ok x) e = ap (λ r. r.1) e
      go (err x) e = cc
      go panic e = cc

  module _ ⦃coins : Coins⦄ ⦃env : Env⦄ (quiet : QuietHooks) (enabled : Bool) where
    -- From an empty store and the default genesis state, every run of blocks that do not panic and of
    -- fewer than 2 ^ 64 messages, from accounts that are no paying or selling reserve, leads to a state in
    -- which the registered checks of the selling and of the paying reserves find nothing broken; the hooks of
    -- other modules are taken to leave the state alone.
    pub default_genesis-pool_invariants :
        (bond : Denom) (p : Params) (m : Balances) (s : State) (n : ℕ) (t : State)
        → init_genesis (default_genesis_state bond) (empty_store p m) ≡ (ok tt, s)
        → LiveRun enabled s n t
        → n < 2 ^ 64
        → (selling_pool_reserve_amount_invariant t ≡ false)
          × (paying_pool_reserve_amount_invariant t ≡ false)
    unfolding get_last_bid_id lookup
    default_genesis-pool_invariants bond p m s n t h run short =
        let origin = empty_store (default_params bond) m in
        let run' : LiveRun enabled origin n t =
          subst (λ x. LiveRun enabled x n t) (sym (init_default_genesis bond p m s h)) run in
        LiveRun-pool_invariants enabled origin quiet (empty-IsConsistent (default_params bond) m)
          (empty-IsFunded (default_params bond) m) n t run' (λ k. omega arith) (omega arith)
