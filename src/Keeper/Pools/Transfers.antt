-- ===== src/Keeper/Pools/Transfers.antt =====
-- Transfers (x/fundraising/keeper/keeper.go, auction.go) and the reserves: what is not sent from
-- a reserve leaves at least as much there.
use fundraising.Keeper.Action.{modify}
use fundraising.Keeper.Closing.{transfers_from}
use fundraising.Keeper.Env.{Env, amount_at, call_hooks}
use fundraising.Keeper.Fees.{fund_community_pool, input_output_coins, keep_balances, send_coins}
use fundraising.Keeper.Frame.{QuietHooks, Relates}
use fundraising.Keeper.Pools.{IsApart, Spares, Spares-IsFrame}
use fundraising.Keeper.State.{Balances, HookCall, State}
use fundraising.Keeper.Tables.{
  get_next_bid_id_with_update, set_allowed_bidder, set_matched_bids_len, set_vesting_queue,
}
use fundraising.Keeper.Vesting.{set_vesting_queues}
use fundraising.Prelude.{
  List, Option, [], arith, inl, inr, none, refl, some, subst, ℕ, ◌∙◌, ◌∷◌, ◌≡◌, ◌≢◌, ◌≤◌, ◌⊎◌,
}
use fundraising.Sdk.{Address, Coin, Denom}
use fundraising.Sdk.Accounts.{Accounts, paying_reserve, selling_reserve, vesting_reserve}
use fundraising.Sdk.Decimals.{Decimals}
use fundraising.Types.{AllowedBidder, VestingQueue}
use fundraising.Types.Auctions.{
  derive_address, paying_reserve_address, selling_reserve_address, vesting_reserve_address,
}
use mathlib.Core.Path.{sym}

pub amount_at_other :
    (x y : Address) (e : Denom) (c : Coin) (rest : List (Address × Coin))
    → x ≢ y
    → amount_at x e ((y, c) ∷ rest) ≡ amount_at x e rest
amount_at_other x y e c rest n = ground arith

pub amount_at_self : (x : Address) (c : Coin) → amount_at x c.denom ((x, c) ∷ []) ≡ c.amount
amount_at_self x c = ground arith

transfers_from_other :
    (x r : Address) (e : Denom) (ts : List (Address × Coin))
    → x ≢ r
    → amount_at x e (transfers_from r ts) ≡ 0
unfolding transfers_from
transfers_from_other x r e [] n = refl
transfers_from_other x r e ((y, c) ∷ ts) n =
    amount_at_other x r e c (transfers_from r ts) n ∙ transfers_from_other x r e ts n

apart_at :
    ⦃acc : Accounts⦄ (k : ℕ) (y x : Address)
    → IsApart k y
    → (x ≡ paying_reserve_address k) ⊎ (x ≡ selling_reserve_address k)
    → x ≢ y
apart_at k y x n (inl e) p = n.0 (sym e ∙ p)
apart_at k y x n (inr e) p = n.1 (sym e ∙ p)

module _ ⦃dec : Decimals⦄ ⦃acc : Accounts⦄ (P : ℕ → Type 0) where
  -- Writes to other tables, with nothing moved.
  same_bank :
      (s t : State)
      → t.auctions ≡ s.auctions
      → t.last_auction_id ≡ s.last_auction_id
      → t.bids ≡ s.bids
      → t.bank ≡ s.bank
      → Spares P s t
  same_bank s t a l b m = record {
    same_auctions = a;
    same_last_id = l;
    same_bids = b;
    pool_kept = λ k p d. rw m (omega arith);
    stock_kept = λ k p d. rw m (omega arith);
  }

  pub set_vesting_queue-Spares :
      (q : VestingQueue) → Relates (Spares P) (modify (set_vesting_queue q))
  unfolding set_vesting_queue
  set_vesting_queue-Spares q s = same_bank s _ refl refl refl refl

  pub set_vesting_queues-Spares :
      (qs : List VestingQueue) → Relates (Spares P) (modify (set_vesting_queues qs))
  unfolding set_vesting_queues
  set_vesting_queues-Spares [] s = (Spares-IsFrame P).same s
  set_vesting_queues-Spares (q ∷ qs) s =
      (Spares-IsFrame P).then_also s (set_vesting_queue q s) _ (set_vesting_queue-Spares q s)
        (set_vesting_queues-Spares qs _)

  pub set_allowed_bidder-Spares :
      (k : ℕ) (ab : AllowedBidder) → Relates (Spares P) (modify (set_allowed_bidder k ab))
  unfolding set_allowed_bidder
  set_allowed_bidder-Spares k ab s = same_bank s _ refl refl refl refl

  pub set_matched_bids_len-Spares :
      (k n : ℕ) → Relates (Spares P) (modify (set_matched_bids_len k n))
  unfolding set_matched_bids_len
  set_matched_bids_len-Spares k n s = same_bank s _ refl refl refl refl

  pub get_next_bid_id-Spares : (k : ℕ) → Relates (Spares P) (get_next_bid_id_with_update k)
  unfolding get_next_bid_id_with_update
  get_next_bid_id-Spares k s = same_bank s _ refl refl refl refl

  module _ ⦃env : Env⦄ where
    pub call_hooks-Spares : QuietHooks → (c : HookCall) → Relates (Spares P) (modify (call_hooks c))
    call_hooks-Spares quiet c s = subst (Spares P s) (sym (quiet c s)) ((Spares-IsFrame P).same s)

    keep_balances-Spares :
        (o : Option Balances) (s : State)
        → ((m : Balances)
            → o ≡ some m
            → (k : ℕ) → P k
            → (x : Address) → (d : Denom)
            → (x ≡ paying_reserve_address k) ⊎ (x ≡ selling_reserve_address k)
            → s.bank x d ≤ m x d)
        → Spares P s (keep_balances s o).1
    keep_balances-Spares none s h = (Spares-IsFrame P).same s
    keep_balances-Spares (some m) s h = record {
      same_auctions = refl;
      same_last_id = refl;
      same_bids = refl;
      pool_kept = λ k p d. h m refl k p (paying_reserve_address k) d (inl refl);
      stock_kept = λ k p d. h m refl k p (selling_reserve_address k) d (inr refl);
    }

    pub send_coins-Spares :
        (from to : Address) (c : Coin)
        → ((k : ℕ) → P k → IsApart k from)
        → Relates (Spares P) (send_coins from to c)
    unfolding send_coins
    send_coins-Spares from to c n s =
        keep_balances-Spares (env.send_coins from to c s.bank) s (λ m e k p x d w. omega (
          arith,
          env.send_coins_moves from to c s.bank m e x d,
          amount_at_other x from d c [] (apart_at k from x (n k p) w),
        ))

    pub pay_out-Spares :
        (from : Address) (outs : List (Address × Coin))
        → ((k : ℕ) → P k → IsApart k from)
        → Relates (Spares P) (input_output_coins (transfers_from from outs) outs)
    unfolding input_output_coins
    pay_out-Spares from outs n s =
        let ins = transfers_from from outs in
        keep_balances-Spares (env.input_output_coins ins outs s.bank) s (λ m e k p x d w. omega (
          arith,
          env.input_output_coins_moves ins outs s.bank m e x d,
          transfers_from_other x from d outs (apart_at k from x (n k p) w),
        ))

    pub fund_community_pool-Spares :
        (fee : List Coin) (payer : Address)
        → ((k : ℕ) → P k → IsApart k payer)
        → Relates (Spares P) (fund_community_pool fee payer)
    unfolding fund_community_pool
    fund_community_pool-Spares fee payer n s =
        keep_balances-Spares (env.fund_community_pool fee payer s.bank) s (λ m e k p x d w.
          env.fund_community_pool_others fee payer s.bank m e x d (apart_at k payer x (n k p) w))

-- The reserve accounts are different for different auctions and purposes.
module _ ⦃acc : Accounts⦄ where
  pub paying-not_selling : (k j : ℕ) → paying_reserve_address k ≢ selling_reserve_address j
  unfolding paying_reserve_address selling_reserve_address derive_address
  paying-not_selling k j e =
      let (p, _) = acc.address_module_inj paying_reserve selling_reserve k j e in cc

  pub paying-not_vesting : (k j : ℕ) → paying_reserve_address k ≢ vesting_reserve_address j
  unfolding paying_reserve_address vesting_reserve_address derive_address
  paying-not_vesting k j e =
      let (p, _) = acc.address_module_inj paying_reserve vesting_reserve k j e in cc

  pub selling-not_vesting : (k j : ℕ) → selling_reserve_address k ≢ vesting_reserve_address j
  unfolding selling_reserve_address vesting_reserve_address derive_address
  selling-not_vesting k j e =
      let (p, _) = acc.address_module_inj selling_reserve vesting_reserve k j e in cc

  pub selling-injective : (k j : ℕ) → selling_reserve_address k ≡ selling_reserve_address j → k ≡ j
  unfolding selling_reserve_address derive_address
  selling-injective k j e = (acc.address_module_inj selling_reserve selling_reserve k j e).1

  pub paying-injective : (k j : ℕ) → paying_reserve_address k ≡ paying_reserve_address j → k ≡ j
  unfolding paying_reserve_address derive_address
  paying-injective k j e = (acc.address_module_inj paying_reserve paying_reserve k j e).1
