-- ===== src/Examples/World.antt =====
-- A concrete SDK for the examples: fixed-point decimals, a bank on a balance function, addresses by
-- number, and no hooks.
use fundraising.Keeper.Env.{Env, amount_at, call_hooks}
use fundraising.Keeper.Frame.{QuietHooks}
use fundraising.Keeper.State.{Balances}
use fundraising.Prelude.{
  ==_iff, Bool, Bool-cases, List, Option, [], ap, arith, false, if◌then◌else◌, inl, inr, ltb, none,
  refl, some, subst, true, ℕ, ◌*◌, ◌+◌, ◌-◌, ◌/◌, ◌==◌, ◌∷◌, ◌≡◌, ◌≢◌, ◌≤◌,
}
use fundraising.Sdk.{Address, Coin, Denom, new_coin}
use fundraising.Sdk.Accounts.{
  Accounts, ReservePrefix, paying_reserve, selling_reserve, vesting_reserve,
}
use fundraising.Sdk.Coins.{Coins}
use fundraising.Sdk.Decimals.{Decimal, Decimals, one}
use fundraising.Sdk.Outcome.{ok, panic}
use mathlib.Core.Path.{sym}

pub decimals_mul : (a : ℕ) (e : Decimal) → a * one * e / one ≡ a * e
decimals_mul a e = omega arith

instance unfoldable pub fixed_point : Decimals
fixed_point = record {
  new_dec_from_int = λ a. a * one;
  quo_truncate = λ d e. d * one / e;
  quo = λ d e. d * one / e;
  mul = λ d e. d * e / one;
  mul_truncate = λ d e. d * e / one;
  mul_int = λ d a. d * a;
  ceil = λ d. (d + (one - 1)) / one * one;
  truncate_int = λ d. d / one;
  new_dec_from_int_units = λ a. refl;
  quo_truncate_floor = λ d e h. refl;
  mul_whole = decimals_mul;
  mul_truncate_floor = λ d e. refl;
  mul_int_exact = λ d a. refl;
  ceil_up = λ d. refl;
  truncate_int_down = λ d. refl;
}

instance unfoldable pub plain_coins : Coins
plain_coins = record {
  is_lt = λ c d. if c.denom == d.denom then ok (ltb c.amount d.amount) else panic;
  sub_coin = λ c d.
      if c.denom == d.denom
      then (if ltb c.amount d.amount then panic else ok (new_coin c.denom (c.amount - d.amount)))
      else panic;
  is_lt_amount = λ c d same. ground arith;
  is_lt_other = λ c d other. ground arith;
  sub_coin_amount = λ c d same le. ground arith;
  sub_coin_below = λ c d less. ground arith;
  sub_coin_other = λ c d other. ground arith;
}

abbrev prefix_code : ReservePrefix → ℕ
prefix_code selling_reserve = 0
prefix_code paying_reserve = 1
prefix_code vesting_reserve = 2

abbrev numbered_account : ReservePrefix → ℕ → Address
numbered_account p i = 1000 + 3 * i + prefix_code p

pub numbered_account-injective :
    (p q : ReservePrefix) (i j : ℕ)
    → numbered_account p i ≡ numbered_account q j
    → (p ≡ q) × (i ≡ j)
numbered_account-injective selling_reserve selling_reserve i j e = (refl, omega arith)
numbered_account-injective selling_reserve paying_reserve i j e = absurd (omega arith)
numbered_account-injective selling_reserve vesting_reserve i j e = absurd (omega arith)
numbered_account-injective paying_reserve selling_reserve i j e = absurd (omega arith)
numbered_account-injective paying_reserve paying_reserve i j e = (refl, omega arith)
numbered_account-injective paying_reserve vesting_reserve i j e = absurd (omega arith)
numbered_account-injective vesting_reserve selling_reserve i j e = absurd (omega arith)
numbered_account-injective vesting_reserve paying_reserve i j e = absurd (omega arith)
numbered_account-injective vesting_reserve vesting_reserve i j e = (refl, omega arith)

instance unfoldable pub numbered_accounts : Accounts
numbered_accounts = record {
  valid_address = λ x. true;
  valid_denom = λ d. true;
  validate_coin = λ c. true;
  valid_coins = λ cs. true;
  address_module = numbered_account;
  address_hash = numbered_account;
  address_module_inj = numbered_account-injective;
}

abbrev debit : Address → Coin → Balances → Option Balances
debit from c b =
    if ltb (b from c.denom) c.amount
    then none
    else some (λ x e. b x e - amount_at x e ((from, c) ∷ []))

covered_at :
    (from : Address) (c : Coin) (b : Balances)
    → c.amount ≤ b from c.denom
    → (x : Address) (e : Denom) → amount_at x e ((from, c) ∷ []) ≤ b x e
covered_at from c b h x e = elim (Bool-cases (x == from)) [
  | inl p ↦ elim (Bool-cases (e == c.denom)) [
    | inl q ↦
        subst (λ (y : ℕ). amount_at y e ((from, c) ∷ []) ≤ b y e) (sym ((==_iff x from).0 p))
          (subst (λ (d : ℕ). amount_at from d ((from, c) ∷ []) ≤ b from d)
            (sym ((==_iff e c.denom).0 q)) (ground arith))
    | inr q ↦ ground arith
  ]
  | inr p ↦ ground arith
]

debit_lem :
    (from : Address) (c : Coin) (b m : Balances)
    → debit from c b ≡ some m
    → (c.amount ≤ b from c.denom)
      × ((x : Address) (e : Denom) → m x e + amount_at x e ((from, c) ∷ []) ≡ b x e)
debit_lem from c b m h = go (ltb (b from c.denom) c.amount) refl h
  where
    go :
        (p : Bool)
        → ltb (b from c.denom) c.amount ≡ p
        → (if p then none else some (λ x e. b x e - amount_at x e ((from, c) ∷ []))) ≡ some m
        → (c.amount ≤ b from c.denom)
          × ((x : Address) (e : Denom) → m x e + amount_at x e ((from, c) ∷ []) ≡ b x e)
    go true e h = cc
    go false e h = (
      ground arith,
      λ x d.
          let at : m x d ≡ b x d - amount_at x d ((from, c) ∷ []) =
            ap (λ (o : Option Balances). elim o [ none ↦ 0 | some n ↦ n x d ]) (sym h) in
          omega (arith, covered_at from c b (ground arith) x d),
    )

-- Take one coin after another, each only if it is covered.
abbrev debit_all : List (Address × Coin) → Balances → Option Balances
debit_all [] b = some b
debit_all ((x, c) ∷ cs) b = elim (debit x c b) [ none ↦ none | some m ↦ debit_all cs m ]

pub debit_all_lem :
    (cs : List (Address × Coin)) (b m : Balances)
    → debit_all cs b ≡ some m
    → (x : Address) (e : Denom) → m x e + amount_at x e cs ≡ b x e
debit_all_lem [] b m h x e =
    let same : m x e ≡ b x e =
      ap (λ (o : Option Balances). elim o [ none ↦ 0 | some n ↦ n x e ]) (sym h) in
    omega arith
debit_all_lem ((y, c) ∷ cs) b m h x e = go (debit y c b) refl h (λ n q. debit_all_lem cs n m q x e)
  where
    go :
        (o : Option Balances)
        → debit y c b ≡ o
        → (elim o [ none ↦ none | some n ↦ debit_all cs n ]) ≡ some m
        → ((n : Balances) → debit_all cs n ≡ some m → m x e + amount_at x e cs ≡ n x e)
        → m x e + amount_at x e ((y, c) ∷ cs) ≡ b x e
    go none p q later = cc
    go (some n) p q later = omega (arith, later n q, (debit_lem y c b n p).1 x e)

abbrev credit_all : List (Address × Coin) → Balances → Balances
credit_all cs b x e = b x e + amount_at x e cs

abbrev charge : Address → List Coin → List (Address × Coin)
charge payer [] = []
charge payer (c ∷ cs) = (payer, c) ∷ charge payer cs

pub charge_others :
    (payer x : Address) (e : Denom) (fee : List Coin)
    → x ≢ payer
    → amount_at x e (charge payer fee) ≡ 0
charge_others payer x e [] h = refl
charge_others payer x e (c ∷ cs) h = ground (arith, charge_others payer x e cs h)

abbrev transfer : Address → Address → Coin → Balances → Option Balances
transfer from to c b = elim (debit from c b) [
  | none ↦ none
  | some m ↦ some (credit_all ((to, c) ∷ []) m)
]

pub transfer_lem :
    (from to : Address) (c : Coin) (b b' : Balances)
    → transfer from to c b ≡ some b'
    → (c.amount ≤ b from c.denom)
      × ((x : Address) (e : Denom)
          → b' x e + amount_at x e ((from, c) ∷ []) ≡ b x e + amount_at x e ((to, c) ∷ []))
transfer_lem from to c b b' h = go (debit from c b) refl h
  where
    go :
        (o : Option Balances)
        → debit from c b ≡ o
        → (elim o [ none ↦ none | some m ↦ some (credit_all ((to, c) ∷ []) m) ]) ≡ some b'
        → (c.amount ≤ b from c.denom)
          × ((x : Address) (e : Denom)
              → b' x e + amount_at x e ((from, c) ∷ []) ≡ b x e + amount_at x e ((to, c) ∷ []))
    go none p q = cc
    go (some m) p q = (
      (debit_lem from c b m p).0,
      λ x e.
          let moved : b' x e ≡ m x e + amount_at x e ((to, c) ∷ []) =
            ap (λ (r : Option Balances). elim r [ none ↦ 0 | some n ↦ n x e ]) (sym q) in
          omega (arith, (debit_lem from c b m p).1 x e),
    )

pub transfer_covered :
    (from to : Address) (c : Coin) (b : Balances)
    → c.amount ≤ b from c.denom
    → transfer from to c b ≢ none
transfer_covered from to c b h e = ground arith

instance unfoldable pub simple_bank : Env
simple_bank = record {
  send_coins = transfer;
  input_output_coins = λ inputs outputs b. debit_all inputs (credit_all outputs b);
  fund_community_pool = λ fee payer. debit_all (charge payer fee);
  hooks = none;
  send_coins_moves = λ from to c b b' h. (transfer_lem from to c b b' h).1;
  send_coins_covered = λ from to c b b' h. (transfer_lem from to c b b' h).0;
  send_coins_succeeds = transfer_covered;
  input_output_coins_moves =
      λ inputs outputs b b' h. debit_all_lem inputs (credit_all outputs b) b' h;
  fund_community_pool_others = λ fee payer b b' h x e n.
      omega (arith, debit_all_lem (charge payer fee) b b' h x e, charge_others payer x e fee n);
}

pub no_hooks : QuietHooks
unfolding call_hooks simple_bank
no_hooks c s = refl
