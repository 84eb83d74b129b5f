-- ===== src/Keeper/Inversion.antt =====
-- What a method that returns a value has passed: rules to read a successful run backwards, with the
-- bind of actions unfolded.
use fundraising.Keeper.Action.{Action, continue_with, found_or, lift, must, pure, return_if, throw}
use fundraising.Keeper.Env.{Env, amount_at}
use fundraising.Keeper.Fees.{fund_community_pool, keep_balances, send_coins}
use fundraising.Keeper.State.{Balances, State}
use fundraising.Prelude.{
  Bool, List, Option, [], ap, arith, false, if◌then◌else◌, ltb, none, not, refl, some, subst, true,
  ℕ, ◌+◌, ◌==◌, ◌∷◌, ◌≡◌, ◌≤◌,
}
use fundraising.Sdk.{Address, Coin, Denom}
use fundraising.Sdk.Outcome.{Error, Result, err, ok, panic}
use mathlib.Core.Path.{sym}

module _ {B : Type 0} where
  pub found-inv :
      {A : Type 0} (o : Option A) (e : Error) (f : A → Action B) (s s' : State) {b : B}
      → continue_with f (found_or o e s) ≡ (ok b, s')
      → (a : A) × (o ≡ some a) × (f a s ≡ (ok b, s'))
  found-inv none e f s s' h = cc
  found-inv (some a) e f s s' h = (a, refl, h)

  pub guard-inv :
      (c : Bool) (e : Error) (f : Unit {0} → Action B) (s s' : State) {b : B}
      → continue_with f (return_if c e s) ≡ (ok b, s')
      → (c ≡ false) × (f tt s ≡ (ok b, s'))
  guard-inv true e f s s' h = cc
  guard-inv false e f s s' h = (refl, h)

  pub throw_if-inv :
      (c : Bool) (f : Unit {0} → Action B) (s s' : State) {b : B}
      → continue_with f ((if c then throw else pure tt) s) ≡ (ok b, s')
      → (c ≡ false) × (f tt s ≡ (ok b, s'))
  throw_if-inv true f s s' h = cc
  throw_if-inv false f s s' h = (refl, h)

  pub lift-inv :
      {A : Type 0} (r : Result A) (f : A → Action B) (s s' : State) {b : B}
      → continue_with f (lift r s) ≡ (ok b, s')
      → (a : A) × (r ≡ ok a) × (f a s ≡ (ok b, s'))
  lift-inv (ok a) f s s' h = (a, refl, h)
  lift-inv (err e) f s s' h = cc
  lift-inv panic f s s' h = cc

  pub send-inv :
      ⦃env : Env⦄ (from to : Address) (c : Coin) (f : Unit {0} → Action B) (s s' : State) {b : B}
      → continue_with f (send_coins from to c s) ≡ (ok b, s')
      → (m : Balances) × (env.send_coins from to c s.bank ≡ some m)
        × (f tt (record s { bank = m }) ≡ (ok b, s'))
  unfolding send_coins
  send-inv ⦃env⦄ from to c f s s' {b} h = go (env.send_coins from to c s.bank) refl h
    where
      go :
          (o : Option Balances)
          → env.send_coins from to c s.bank ≡ o
          → continue_with f (keep_balances s o) ≡ (ok b, s')
          → (m : Balances) × (env.send_coins from to c s.bank ≡ some m)
            × (f tt (record s { bank = m }) ≡ (ok b, s'))
      go none e h = cc
      go (some m) e h = (m, e, h)

  pub fund_community_pool-inv :
      ⦃env : Env⦄ (fee : List Coin) (payer : Address) (f : Unit {0} → Action B) (s s' : State)
      {b : B}
      → continue_with f (fund_community_pool fee payer s) ≡ (ok b, s')
      → (m : Balances) × (env.fund_community_pool fee payer s.bank ≡ some m)
        × (f tt (record s { bank = m }) ≡ (ok b, s'))
  unfolding fund_community_pool
  fund_community_pool-inv ⦃env⦄ fee payer f s s' {b} h =
      go (env.fund_community_pool fee payer s.bank) refl h
    where
      go :
          (o : Option Balances)
          → env.fund_community_pool fee payer s.bank ≡ o
          → continue_with f (keep_balances s o) ≡ (ok b, s')
          → (m : Balances) × (env.fund_community_pool fee payer s.bank ≡ some m)
            × (f tt (record s { bank = m }) ≡ (ok b, s'))
      go none e h = cc
      go (some m) e h = (m, e, h)

-- A method whose error would panic.
pub must-inv : (m : Action (Unit {0})) (s t : State) → must m s ≡ (ok tt, t) → m s ≡ (ok tt, t)
unfolding must
must-inv m s t h = go (m s) h
  where
    go :
        (r : Result (Unit {0}) × State)
        → ◌≡◌ {A = Result (Unit {0}) × State}
            (elim r.0 [ ok a ↦ ok a | err e ↦ panic | panic ↦ panic ], r.1)
            (ok tt, t)
        → r ≡ (ok tt, t)
    go (ok a, u) e = e
    go (err x, u) e = cc
    go (panic, u) e = cc

-- The last check of a method, and what the checks compare.
pub return_if-inv :
    (c : Bool) (e : Error) (s s' : State) → return_if c e s ≡ (ok tt, s') → (c ≡ false) × (s' ≡ s)
return_if-inv true e s s' h = cc
return_if-inv false e s s' h = (refl, sym (ap (λ r. r.1) h))

pub not-==_false : (x y : ℕ) → not (x == y) ≡ false → x ≡ y
not-==_false x y h = ground arith

pub ltb-false : (x y : ℕ) → ltb x y ≡ false → y ≤ x
ltb-false x y h = ground arith

-- Coins `c` have left `from` for `to`, and no other balance has changed.
abbrev pub Moves : Address → Address → Coin → State → State → Type 0
Moves from to c s s' =
    (x : Address) (e : Denom)
    → s'.bank x e + amount_at x e ((from, c) ∷ []) ≡ s.bank x e + amount_at x e ((to, c) ∷ [])

pub send_coins-Moves :
    ⦃env : Env⦄ (from to : Address) (c : Coin) (s s' : State) (m : Balances)
    → env.send_coins from to c s.bank ≡ some m
    → s'.bank ≡ m
    → Moves from to c s s'
send_coins-Moves ⦃env⦄ from to c s s' m sent e x d =
    subst (λ b. b x d + amount_at x d ((from, c) ∷ []) ≡ s.bank x d + amount_at x d ((to, c) ∷ []))
      (sym e) (env.send_coins_moves from to c s.bank m sent x d)

pub send_coins_lem :
    ⦃env : Env⦄ (from to : Address) (c : Coin) (s s' : State)
    → send_coins from to c s ≡ (ok tt, s')
    → Moves from to c s s'
unfolding send_coins
send_coins_lem ⦃env⦄ from to c s s' h = go (env.send_coins from to c s.bank) refl h
  where
    go :
        (o : Option Balances)
        → env.send_coins from to c s.bank ≡ o
        → keep_balances s o ≡ (ok tt, s')
        → Moves from to c s s'
    go none e h = cc
    go (some m) e h = send_coins-Moves from to c s s' m e (sym (ap (λ r. r.1.bank) h))
