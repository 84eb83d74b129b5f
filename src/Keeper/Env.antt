-- ===== src/Keeper/Env.antt =====
-- What the keeper calls outside the module: the bank and distribution keepers, and the hooks of
-- other modules. The laws are what the SDK documents of the two keepers.
use fundraising.Keeper.State.{Balances, HookCall, State}
use fundraising.Prelude.{List, Option, [], if◌then◌else◌, none, some, ◌+◌, ◌==◌, ◌∷◌, ◌≡◌, ◌≢◌, ◌≤◌}
use fundraising.Sdk.{Address, Amount, Coin, Denom}

-- What account `x` gives in a list of inputs, or gets in a list of outputs, of a denomination.
abbrev pub amount_at : Address → Denom → List (Address × Coin) → Amount
amount_at x e [] = 0
amount_at x e ((y, c) ∷ rest) =
    (if x == y then (if e == c.denom then c.amount else 0) else 0) + amount_at x e rest

pub record Env : Type 0 where
  -- `SendCoins` of one coin, from an account to another.
  pub send_coins : Address → Address → Coin → Balances → Option Balances
  pub input_output_coins :
      List (Address × Coin) → List (Address × Coin) → Balances → Option Balances
  pub fund_community_pool : List Coin → Address → Balances → Option Balances
  -- The hooks that are registered, if there are any; a hook has the whole state at hand.
  pub hooks : Option (HookCall → State → State)
  -- Coins that are sent leave the one account and reach the other, and nothing else moves.
  pub send_coins_moves :
      (from to : Address) (c : Coin) (b b' : Balances)
      → send_coins from to c b ≡ some b'
      → (x : Address) (e : Denom)
      → b' x e + amount_at x e ((from, c) ∷ []) ≡ b x e + amount_at x e ((to, c) ∷ [])
  -- A coin that is not covered is refused.
  pub send_coins_covered :
      (from to : Address) (c : Coin) (b b' : Balances)
      → send_coins from to c b ≡ some b'
      → c.amount ≤ b from c.denom
  -- One that is covered goes through.
  pub send_coins_succeeds :
      (from to : Address) (c : Coin) (b : Balances)
      → c.amount ≤ b from c.denom
      → send_coins from to c b ≢ none
  pub input_output_coins_moves :
      (inputs outputs : List (Address × Coin)) (b b' : Balances)
      → input_output_coins inputs outputs b ≡ some b'
      → (x : Address) (e : Denom) → b' x e + amount_at x e inputs ≡ b x e + amount_at x e outputs
  -- A fee is taken from its payer alone.
  pub fund_community_pool_others :
      (fee : List Coin) (payer : Address) (b b' : Balances)
      → fund_community_pool fee payer b ≡ some b'
      → (x : Address) (e : Denom) → x ≢ payer
      → b x e ≤ b' x e

-- `MultiFundraisingHooks` of types/hooks.go: several hooks, called in order.
unfoldable pub multi_hooks : List (HookCall → State → State) → HookCall → State → State
multi_hooks [] c s = s
multi_hooks (h ∷ hs) c s = multi_hooks hs c (h c s)

-- The methods of keeper/hooks.go: call the hook if one is registered.
unfoldable pub call_hooks : ⦃env : Env⦄ → HookCall → State → State
call_hooks ⦃env⦄ c s = elim env.hooks [ none ↦ s | some h ↦ h c s ]
