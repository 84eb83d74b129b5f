-- ===== src/Keeper/Frame.antt =====
-- What actions write: rules to follow a relation between the states before and after a method.
use fundraising.Keeper.Action.{
  Action, continue_with, found_or, gets, lift, must, pure, return_if, throw, ◌>>=◌,
}
use fundraising.Keeper.Env.{Env, call_hooks}
use fundraising.Keeper.State.{HookCall, State}
use fundraising.Prelude.{Bool, Option, false, if◌then◌else◌, none, refl, some, subst, true, ◌≡◌}
use fundraising.Sdk.Outcome.{Error, Result, err, ok, panic}

-- The hooks of other modules leave this module's state and the bank alone.
abbrev pub QuietHooks : ⦃env : Env⦄ → Type 0
QuietHooks = (c : HookCall) (s : State) → call_hooks c s ≡ s

-- A relation that holds between equal states and composes, such as "this table is the same".
pub record IsFrame {κ} (R : State → State → Type κ) : Type κ where
  pub same : (s : State) → R s s
  pub then_also : (s t u : State) → R s t → R t u → R s u

-- The states before and after an action are related, however it ends.
abbrev pub Relates {κ} : {A : Type 0} → (State → State → Type κ) → Action A → Type κ
Relates R m = (s : State) → R s (m s).1

module _ {κ} (R : State → State → Type κ) (fr : IsFrame R) where
  pub pure-Relates : {A : Type 0} (a : A) → Relates R (pure a)
  pure-Relates a s = fr.same s

  pub gets-Relates : {A : Type 0} (f : State → A) → Relates R (gets f)
  gets-Relates f s = fr.same s

  pub lift-Relates : {A : Type 0} (r : Result A) → Relates R (lift r)
  lift-Relates r s = fr.same s

  pub throw-Relates : (A : Type 0) → Relates R (throw {A = A})
  throw-Relates A s = fr.same s

  pub found_or-Relates : {A : Type 0} (o : Option A) (e : Error) → Relates R (found_or o e)
  found_or-Relates none e s = fr.same s
  found_or-Relates (some a) e s = fr.same s

  pub return_if-Relates : (b : Bool) (e : Error) → Relates R (return_if b e)
  return_if-Relates b e s = fr.same s

  pub >>=-Relates :
      {A B : Type 0} (m : Action A) (f : A → Action B)
      → Relates R m
      → ((a : A) → Relates R (f a))
      → Relates R (m >>= f)
  unfolding ◌>>=◌
  >>=-Relates m f hm hf s = go (m s) refl
    where
      go : (r : Result _ × State) → m s ≡ r → R s (continue_with f r).1
      go (ok a, t) e = fr.then_also s t (f a t).1 (subst (λ r. R s r.1) e (hm s)) (hf a t)
      go (err x, t) e = subst (λ r. R s r.1) e (hm s)
      go (panic, t) e = subst (λ r. R s r.1) e (hm s)

  pub must-Relates : (m : Action (Unit {0})) → Relates R m → Relates R (must m)
  unfolding must
  must-Relates m h s = h s

  pub if-Relates :
      {A : Type 0} (b : Bool) (m k : Action A)
      → Relates R m
      → Relates R k
      → Relates R (if b then m else k)
  if-Relates true m k hm hk = hm
  if-Relates false m k hm hk = hk
