-- ===== src/Keeper/After.antt =====
-- What holds of the state after a step and what follows it, however they end: for the steps that write
-- nothing, with the bind of actions unfolded.
use fundraising.Keeper.Action.{Action, continue_with, found_or, lift, return_if}
use fundraising.Keeper.State.{State}
use fundraising.Prelude.{Bool, Option, false, none, refl, some, true, ◌≡◌}
use fundraising.Sdk.Outcome.{Error, Result, err, ok, panic}

module _ {A B : Type 0} (P : State → Type 0) where
  pub after_lift :
      (r : Result A) (f : A → Action B) (s : State)
      → P s
      → ((a : A) → r ≡ ok a → P (f a s).1)
      → P (continue_with f (lift r s)).1
  after_lift (ok a) f s h k = k a refl
  after_lift (err e) f s h k = h
  after_lift panic f s h k = h

  pub after_found :
      (o : Option A) (e : Error) (f : A → Action B) (s : State)
      → P s
      → ((a : A) → o ≡ some a → P (f a s).1)
      → P (continue_with f (found_or o e s)).1
  after_found none e f s h k = h
  after_found (some a) e f s h k = k a refl

module _ {B : Type 0} (P : State → Type 0) where
  pub after_guard :
      (c : Bool) (e : Error) (f : Unit {0} → Action B) (s : State)
      → P s
      → (c ≡ false → P (f tt s).1)
      → P (continue_with f (return_if c e s)).1
  after_guard true e f s h k = h
  after_guard false e f s h k = k refl
