-- ===== src/Keeper/Action.antt =====
-- A method of the keeper: state, errors and panics. The state comes back after an error too, since
-- what was written stays written until the SDK rolls the transaction back.
use fundraising.Keeper.State.{State}
use fundraising.Prelude.{Bool, Option, if◌then◌else◌, none, refl, some, ◌≡◌}
use fundraising.Sdk.Outcome.{Error, Result, err, ok, panic}

abbrev pub Action : Type 0 → Type 0
Action A = State → Result A × State

module _ {A : Type 0} where
  abbrev pub pure : A → Action A
  pure a s = (ok a, s)

  abbrev pub raise : Error → Action A
  raise e s = (err e, s)

  abbrev pub throw : Action A
  throw s = (panic, s)

  abbrev pub gets : (State → A) → Action A
  gets f s = (ok (f s), s)

  -- `if !found { return e }`
  abbrev pub found_or : Option A → Error → Action A
  found_or none e = raise e
  found_or (some a) e = pure a

  abbrev pub lift : Result A → Action A
  lift r s = (r, s)

abbrev pub modify : (State → State) → Action (Unit {0})
modify f s = (ok tt, f s)

abbrev pub return_if : Bool → Error → Action (Unit {0})
return_if b e s = (if b then err e else ok tt, s)

module _ {A B : Type 0} where
  -- What follows a call, by how the call ended.
  abbrev pub continue_with : (A → Action B) → Result A × State → Result B × State
  continue_with f (ok a, s) = f a s
  continue_with f (err e, s) = (err e, s)
  continue_with f (panic, s) = (panic, s)

-- Shut, so that a method keeps the shape of its steps in a proof.
infixl 5 ◌>>=◌ ◌>>◌
unfoldable pub ◌>>=◌ : {A B : Type 0} → Action A → (A → Action B) → Action B
◌>>=◌ m f s = continue_with f (m s)

abbrev pub ◌>>◌ : {A B : Type 0} → Action A → Action B → Action B
m >> k = m >>= λ _. k

-- `if err := m; err != nil { panic(err) }`
unfoldable pub must : Action (Unit {0}) → Action (Unit {0})
must m s = let (r, s') = m s in (elim r [ ok a ↦ ok a | err e ↦ panic | panic ↦ panic ], s')

module _ {A B : Type 0} where
  pub >>=-inv :
      (m : Action A) (f : A → Action B) (s s'' : State) {b : B}
      → (m >>= f) s ≡ (ok b, s'')
      → (a : A) × (s' : State) × (m s ≡ (ok a, s')) × (f a s' ≡ (ok b, s''))
  unfolding ◌>>=◌
  >>=-inv m f s s'' {b} h = go (m s) h refl
    where
      go :
          (r : Result A × State)
          → continue_with f r ≡ (ok b, s'')
          → m s ≡ r
          → (a : A) × (s' : State) × (m s ≡ (ok a, s')) × (f a s' ≡ (ok b, s''))
      go (ok a, s') e p = (a, s', p, e)
      go (err x, s') e p = cc
      go (panic, s') e p = cc
