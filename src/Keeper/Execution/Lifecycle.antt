-- ===== src/Keeper/Execution/Lifecycle.antt =====
-- The life of an auction through the blocks (x/fundraising/abci.go, keeper/execution.go): which
-- statuses follow one another, and what of an auction never changes.
use fundraising.Keeper.Action.{◌>>=◌}
use fundraising.Keeper.Closing.Release.{release_vesting_paying_coin}
use fundraising.Keeper.Env.{Env}
use fundraising.Keeper.Execution.{
  begin_blocker, close_auction, close_if, execute_auction, execute_auctions,
  execute_stand_by_status, execute_started_status, execute_vesting_status,
}
use fundraising.Keeper.Execution.Writes.{
  Writes, Writes-IsFrame, Writes-mono, close_batch_auction-Writes, close_fixed_price_auction-Writes,
  release_queues-Writes, set_auction-Writes,
}
use fundraising.Keeper.Frame.{>>=-Relates, QuietHooks, Relates, if-Relates, must-Relates}
use fundraising.Keeper.State.{State}
use fundraising.Keeper.Tables.{get_auction, get_auctions}
use fundraising.Prelude.{
  Bool, List, Option, [], arith, false, inl, inr, none, refl, some, subst, true, ℕ, ◌++◌, ◌∙◌, ◌∷◌,
  ◌≡◌, ◌⊎◌,
}
use fundraising.Prelude.Store.{IsOrdered, Store, lookup, lookup-Above, values}
use fundraising.Sdk.{Time}
use fundraising.Sdk.Decimals.{Decimals}
use fundraising.Types.{Auction, AuctionStatus, AuctionType}
use fundraising.Types.Auctions.{set_end_times, set_status, should_auction_closed}
use mathlib.Core.Path.{sym}

-- The steps that a block may take an auction by.
pub data Step : AuctionStatus → AuctionStatus → Type 0 where
  stays : (s : AuctionStatus) → Step s s
  opens : Step AuctionStatus.stand_by AuctionStatus.started
  closes_with_vesting : Step AuctionStatus.started AuctionStatus.vesting
  closes_at_once : Step AuctionStatus.started AuctionStatus.finished
  ends_vesting : Step AuctionStatus.vesting AuctionStatus.finished

-- An auction after a block, from what it was: a step of the status, perhaps another end time while
-- it is started, and all else as it was.
pub record Evolves (a b : Auction) : Type 0 where
  pub step : Step a.status b.status
  pub same_kind : b.kind ≡ a.kind
  pub same_base : b.base ≡ record a.base { status = b.status; end_times = b.end_times }
  pub end_times_kept :
      (b.end_times ≡ a.end_times)
      ⊎ ((t : Time) × (b.end_times ≡ a.end_times ++ t ∷ []) × (b.status ≡ AuctionStatus.started))

set_status-Evolves :
    (a : Auction) (st : AuctionStatus) → Step a.status st → Evolves a (set_status st a)
unfolding set_status
set_status-Evolves a st h = record {
  step = h;
  same_kind = refl;
  same_base = refl;
  end_times_kept = inl refl;
}

set_end_times-Evolves :
    (a : Auction) (t : Time)
    → a.status ≡ AuctionStatus.started
    → Evolves a (set_end_times (a.end_times ++ t ∷ []) a)
unfolding set_end_times
set_end_times-Evolves a t e = record {
  step = stays a.status;
  same_kind = refl;
  same_base = refl;
  end_times_kept = inr (t, refl, e);
}

unchanged : (a : Auction) → Evolves a a
unchanged a = record {
  step = stays a.status;
  same_kind = refl;
  same_base = refl;
  end_times_kept = inl refl;
}

-- Every auction is stored under its id.
abbrev pub IsKeyed : Store Auction → Type 0
IsKeyed [] = Unit {0}
IsKeyed ((j, a) ∷ m) = (a.id ≡ j) × IsKeyed m

module _ ⦃dec : Decimals⦄ ⦃env : Env⦄ (quiet : QuietHooks) where
  -- What `execute_auction` writes.
  abbrev pub EvolvesAt : Auction → ℕ → Auction → Type 0
  EvolvesAt a j b = (j ≡ a.id) × Evolves a b

  pub execute_auction-Writes :
      (now : Time) (a : Auction) → Relates (Writes (EvolvesAt a)) (execute_auction now a a.status)
  unfolding execute_auction execute_stand_by_status execute_started_status execute_vesting_status
      release_vesting_paying_coin set_status
  execute_auction-Writes now a = go a.status refl
    where
      steps_to :
          (st st' : AuctionStatus)
          → a.status ≡ st
          → Step st st'
          → EvolvesAt a a.id (set_status st' a)
      steps_to st st' e h = (refl, set_status-Evolves a st' (subst (λ x. Step x st') (sym e) h))

      close_auction-Writes :
          (typ : AuctionType)
          → a.status ≡ AuctionStatus.started
          → Relates (Writes (EvolvesAt a)) (close_auction a typ)
      close_auction-Writes AuctionType.nil e = λ s j. inl refl
      close_auction-Writes AuctionType.fixed_price e =
          close_fixed_price_auction-Writes (EvolvesAt a) quiet a
            (steps_to _ _ e closes_with_vesting) (steps_to _ _ e closes_at_once)
      close_auction-Writes AuctionType.batch e =
          close_batch_auction-Writes (EvolvesAt a) quiet a (steps_to _ _ e closes_with_vesting)
            (steps_to _ _ e closes_at_once) (λ t. (refl, set_end_times-Evolves a t e))

      close_if-Writes :
          (o : Option Bool)
          → a.status ≡ AuctionStatus.started
          → Relates (Writes (EvolvesAt a)) (close_if a o)
      close_if-Writes none e = λ s j. inl refl
      close_if-Writes (some true) e = close_auction-Writes a.typ e
      close_if-Writes (some false) e = λ s j. inl refl

      go :
          (st : AuctionStatus)
          → a.status ≡ st
          → Relates (Writes (EvolvesAt a)) (execute_auction now a st)
      go AuctionStatus.stand_by e =
          if-Relates (Writes (EvolvesAt a)) (Writes-IsFrame (EvolvesAt a)) _ _ _
            (set_auction-Writes (EvolvesAt a) (set_status AuctionStatus.started a)
              (steps_to _ _ e opens))
            (λ s j. inl refl)
      go AuctionStatus.started e = close_if-Writes (should_auction_closed now a) e
      go AuctionStatus.vesting e =
          must-Relates (Writes (EvolvesAt a)) (Writes-IsFrame (EvolvesAt a)) _ (
            >>=-Relates (Writes (EvolvesAt a)) (Writes-IsFrame (EvolvesAt a)) _ _ (λ s j. inl refl)
              (λ qs.
                release_queues-Writes (EvolvesAt a) quiet now a qs (steps_to _ _ e ends_vesting)))
      go AuctionStatus.nil e = λ s j. inl refl
      go AuctionStatus.finished e = λ s j. inl refl
      go AuctionStatus.cancelled e = λ s j. inl refl

  -- What the loop over a list of auctions writes.
  abbrev pub EvolvesAny : List Auction → ℕ → Auction → Type 0
  EvolvesAny [] j b = ⊥
  EvolvesAny (a ∷ as') j b = EvolvesAt a j b ⊎ EvolvesAny as' j b

  pub execute_auctions-Writes :
      (now : Time) (as' : List Auction)
      → Relates (Writes (EvolvesAny as')) (execute_auctions now as')
  unfolding execute_auctions
  execute_auctions-Writes now [] = λ s j. inl refl
  execute_auctions-Writes now (a ∷ as') =
      >>=-Relates (Writes Q) (Writes-IsFrame Q) _ _
        (Writes-mono (EvolvesAt a) Q (λ j b h. inl h) (execute_auction now a a.status)
          (execute_auction-Writes now a))
        (λ _.
          Writes-mono (EvolvesAny as') Q (λ j b h. inr h) (execute_auctions now as')
            (execute_auctions-Writes now as'))
    where
      Q : ℕ → Auction → Type 0
      Q = EvolvesAny (a ∷ as')

  pub evolved_from :
      (m : Store Auction) (j : ℕ) (b : Auction)
      → IsOrdered m
      → IsKeyed m
      → EvolvesAny (values m) j b
      → (a : Auction) × (lookup j m ≡ some a) × Evolves a b
  unfolding lookup
  evolved_from [] j b o key h = elim h [ ]
  evolved_from ((k, a) ∷ m) j b o key (inl (e, h)) = (a, ground arith, h)
  evolved_from ((k, a) ∷ m) j b o key (inr h) =
      let (a', e, ev) = evolved_from m j b o.1 key.1 h in
      (a', ground (arith, lookup-Above k m o.0), ev)

  block-Evolves :
      (now : Time) (s : State)
      → IsOrdered s.auctions
      → IsKeyed s.auctions
      → (j : ℕ)
      → ((a : Auction)
          → get_auction j s ≡ some a
          → (b : Auction) × (get_auction j (begin_blocker now s).1 ≡ some b) × Evolves a b)
        × (get_auction j s ≡ none → get_auction j (begin_blocker now s).1 ≡ none)
  unfolding begin_blocker get_auctions get_auction ◌>>=◌
  block-Evolves now s o key j = go (execute_auctions-Writes now (values s.auctions) s j)
    where
      after : Option Auction
      after = lookup j (execute_auctions now (values s.auctions) s).1.auctions

      go :
          (after ≡ lookup j s.auctions)
            ⊎ ((b : Auction) × EvolvesAny (values s.auctions) j b × (after ≡ some b))
          → ((a : Auction)
              → lookup j s.auctions ≡ some a
              → (b : Auction) × (after ≡ some b) × Evolves a b)
            × (lookup j s.auctions ≡ none → after ≡ none)
      go (inl same) = (λ a e. (a, same ∙ e, unchanged a), λ e. same ∙ e)
      go (inr (b, h, e)) =
          let (a', e', ev) = evolved_from s.auctions j b o key h in
          (λ a found. (b, e, subst (λ x. Evolves x b) (cc) ev), λ absent. absurd (ground arith))

  -- If the hooks leave the state alone, a block takes every stored auction by one step of its life or
  -- none, whether or not it panics: the status goes from stand-by to started, from started to vesting
  -- or finished, from vesting to finished, or stays; perhaps a started auction has one more end time;
  -- all its other fields are as they were.
  pub begin_blocker-Evolves :
      (now : Time) (s : State)
      → IsOrdered s.auctions
      → IsKeyed s.auctions
      → (j : ℕ) (a : Auction) → get_auction j s ≡ some a
      → (b : Auction) × (get_auction j (begin_blocker now s).1 ≡ some b) × Evolves a b
  begin_blocker-Evolves now s o key j a e = (block-Evolves now s o key j).0 a e

  -- If the hooks leave the state alone, a block stores no auction under an id that had none.
  pub begin_blocker_adds_none :
      (now : Time) (s : State)
      → IsOrdered s.auctions
      → IsKeyed s.auctions
      → (j : ℕ) → get_auction j s ≡ none
      → get_auction j (begin_blocker now s).1 ≡ none
  begin_blocker_adds_none now s o key j e = (block-Evolves now s o key j).1 e
