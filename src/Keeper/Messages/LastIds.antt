-- ===== src/Keeper/Messages/LastIds.antt =====
-- The methods that give out no id of a bid (x/fundraising/keeper/bid.go, abci.go).
use fundraising.Keeper.Action.{Action, modify, pure, ◌>>=◌}
use fundraising.Keeper.Bids.{place_by_type}
use fundraising.Keeper.Bids.Modify.{modify_bid}
use fundraising.Keeper.Bids.Steps.{place_by_type-KeepsBids, reserve_difference-KeepsBids}
use fundraising.Keeper.Bids.Untouched.{
  call_hooks-KeepsBids, found, set_auction-KeepsBids, set_matched_bids_len-KeepsBids,
  set_vesting_queue-KeepsBids,
}
use fundraising.Keeper.Env.{Env, call_hooks}
use fundraising.Keeper.Execution.Keeps.{KeptByBlock}
use fundraising.Keeper.Frame.{>>=-Relates, IsFrame, QuietHooks, Relates}
use fundraising.Keeper.Matching.{calculate_batch_allocation, store_matched}
use fundraising.Keeper.State.{HookCall, State, before_bid_placed}
use fundraising.Keeper.Tables.{get_last_bid_id, set_bid}
use fundraising.Prelude.{List, [], ap, refl, true, ℕ, ◌∙◌, ◌∷◌, ◌≡◌}
use fundraising.Prelude.Store.{lookup_or}
use fundraising.Sdk.Accounts.{Accounts}
use fundraising.Sdk.Coins.{Coins}
use fundraising.Sdk.Decimals.{Decimals}
use fundraising.Sdk.Outcome.{not_found}
use fundraising.Types.{Auction, Bid, MsgModifyBid}
use fundraising.Types.Bids.{set_matched}

-- No id of a bid is given out.
abbrev pub SameLastIds : State → State → Type 0
SameLastIds s t = t.last_bid_ids ≡ s.last_bid_ids

pub last_ids-same :
    (s t : State) (k : ℕ) → SameLastIds s t → get_last_bid_id k t ≡ get_last_bid_id k s
unfolding get_last_bid_id
last_ids-same s t k e = ap (lookup_or 0 k) e

SameLastIds-IsFrame : IsFrame SameLastIds
SameLastIds-IsFrame = record { same = λ s. refl; then_also = λ s t u p q. q ∙ p }

set_bid-SameLastIds : (b : Bid) → Relates SameLastIds (modify (set_bid b))
unfolding set_bid
set_bid-SameLastIds b s = refl

store_matched-SameLastIds : (bs : List Bid) → Relates SameLastIds (modify (store_matched bs))
unfolding store_matched
store_matched-SameLastIds [] s = refl
store_matched-SameLastIds (b ∷ bs) s =
    store_matched-SameLastIds bs _ ∙ set_bid-SameLastIds (set_matched true b) s

calculate_batch_allocation-SameLastIds :
    ⦃dec : Decimals⦄ (a : Auction) → Relates SameLastIds (calculate_batch_allocation a)
unfolding calculate_batch_allocation
calculate_batch_allocation-SameLastIds a =
    link _ _ (λ s. refl)
      (λ bids.
        link _ _ (λ s. refl)
          (λ allowed.
            link _ _ (λ s. refl)
              (λ best.
                link _ _ (λ s. refl)
                  (λ r. link _ _ (store_matched-SameLastIds r.matched_bids) (λ _.
                    link _ _ (λ s. (set_matched_bids_len-KeepsBids a.id _ s).same_last_ids)
                      (λ _ s. refl))))))
  where
    link :
        {A B : Type 0} (m : Action A) (f : A → Action B)
        → Relates SameLastIds m
        → ((x : A) → Relates SameLastIds (f x))
        → Relates SameLastIds (m >>= f)
    link = >>=-Relates SameLastIds SameLastIds-IsFrame

module _ ⦃dec : Decimals⦄ ⦃coins : Coins⦄ ⦃acc : Accounts⦄ ⦃env : Env⦄ (quiet : QuietHooks) where
  pub SameLastIds-KeptByBlock : KeptByBlock SameLastIds
  SameLastIds-KeptByBlock = record {
    frame = SameLastIds-IsFrame;
    bank_kept = λ s m. refl;
    hooks_kept = λ c. λ s. (call_hooks-KeepsBids quiet c s).same_last_ids;
    auction_kept = λ a. λ s. (set_auction-KeepsBids a s).same_last_ids;
    queue_kept = λ q. λ s. (set_vesting_queue-KeepsBids q s).same_last_ids;
    allocation_kept = calculate_batch_allocation-SameLastIds;
  }

  link :
      {A B : Type 0} (m : Action A) (f : A → Action B)
      → Relates SameLastIds m
      → ((x : A) → Relates SameLastIds (f x))
      → Relates SameLastIds (m >>= f)
  link = >>=-Relates SameLastIds SameLastIds-IsFrame

  store_bid-SameLastIds :
      {A : Type 0} (c : HookCall) (b : Bid) (x : A)
      → Relates SameLastIds (modify (call_hooks c) >>= λ _. modify (set_bid b) >>= λ _. pure x)
  store_bid-SameLastIds c b x =
      link _ _ (λ s. (call_hooks-KeepsBids quiet c s).same_last_ids)
        (λ _. link _ _ (set_bid-SameLastIds b) (λ _ s. refl))

  pub modify_bid-SameLastIds : (msg : MsgModifyBid) → Relates SameLastIds (modify_bid msg)
  unfolding modify_bid
  modify_bid-SameLastIds msg =
      link _ _ (λ s. refl)
        (λ o.
          link _ _ (λ s. (found o not_found s).same_last_ids)
            (λ a.
              link _ _ (λ s. refl)
                (λ _.
                  link _ _ (λ s. refl)
                    (λ _.
                      link _ _ (λ s. refl)
                        (λ o'.
                          link _ _ (λ s. (found o' not_found s).same_last_ids)
                            (λ b.
                              link _ _ (λ s. refl)
                                (λ _.
                                  link _ _ (λ s. refl)
                                    (λ f.
                                      link _ _ (λ s. refl)
                                        (λ _.
                                          link _ _ (λ s. refl)
                                            (λ _.
                                              link _ _ (λ s. refl)
                                                (λ _.
                                                  link _ _ (λ s. refl)
                                                    (λ _.
                                                      link _ _
                                                        (λ s.
                                                          (reserve_difference-KeepsBids a b msg
                                                            b.typ s).same_last_ids)
                                                        (λ _.
                                                          link _ _
                                                            (λ s.
                                                            (call_hooks-KeepsBids quiet _
                                                            s).same_last_ids)
                                                            (λ _.
                                                            set_bid-SameLastIds _))))))))))))))

  pub place_rest-SameLastIds :
      (a : Auction) (b : Bid)
      → Relates SameLastIds (
          place_by_type a b b.typ >>= λ b'.
          modify
            (call_hooks (before_bid_placed b'.auction_id b'.id b'.bidder b'.typ b'.price b'.coin))
          >>= λ _. modify (set_bid b') >>= λ _. pure b')
  place_rest-SameLastIds a b =
      link _ _ (λ s. (place_by_type-KeepsBids a b b.typ s).same_last_ids)
        (λ b'. store_bid-SameLastIds _ b' b')
