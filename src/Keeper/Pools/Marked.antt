-- ===== src/Keeper/Pools/Marked.antt =====
-- The marks of matched bids (x/fundraising/keeper/match.go) leave what the bids pay as it was.
use fundraising.Keeper.Action.{◌>>=◌}
use fundraising.Keeper.After.{after_lift}
use fundraising.Keeper.Bids.Blocks.{best_match-matched, found_some, values-All}
use fundraising.Keeper.Bids.Consistent.{IsConsistent, get_bid-set_bid_at, get_bid_own}
use fundraising.Keeper.Bids.Stored.{both_eq}
use fundraising.Keeper.Matching.{best_match, calculate_batch_allocation, store_matched}
use fundraising.Keeper.Pools.{Everyone, FitsAuction, IsFunded, Spares-IsFunded}
use fundraising.Keeper.Pools.Stored.{
  bids_at-set_bid, none_value, one_value, paid_by, set_bid-IsFunded,
}
use fundraising.Keeper.Pools.Transfers.{set_matched_bids_len-Spares}
use fundraising.Keeper.State.{State}
use fundraising.Keeper.Tables.{
  get_allowed_bidders_by_auction, get_auction, get_bid, get_bids_by_auction_id, set_bid,
}
use fundraising.Prelude.{
  All, Bool, Bool-cases, List, Option-cases, [], ap, arith, if◌then◌else◌, inl, inr, none, refl,
  some, subst, true, ℕ, ◌&&◌, ◌==◌, ◌∙◌, ◌∷◌, ◌≡◌,
}
use fundraising.Prelude.Store.{IsOrdered, insert-IsOrdered, lookup, lookup_or}
use fundraising.Sdk.{Denom}
use fundraising.Sdk.Accounts.{Accounts}
use fundraising.Sdk.Decimals.{Decimals}
use fundraising.Sdk.Outcome.{ok, panic}
use fundraising.Types.{Auction, Bid}
use fundraising.Types.Bids.{convert_to_paying_amount, set_matched}
use fundraising.Types.Matching.OrderBook.{All-map}
use mathlib.Core.Path.{sym}

abbrev SameTerms : Bid → Bid → Type 0
SameTerms x y = (x.typ ≡ y.typ) × (x.coin ≡ y.coin) × (x.price ≡ y.price)

-- A bid stands in the table, perhaps with another mark.
abbrev StandsAs : State → Bid → Type 0
StandsAs s b = (old : Bid) × (get_bid b.auction_id b.id s ≡ some old) × SameTerms old b

SameTerms-FitsAuction :
    (a : Auction) (x y : Bid) → SameTerms x y → FitsAuction a x → FitsAuction a y
SameTerms-FitsAuction a x y (t, c, _) fits batch = elim (fits batch) [
  | inl (e, d) ↦ inl (sym t ∙ e, ap (λ z. z.denom) (sym c) ∙ d)
  | inr (e, d) ↦ inr (sym t ∙ e, ap (λ z. z.denom) (sym c) ∙ d)
]

module _ ⦃dec : Decimals⦄ where
  SameTerms-paying :
      (d : Denom) (x y : Bid)
      → SameTerms x y
      → convert_to_paying_amount d x ≡ convert_to_paying_amount d y
  unfolding convert_to_paying_amount
  SameTerms-paying d x y (_, c, p) = cc

module _ ⦃dec : Decimals⦄ ⦃acc : Accounts⦄ where
  abbrev Ordered : State → Type 0
  Ordered s = (k : ℕ) → IsOrdered (lookup_or [] k s.bids)

  set_bid-Ordered : (b : Bid) (s : State) → Ordered s → Ordered (set_bid b s)
  set_bid-Ordered b s o k = rw (bids_at-set_bid b s k) (elim (Bool-cases (k == b.auction_id)) [
    | inl e ↦ rw e (insert-IsOrdered b.id b (lookup_or [] b.auction_id s.bids) (o b.auction_id))
    | inr e ↦ rw e (o k)
  ])

  -- A bid of the table belongs to an auction of the table.
  auction_of_bid :
      (b old : Bid) (s : State)
      → IsFunded Everyone s
      → get_bid b.auction_id b.id s ≡ some old
      → (a : Auction) × (get_auction b.auction_id s ≡ some a)
  unfolding get_bid lookup
  auction_of_bid b old s f g = elim (Option-cases (get_auction b.auction_id s)) [
    | inl e ↦ absurd (none_value refl (sym (ap (lookup b.id) (f.no_bids b.auction_id e)) ∙ g))
    | inr h ↦ h
  ]

  mark-IsFunded :
      (b : Bid) (s : State)
      → IsFunded Everyone s
      → Ordered s
      → StandsAs s b
      → IsFunded Everyone (set_bid (set_matched true b) s)
  unfolding set_matched
  mark-IsFunded b s f o (old, g, same) =
      let (a, stored) = auction_of_bid b old s f g in
      set_bid-IsFunded (set_matched true b) s Everyone a f (o b.auction_id) stored
        (SameTerms-FitsAuction a old (set_matched true b) same
          (f.bids_fit b.auction_id b.id a old stored g))
        (λ _ op.
          let d = a.paying_coin_denom in
          let paid = ap (paid_by d) g in
          omega (
            arith,
            f.funded b.auction_id a tt stored op,
            SameTerms-paying d old (set_matched true b) same,
          ))

  mark-StandsAs :
      (b x : Bid) (s : State)
      → StandsAs s b
      → StandsAs s x
      → StandsAs (set_bid (set_matched true b) s) x
  unfolding set_matched
  mark-StandsAs b x s (ob, gb, hb) (ox, gx, hx) =
      let m = set_matched true b in
      let at = get_bid-set_bid_at m s x.auction_id x.id in
      elim (Bool-cases (x.auction_id == b.auction_id && x.id == b.id)) [
        | inl e ↦
            let (p, q) = both_eq x.auction_id b.auction_id x.id b.id e in
            let one : ob ≡ ox = one_value gb (
              subst (λ k. get_bid k b.id s ≡ some ox) p
                (subst (λ i. get_bid x.auction_id i s ≡ some ox) q gx)) in
            (
              m,
              at ∙ ap (λ (t : Bool). if t then some m else get_bid x.auction_id x.id s) e,
              (
                sym hb.0 ∙ ap (λ y. y.typ) one ∙ hx.0,
                sym hb.1 ∙ ap (λ y. y.coin) one ∙ hx.1,
                sym hb.2 ∙ ap (λ y. y.price) one ∙ hx.2,
              ),
            )
        | inr e ↦ (
          ox,
          at ∙ ap (λ (t : Bool). if t then some m else get_bid x.auction_id x.id s) e ∙ gx,
          hx,
        )
      ]

  store_matched-IsFunded :
      (bs : List Bid) (s : State)
      → IsFunded Everyone s
      → Ordered s
      → All (StandsAs s) bs
      → IsFunded Everyone (store_matched bs s) × ((store_matched bs s).auctions ≡ s.auctions)
  unfolding store_matched set_bid
  store_matched-IsFunded [] s f o q = (f, refl)
  store_matched-IsFunded (b ∷ bs) s f o q =
      store_matched-IsFunded bs (set_bid (set_matched true b) s) (mark-IsFunded b s f o q.0)
        (set_bid-Ordered (set_matched true b) s o)
        (All-map bs q.1 (λ x h. mark-StandsAs b x s q.0 h))

  All-StandsAs :
      (s : State) → IsConsistent s → (k : ℕ) → All (StandsAs s) (get_bids_by_auction_id k s)
  unfolding get_bids_by_auction_id get_bid
  All-StandsAs s c k =
      values-All (StandsAs s) (lookup_or [] k s.bids) (c.bids_ordered k)
        (λ i v e. (v, get_bid_own k i v s c e, (refl, refl, refl)))

  -- The allocation of a batch auction leaves the auctions alone and the reserves covered.
  pub calculate_batch_allocation-IsFunded :
      (a : Auction) (s : State)
      → IsConsistent s
      → IsFunded Everyone s
      → IsFunded Everyone (calculate_batch_allocation a s).1
        × ((calculate_batch_allocation a s).1.auctions ≡ s.auctions)
  unfolding calculate_batch_allocation ◌>>=◌
  calculate_batch_allocation-IsFunded a s c f =
      let bids = get_bids_by_auction_id a.id s in
      let allowed = get_allowed_bidders_by_auction a.id s in
      let Done : State → Type 0 = λ t. IsFunded Everyone t × (t.auctions ≡ s.auctions) in
      after_lift Done (best_match bids a.selling_coin.amount allowed) _ s (f, refl)
        (λ best e.
          after_lift Done (elim best [ none ↦ panic | some r ↦ ok r ]) _ s (f, refl)
            (λ r g.
              let found : best_match bids a.selling_coin.amount allowed ≡ ok (some r) =
                e ∙ ap ok (found_some best r g) in
              let (f1, same) = store_matched-IsFunded r.matched_bids s f c.bids_ordered (
                best_match-matched (StandsAs s) bids a.selling_coin.amount allowed r
                  (All-StandsAs s c a.id) found) in
              let k =
                set_matched_bids_len-Spares Everyone a.id _ (store_matched r.matched_bids s) in
              (
                Spares-IsFunded Everyone Everyone (store_matched r.matched_bids s) _ (λ j _. tt) k
                    f1,
                k.same_auctions ∙ same,
              )))
