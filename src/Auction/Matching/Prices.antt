-- ===== src/Auction/Matching/Prices.antt =====
-- The rates that the orders end up with.
use zk_obs.Common.{
  ℕ, ◌≤◌, ◌<◌, ◌≡◌, refl, ap, ◌∙◌, sym, List, [], ◌∷◌, ◌++◌, arith, All, All-implied, All-append,
  get_elem?, ==_iff, some,
}
use mathlib.Core.Path.{subst}
use zk_obs.Auction.{
  MatchedAuctionDetail, AuctionOrder, details_of, sum_by, amount_at, matched_amount,
  add_matched_detail,
}
use zk_obs.Auction.InterestMap.{InterestMap, interest_list, sort_by, get_lend_order_interest_map}
use zk_obs.Auction.InterestMap.Grouping.{has_rate, contains-orders_at}
use zk_obs.Auction.Matching.{Pass, match_rates, match_borrow, match_borrows, run_matching}
use zk_obs.Auction.Matching.Sums.{IsKnown, IsFilled, IsFilled-cong}
use zk_obs.Auction.Matching.Steps.{All-IsKnown_more}
use zk_obs.Auction.Matching.Loops.{match_rates-IsPass}
use zk_obs.Auction.Matching.Rounds.{
  IsReady, start_of, start_of-IsPass, end_of, end_of-IsPass, match_borrow-IsRounds,
}
use zk_obs.Auction.Matching.Filling.{All-sort_by, initial, initial-IsReady}
use zk_obs.Auction.Matching.Rates.{rate_at, IsPriced}
use zk_obs.Auction.Matching.RateLoops.{IsGrouped, IsGrouped-later, match_rates-IsRated}
use zk_obs.Auction.Matching.Settling.{IsUniform, IsSettled, settle_rates-IsSettled}

-- The order has no details.
abbrev pub IsFresh : AuctionOrder → Type 0
IsFresh o = details_of o ≡ []

-- The details of a borrow order have one rate, which is not above the order's own.
abbrev pub IsFair : (ℕ → MatchedAuctionDetail) → AuctionOrder → Type 0
IsFair details borrow = IsUniform borrow.interest_rate details (details_of borrow)

uniform_kept :
    (n rate : ℕ) (details details' : ℕ → MatchedAuctionDetail) (ks : List ℕ)
    → ((k : ℕ) → k < n → rate_at details' k ≡ rate_at details k)
    → All (λ k. k < n) ks
    → All (λ k. rate_at details k ≡ rate) ks
    → All (λ k. rate_at details' k ≡ rate) ks
uniform_kept n rate details details' [] same known h = tt
uniform_kept n rate details details' (k ∷ ks) same known h =
    (same k known.0 ∙ h.0, uniform_kept n rate details details' ks same known.1 h.1)

All-IsFair_kept :
    (n : ℕ) (details details' : ℕ → MatchedAuctionDetail) (bs : List AuctionOrder)
    → ((k : ℕ) → k < n → rate_at details' k ≡ rate_at details k)
    → All (IsKnown n) bs
    → All (IsFair details) bs
    → All (IsFair details') bs
All-IsFair_kept n details details' [] same known h = tt
All-IsFair_kept n details details' (b ∷ bs) same known h =
    let (rate, low, one) = h.0 in
    (
      (rate, low, uniform_kept n rate details details' (details_of b) same known.0 one),
      All-IsFair_kept n details details' bs same known.1 h.1,
    )

module _ (clock : ℕ → ℕ) (m : InterestMap) where
  end_of-IsSettled :
      (b : AuctionOrder) (t : Pass)
      → IsReady t
      → IsGrouped m t
      → All (IsPriced t.details) t.lends
      → IsSettled b.interest_rate (start_of b t) (end_of clock m b t)
  end_of-IsSettled b t ready grouped priced =
      let start = start_of b t in
      let begun = start_of-IsPass b t ready in
      settle_rates-IsSettled b.interest_rate start
        (match_rates clock m b.interest_rate (interest_list m) start)
        (match_rates-IsPass clock m b.interest_rate (interest_list m) start start begun)
        (match_rates-IsRated clock m b.interest_rate (interest_list m) start start begun grouped
          (record { priced = priced; cheap = tt; fresh = tt; old = λ k less. refl }))

  match_borrow-IsFair :
      (b : AuctionOrder) (t : Pass)
      → IsReady t
      → IsGrouped m t
      → All (IsPriced t.details) t.lends
      → IsFresh b
      → All (IsFair t.details) t.borrows
      → All (IsFair (match_borrow clock m b t).details) (match_borrow clock m b t).borrows
  unfolding match_borrow add_matched_detail
  match_borrow-IsFair b t ready grouped priced new fair =
      let u = end_of clock m b t in
      let settled = end_of-IsSettled b t ready grouped priced in
      let new_b = add_matched_detail (clock u.ticks) u.match_details b in
      subst (λ bs. All (IsFair u.details) (bs ++ new_b ∷ []))
        (sym (end_of-IsPass clock m b t ready).borrows)
        (All-append (IsFair u.details) t.borrows (new_b ∷ [])
          (All-IsFair_kept t.next t.details u.details t.borrows settled.old ready.known_borrows
            fair)
          (
            subst (λ ks. IsUniform b.interest_rate u.details (ks ++ u.match_details)) (sym new)
                settled.uniform,
            tt,
          ))

  match_borrows-IsFair :
      (bs : List AuctionOrder) (s : Pass)
      → IsReady s
      → All (IsKnown s.next) bs
      → All (IsFilled s.details) bs
      → All IsFresh bs
      → IsGrouped m s
      → All (IsPriced s.details) s.lends
      → All (IsFair s.details) s.borrows
      → All (IsPriced (match_borrows clock m bs s).details) (match_borrows clock m bs s).lends
        × All (IsFair (match_borrows clock m bs s).details) (match_borrows clock m bs s).borrows
  unfolding match_borrows match_borrow
  match_borrows-IsFair [] s ready known filled new grouped priced fair = (priced, fair)
  match_borrows-IsFair (b ∷ bs) s ready known filled new grouped priced fair =
      let t = match_borrow clock m b s in
      let round = match_borrow-IsRounds clock m b s ready known.0 filled.0 in
      match_borrows-IsFair bs t round.ready (All-IsKnown_more s.next t.next bs round.later known.1)
        (IsFilled-cong s.next s.details t.details round.same bs known.1 filled.1) new.1
        (IsGrouped-later m s t round.grown grouped)
        (end_of-IsSettled b s ready grouped priced).priced
        (match_borrow-IsFair b s ready grouped priced new.0 fair)

IsFresh-IsKnown : (n : ℕ) (o : AuctionOrder) → IsFresh o → IsKnown n o
IsFresh-IsKnown n o new = subst (All (λ k. k < n)) (sym new) tt

IsFresh-IsFilled :
    (details : ℕ → MatchedAuctionDetail) (o : AuctionOrder) → IsFresh o → IsFilled details o
unfolding matched_amount
IsFresh-IsFilled details o new =
    subst (λ ks. sum_by (amount_at details) ks ≤ o.amount) (sym new) (omega arith)

IsFresh-IsPriced :
    (details : ℕ → MatchedAuctionDetail) (o : AuctionOrder) → IsFresh o → IsPriced details o
IsFresh-IsPriced details o new = subst (All (λ k. o.interest_rate ≤ rate_at details k)) (sym new) tt

get_lend_order_interest_map-IsGrouped :
    (lends : List AuctionOrder) (s : Pass)
    → s.lends ≡ lends
    → IsGrouped (get_lend_order_interest_map lends) s
get_lend_order_interest_map-IsGrouped lends s e rate i lend listed found =
    let there = contains-orders_at lends i rate in
    let place : get_elem? lends i ≡ some lend = ap (λ os. get_elem? os i) (sym e) ∙ found in
    sym ((==_iff rate lend.interest_rate).0 (ap (has_rate rate) (sym place) ∙ sym there ∙ listed))

-- After the pass over orders without details, no detail of a lend order has a rate below the order's
-- own, and the details of a borrow order have one rate, which is not above the order's own.
pub run_matching-IsFair :
    (clock : ℕ → ℕ) (details : ℕ → MatchedAuctionDetail) (next : ℕ)
    (borrow_orders lend_orders : List AuctionOrder)
    → All IsFresh borrow_orders
    → All IsFresh lend_orders
    → All
        (IsPriced (run_matching clock details next borrow_orders lend_orders).details)
        (run_matching clock details next borrow_orders lend_orders).lends
      × All
          (IsFair (run_matching clock details next borrow_orders lend_orders).details)
          (run_matching clock details next borrow_orders lend_orders).borrows
unfolding run_matching
run_matching-IsFair clock details next borrow_orders lend_orders new_borrows new_lends =
    let known_borrows =
      All-implied IsFresh (IsKnown next) borrow_orders (IsFresh-IsKnown next) new_borrows in
    let known_lends =
      All-implied IsFresh (IsKnown next) lend_orders (IsFresh-IsKnown next) new_lends in
    let filled_borrows =
      All-implied IsFresh (IsFilled details) borrow_orders (IsFresh-IsFilled details) new_borrows in
    let filled_lends =
      All-implied IsFresh (IsFilled details) lend_orders (IsFresh-IsFilled details) new_lends in
    let by_time : AuctionOrder → ℕ = λ order. order.created_time in
    let s =
      initial clock details next borrow_orders lend_orders known_borrows known_lends filled_borrows
        filled_lends in
    match_borrows-IsFair clock (get_lend_order_interest_map lend_orders)
      (sort_by by_time borrow_orders) s
      (initial-IsReady clock details next borrow_orders lend_orders known_borrows known_lends
        filled_borrows filled_lends)
      (All-sort_by by_time (IsKnown next) borrow_orders known_borrows)
      (All-sort_by by_time (IsFilled details) borrow_orders filled_borrows)
      (All-sort_by by_time IsFresh borrow_orders new_borrows)
      (get_lend_order_interest_map-IsGrouped lend_orders s refl)
      (All-implied IsFresh (IsPriced details) lend_orders (IsFresh-IsPriced details) new_lends) tt
