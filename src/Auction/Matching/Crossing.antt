-- ===== src/Auction/Matching/Crossing.antt =====
-- After the pass no borrow order and no lend order that could be matched both have a rest.
use zk_obs.Common.{
  ◌≤◌, All-get_elem?, All-append, map, ℕ, ◌≡◌, refl, ap, ◌∙◌, sym, ◌⊎◌, inl, inr, Bool, true, ◌&&◌,
  some, List, [], ◌∷◌, ◌++◌, arith, All, All-append, get_elem?, leb, Option-cases, ==_iff, contains,
}
use mathlib.Core.Path.{subst}
use zk_obs.Auction.{MatchedAuctionDetail, AuctionOrder, remain_amount, add_matched_detail}
use zk_obs.Auction.InterestMap.{
  InterestMap, orders_at, interest_list, sort_by, get_lend_order_interest_map,
}
use zk_obs.Auction.InterestMap.Grouping.{has_rate, get_lend_order_interest_map_lem}
use zk_obs.Auction.Matching.{
  max_rate, Pass, match_rates, settle_rates, match_borrow, match_borrows, run_matching,
}
use zk_obs.Auction.Matching.Sums.{IsFilled-cong, IsSame, IsKnown, IsFilled, matched_amount_cong}
use zk_obs.Auction.Matching.Steps.{All-IsKnown_more, IsGrown}
use zk_obs.Auction.Matching.Loops.{match_rates-IsPass, settle_rates-IsPass}
use zk_obs.Auction.Matching.Rounds.{
  start_of-IsPass, b', b'_amount, IsReady, start_of, end_of, end_of-IsPass, match_borrow-IsRounds,
}
use zk_obs.Auction.Matching.Filling.{All-sort_by, initial, initial-IsReady}
use zk_obs.Auction.Matching.Exhausting.{IsExhausted-later, IsPass_refl, IsDone, match_rates-IsDone}

-- The borrow order has no rest, or no lend order at a rate up to its own has one.
abbrev IsUncrossed : Pass → AuctionOrder → Type 0
IsUncrossed t borrow =
    (remain_amount t.details borrow ≡ 0)
    ⊎ ((i : ℕ) (lend : AuctionOrder)
        → get_elem? t.lends i ≡ some lend
        → leb lend.interest_rate borrow.interest_rate ≡ true
        → remain_amount t.details lend ≡ 0)

-- The map has every lend order under its rate.
abbrev IsMapped : InterestMap → Pass → Type 0
IsMapped m t =
    (i : ℕ) (lend : AuctionOrder)
    → get_elem? t.lends i ≡ some lend
    → (contains lend.interest_rate (interest_list m) && contains i (orders_at m lend.interest_rate))
      ≡ true

IsMapped-later : (m : InterestMap) (s t : Pass) → IsGrown s t → IsMapped m s → IsMapped m t
IsMapped-later m s t grown mapped i now e =
    let (was, at_was, rate, amount, less) = grown i now e in
    subst (λ r. (contains r (interest_list m) && contains i (orders_at m r)) ≡ true) (sym rate)
      (mapped i was at_was)

-- What comes later leaves a borrow order uncrossed.
IsUncrossed-later :
    (s t : Pass) (b : AuctionOrder)
    → IsKnown s.next b
    → IsSame s.next s.details t.details
    → IsGrown s t
    → IsUncrossed s b
    → IsUncrossed t b
unfolding remain_amount
IsUncrossed-later s t b known same grown (inl full) =
    inl (omega (arith, full, matched_amount_cong s.next s.details t.details same b known))
IsUncrossed-later s t b known same grown (inr out) = inr (λ i now e low.
    let (was, at_was, rate, amount, less) = grown i now e in
    omega
      (arith, out i was at_was (subst (λ r. leb r b.interest_rate ≡ true) rate low), amount, less))

settle_rates-remain : (t : Pass) → (settle_rates t).remain_borrow ≡ t.remain_borrow
unfolding settle_rates
settle_rates-remain t =
    elim (Option-cases
      (max_rate (map (λ k. (t.details k).matched_interest_rate) t.match_details))) [
        | inl empty ↦ rw (empty, settle_rates) refl
        | inr (rate, found) ↦ rw (found, settle_rates) refl
      ]

both : {a b : Bool} → (a && b) ≡ true → (a ≡ true) × (b ≡ true)
both {a} {b} e = (ground arith, ground arith)

IsUncrossed-All_later :
    (s t : Pass) (bs : List AuctionOrder)
    → IsSame s.next s.details t.details
    → IsGrown s t
    → All (IsKnown s.next) bs
    → All (IsUncrossed s) bs
    → All (IsUncrossed t) bs
IsUncrossed-All_later s t [] same grown known h = tt
IsUncrossed-All_later s t (b ∷ bs) same grown known h = (
  IsUncrossed-later s t b known.0 same grown h.0,
  IsUncrossed-All_later s t bs same grown known.1 h.1,
)

module _ (clock : ℕ → ℕ) (m : InterestMap) where
  end_of-IsDone :
      (b : AuctionOrder) (t : Pass)
      → IsReady t
      → IsDone m b.interest_rate (interest_list m) (end_of clock m b t)
  end_of-IsDone b t ready =
      let w = match_rates clock m b.interest_rate (interest_list m) (start_of b t) in
      let begun = start_of-IsPass b t ready in
      let ended =
        match_rates-IsPass clock m b.interest_rate (interest_list m) (start_of b t) (start_of b t)
          begun in
      elim (match_rates-IsDone clock m b.interest_rate (interest_list m) (start_of b t)
        (start_of b t) begun) [
          | inl done ↦ inl (settle_rates-remain w ∙ done)
          | inr out ↦ inr (λ rate i listed low there.
              IsExhausted-later i w (settle_rates w)
                (settle_rates-IsPass w w (IsPass_refl (start_of b t) w ended)).grown
                (out rate i listed low there))
        ]

  match_borrow-IsUncrossed :
      (b : AuctionOrder) (t : Pass) (ready : IsReady t) (known : IsKnown t.next b)
      (filled : IsFilled t.details b)
      → IsMapped m (match_borrow clock m b t)
      → IsUncrossed (match_borrow clock m b t) (b' clock m b t ready known filled)
  unfolding match_borrow remain_amount add_matched_detail
  match_borrow-IsUncrossed b t ready known filled mapped = elim (end_of-IsDone b t ready) [
    | inl done ↦ inl (omega (arith, done, b'_amount clock m b t ready known filled, filled))
    | inr out ↦ inr (λ i lend e low.
        let (listed, there) = both (mapped i lend e) in
        out lend.interest_rate i listed low there lend e)
  ]

  match_borrow-All-IsUncrossed :
      (b : AuctionOrder) (s : Pass)
      → IsReady s
      → IsKnown s.next b
      → IsFilled s.details b
      → IsMapped m s
      → All (IsUncrossed s) s.borrows
      → All (IsUncrossed (match_borrow clock m b s)) (match_borrow clock m b s).borrows
  unfolding match_borrow
  match_borrow-All-IsUncrossed b s ready known filled mapped before =
      let t = match_borrow clock m b s in
      let round = match_borrow-IsRounds clock m b s ready known filled in
      let new = b' clock m b s ready known filled in
      subst (λ bs. All (IsUncrossed t) (bs ++ new ∷ []))
        (sym (end_of-IsPass clock m b s ready).borrows)
        (All-append (IsUncrossed t) s.borrows (new ∷ [])
          (IsUncrossed-All_later s t s.borrows round.same round.grown ready.known_borrows before)
          (
            match_borrow-IsUncrossed b s ready known filled
                (IsMapped-later m s t round.grown mapped),
            tt,
          ))

  match_borrows-IsUncrossed :
      (bs : List AuctionOrder) (s : Pass)
      → IsReady s
      → All (IsKnown s.next) bs
      → All (IsFilled s.details) bs
      → IsMapped m s
      → All (IsUncrossed s) s.borrows
      → All (IsUncrossed (match_borrows clock m bs s)) (match_borrows clock m bs s).borrows
  unfolding match_borrows
  match_borrows-IsUncrossed [] s ready known filled mapped before = before
  match_borrows-IsUncrossed (b ∷ bs) s ready known filled mapped before =
      let t = match_borrow clock m b s in
      let round = match_borrow-IsRounds clock m b s ready known.0 filled.0 in
      match_borrows-IsUncrossed bs t round.ready
        (All-IsKnown_more s.next t.next bs round.later known.1)
        (IsFilled-cong s.next s.details t.details round.same bs known.1 filled.1)
        (IsMapped-later m s t round.grown mapped)
        (match_borrow-All-IsUncrossed b s ready known.0 filled.0 mapped before)

module _ (clock : ℕ → ℕ) (details : ℕ → MatchedAuctionDetail) (next : ℕ)
    (borrow_orders lend_orders : List AuctionOrder)
    (known_borrows : All (IsKnown next) borrow_orders)
    (known_lends : All (IsKnown next) lend_orders)
    (filled_borrows : All (IsFilled details) borrow_orders)
    (filled_lends : All (IsFilled details) lend_orders) where
  initial-IsMapped : IsMapped (get_lend_order_interest_map lend_orders) (
      initial clock details next borrow_orders lend_orders known_borrows known_lends filled_borrows
        filled_lends)
  initial-IsMapped i lend e =
      (get_lend_order_interest_map_lem lend_orders i lend.interest_rate).1
      ∙ ap (has_rate lend.interest_rate) e
      ∙ (==_iff _ _).1 refl

  run_matching-IsUncrossed :
      All
        (IsUncrossed (run_matching clock details next borrow_orders lend_orders))
        (run_matching clock details next borrow_orders lend_orders).borrows
  unfolding run_matching
  run_matching-IsUncrossed =
      match_borrows-IsUncrossed clock (get_lend_order_interest_map lend_orders)
        (sort_by (λ order. order.created_time) borrow_orders)
        (initial clock details next borrow_orders lend_orders known_borrows known_lends
          filled_borrows filled_lends)
        (initial-IsReady clock details next borrow_orders lend_orders known_borrows known_lends
          filled_borrows filled_lends)
        (All-sort_by (λ order. order.created_time) (IsKnown next) borrow_orders known_borrows)
        (All-sort_by (λ order. order.created_time) (IsFilled details) borrow_orders filled_borrows)
        initial-IsMapped tt

  -- After the pass, where no order has matched more than its amount at first, of a borrow order and
  -- a lend order at a rate up to the borrower's one has no rest.
  pub run_matching-exhausts :
      (j i : ℕ) (borrow lend : AuctionOrder)
      → get_elem? (run_matching clock details next borrow_orders lend_orders).borrows j
        ≡ some borrow
      → get_elem? (run_matching clock details next borrow_orders lend_orders).lends i ≡ some lend
      → lend.interest_rate ≤ borrow.interest_rate
      → (remain_amount (run_matching clock details next borrow_orders lend_orders).details borrow
          ≡ 0)
        ⊎ (remain_amount (run_matching clock details next borrow_orders lend_orders).details lend
            ≡ 0)
  run_matching-exhausts j i borrow lend at_borrow at_lend low =
      elim (All-get_elem? (IsUncrossed (run_matching clock details next borrow_orders lend_orders))
        (run_matching clock details next borrow_orders lend_orders).borrows j borrow
        run_matching-IsUncrossed at_borrow) [
          | inl full ↦ inl full
          | inr out ↦ inr (out i lend at_lend (ground arith))
        ]
