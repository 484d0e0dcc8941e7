-- ===== src/Auction/Matching/Filling.antt =====
-- No order is filled above its amount, and both sides have the same sum of matches.
use zk_obs.Common.{ℕ, ◌+◌, ◌≡◌, refl, List, [], ◌∷◌, arith, All, leb, Bool-cases, inl, inr}
use zk_obs.Auction.{MatchedAuctionDetail, AuctionOrder, matched_amount}
use zk_obs.Auction.InterestMap.{sort_by, insert_by, get_lend_order_interest_map}
use zk_obs.Auction.Matching.{Pass, run_matching}
use zk_obs.Auction.Matching.Sums.{IsKnown, IsFilled, total_matched}
use zk_obs.Auction.Matching.Rounds.{IsReady, IsRounds, match_borrows-IsRounds}

module _ {A : Type 0} (key : A → ℕ) (P : A → Type 0) where
  All-insert_by : (x : A) (xs : List A) → P x → All P xs → All P (insert_by key x xs)
  All-insert_by x [] h k = (h, tt)
  All-insert_by x (y ∷ xs) h k = elim (Bool-cases (leb (key x) (key y))) [
    | inl first ↦ rw first (h, k)
    | inr later ↦ rw later (k.0, All-insert_by x xs h k.1)
  ]

  pub All-sort_by : (xs : List A) → All P xs → All P (sort_by key xs)
  All-sort_by [] h = tt
  All-sort_by (x ∷ xs) h = All-insert_by x (sort_by key xs) h.0 (All-sort_by xs h.1)

module _ (key : AuctionOrder → ℕ) (details : ℕ → MatchedAuctionDetail) where
  total_matched-insert_by :
      (o : AuctionOrder) (os : List AuctionOrder)
      → total_matched details (insert_by key o os)
        ≡ matched_amount details o + total_matched details os
  total_matched-insert_by o [] = refl
  total_matched-insert_by o (x ∷ os) = elim (Bool-cases (leb (key o) (key x))) [
    | inl first ↦ rw first refl
    | inr later ↦ rw later (omega (arith, total_matched-insert_by o os))
  ]

  total_matched-sort_by :
      (os : List AuctionOrder) → total_matched details (sort_by key os) ≡ total_matched details os
  total_matched-sort_by [] = refl
  total_matched-sort_by (o ∷ os) =
      omega (arith, total_matched-insert_by o (sort_by key os), total_matched-sort_by os)

module _ (clock : ℕ → ℕ) (details : ℕ → MatchedAuctionDetail) (next : ℕ)
    (borrow_orders lend_orders : List AuctionOrder)
    (known_borrows : All (IsKnown next) borrow_orders)
    (known_lends : All (IsKnown next) lend_orders)
    (filled_borrows : All (IsFilled details) borrow_orders)
    (filled_lends : All (IsFilled details) lend_orders) where
  -- The state in which `getMatchedOrders` begins.
  abbrev pub initial : Pass
  initial = record {
    lends = lend_orders;
    details = details;
    next = next;
    ticks = 0;
    borrows = [];
    remain_borrow = 0;
    match_details = [];
  }

  pub initial-IsReady : IsReady initial
  initial-IsReady = record {
    known_lends = known_lends;
    filled_lends = filled_lends;
    known_borrows = tt;
    filled_borrows = tt;
  }

  pub run_matching-IsRounds :
      IsRounds
        (sort_by (λ order. order.created_time) borrow_orders)
        initial
        (run_matching clock details next borrow_orders lend_orders)
  unfolding run_matching
  run_matching-IsRounds =
      match_borrows-IsRounds clock (get_lend_order_interest_map lend_orders)
        (sort_by (λ order. order.created_time) borrow_orders) initial initial-IsReady
        (All-sort_by (λ order. order.created_time) (IsKnown next) borrow_orders known_borrows)
        (All-sort_by (λ order. order.created_time) (IsFilled details) borrow_orders filled_borrows)

  -- When no order has matched more than its amount at first, none has after the pass.
  pub run_matching-IsFilled :
      All
        (IsFilled (run_matching clock details next borrow_orders lend_orders).details)
        (run_matching clock details next borrow_orders lend_orders).lends
      × All
          (IsFilled (run_matching clock details next borrow_orders lend_orders).details)
          (run_matching clock details next borrow_orders lend_orders).borrows
  run_matching-IsFilled =
      (run_matching-IsRounds.ready.filled_lends, run_matching-IsRounds.ready.filled_borrows)

  -- What the lend orders have matched grows by as much as what the borrow orders have matched, when
  -- no order has matched more than its amount at first.
  pub total_matched-run_matching :
      total_matched
          (run_matching clock details next borrow_orders lend_orders).details
          (run_matching clock details next borrow_orders lend_orders).lends
        + total_matched details borrow_orders
      ≡ total_matched details lend_orders
        + total_matched
            (run_matching clock details next borrow_orders lend_orders).details
            (run_matching clock details next borrow_orders lend_orders).borrows
  total_matched-run_matching = omega (
    arith,
    run_matching-IsRounds.balance,
    total_matched-sort_by (λ order. order.created_time) details borrow_orders,
  )
