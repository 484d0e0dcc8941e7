-- ===== src/Auction/Matching/Steps.antt =====
-- What the loops over the lend orders keep.
use zk_obs.Common.{
  ℕ, ◌+◌, ◌≤◌, ◌<◌, ◌≡◌, ◌∙◌, some, List, [], ◌∷◌, leb, if◌then◌else◌, arith, inl, inr, All,
  get_elem?, All-implied, All-append, All-set, All-get_elem?, get_elem?-set_cases,
}
use mathlib.Core.Path.{subst}
use zk_obs.Auction.{
  AuctionOrder, details_of, sum_by, amount_at, matched_amount, remain_amount, add_matched_detail,
}
use zk_obs.Auction.Matching.{Pass, match_lend}
use zk_obs.Auction.Matching.Sums.{
  sum_by-append, sum_by_cong, IsKnown, IsFilled, total_matched, IsSame, matched_amount_cong,
  total_matched_cong, IsFilled-cong, total_matched-set, matched_amount-add, set_detail-IsSame,
}

-- A lend order is the one that it was, with more of it matched.
abbrev pub IsGrown : Pass → Pass → Type 0
IsGrown s t =
    (i : ℕ) (now : AuctionOrder)
    → get_elem? t.lends i ≡ some now
    → (was : AuctionOrder) × (get_elem? s.lends i ≡ some was)
      × (now.interest_rate ≡ was.interest_rate)
      × (now.amount ≡ was.amount)
      × (matched_amount s.details was ≤ matched_amount t.details now)

-- The loops for a borrow order lead from `s` to `t`.
pub record IsPass (s t : Pass) : Type 0 where
  pub later : s.next ≤ t.next
  pub same : IsSame s.next s.details t.details
  pub known : All (IsKnown t.next) t.lends
  pub filled : All (IsFilled t.details) t.lends
  pub listed : All (λ k. k < t.next) t.match_details
  pub borrows : t.borrows ≡ s.borrows
  pub balance :
      total_matched t.details t.lends + t.remain_borrow
      ≡ total_matched s.details s.lends + s.remain_borrow
  pub paid :
      sum_by (amount_at t.details) t.match_details + t.remain_borrow
      ≡ sum_by (amount_at s.details) s.match_details + s.remain_borrow
  pub grown : IsGrown s t

pub below_more : (m n : ℕ) (ks : List ℕ) → m ≤ n → All (λ k. k < m) ks → All (λ k. k < n) ks
below_more m n ks le h = All-implied _ _ ks (λ k less. omega arith) h

pub IsKnown-more : (m n : ℕ) (o : AuctionOrder) → m ≤ n → IsKnown m o → IsKnown n o
IsKnown-more m n o le h = below_more m n (details_of o) le h

pub All-IsKnown_more :
    (m n : ℕ) (os : List AuctionOrder) → m ≤ n → All (IsKnown m) os → All (IsKnown n) os
All-IsKnown_more m n os le h = All-implied _ _ os (λ o known. IsKnown-more m n o le known) h

module _ (clock : ℕ → ℕ) where
  -- The amount by which an order is matched.
  abbrev pub taken : Pass → AuctionOrder → ℕ
  taken t lend =
      let remain = remain_amount t.details lend in
      if leb remain t.remain_borrow then remain else t.remain_borrow

  taken_le : (t : Pass) (lend : AuctionOrder) → taken t lend ≤ t.remain_borrow
  taken_le t lend = ground arith

  taken-IsFilled :
      (t : Pass) (lend : AuctionOrder)
      → IsFilled t.details lend
      → matched_amount t.details lend + taken t lend ≤ lend.amount
  unfolding remain_amount
  taken-IsFilled t lend filled = ground arith

  module _ (rate i : ℕ) (lend : AuctionOrder) (s t : Pass) (pass : IsPass s t)
      (found : get_elem? t.lends i ≡ some lend) where
    abbrev pub after : Pass
    after = match_lend clock rate i lend t

    abbrev pub lend' : AuctionOrder
    lend' = add_matched_detail (clock t.ticks) (t.next ∷ []) lend

    after-IsSame : IsSame t.next t.details after.details
    unfolding match_lend
    after-IsSame = set_detail-IsSame t.details t.next _

    lend-IsKnown : IsKnown t.next lend
    lend-IsKnown = All-get_elem? (IsKnown t.next) t.lends i lend pass.known found

    new_amount : amount_at after.details t.next ≡ taken t lend
    unfolding match_lend
    new_amount = ground arith

    pub lend'_amount :
        matched_amount after.details lend' ≡ matched_amount t.details lend + taken t lend
    lend'_amount = omega (
      arith,
      matched_amount-add after.details (clock t.ticks) (t.next ∷ []) lend,
      matched_amount_cong t.next t.details after.details after-IsSame lend lend-IsKnown,
      new_amount,
    )

    after-IsKnown : All (IsKnown (t.next + 1)) after.lends
    unfolding match_lend add_matched_detail
    after-IsKnown =
        All-set (IsKnown (t.next + 1)) t.lends i lend'
          (All-IsKnown_more t.next (t.next + 1) t.lends (omega arith) pass.known)
          (All-append _ (details_of lend) (t.next ∷ [])
            (below_more t.next (t.next + 1) (details_of lend) (omega arith) lend-IsKnown)
            (omega arith, tt))

    after-IsFilled : All (IsFilled after.details) after.lends
    unfolding match_lend add_matched_detail
    after-IsFilled =
        All-set (IsFilled after.details) t.lends i lend'
          (IsFilled-cong t.next t.details after.details after-IsSame t.lends pass.known pass.filled)
          (omega (
            arith,
            lend'_amount,
            taken-IsFilled t lend
                (All-get_elem? (IsFilled t.details) t.lends i lend pass.filled found),
          ))

    after_total :
        total_matched after.details after.lends ≡ total_matched t.details t.lends + taken t lend
    unfolding match_lend
    after_total = omega (
      arith,
      total_matched-set after.details t.lends i lend lend' found,
      total_matched_cong t.next t.details after.details after-IsSame t.lends pass.known,
      matched_amount_cong t.next t.details after.details after-IsSame lend lend-IsKnown,
      lend'_amount,
    )

    after_paid :
        sum_by (amount_at after.details) after.match_details
        ≡ sum_by (amount_at t.details) t.match_details + taken t lend
    unfolding match_lend
    after_paid = omega (
      arith,
      sum_by-append (amount_at after.details) t.match_details (t.next ∷ []),
      sum_by_cong (amount_at after.details) (amount_at t.details) t.next t.match_details
          after-IsSame pass.listed,
      new_amount,
    )

    after-IsGrown : IsGrown s after
    unfolding match_lend
    after-IsGrown j now e = elim (get_elem?-set_cases t.lends i j lend' now e) [
      | inl (here, new) ↦
          let (was, at_was, rate_was, amount_was, less) =
            pass.grown j lend (subst (λ j. get_elem? t.lends j ≡ some lend) here found) in
          subst
            (λ now.
              (was : AuctionOrder) × (get_elem? s.lends j ≡ some was)
              × (now.interest_rate ≡ was.interest_rate)
              × (now.amount ≡ was.amount)
              × (matched_amount s.details was ≤ matched_amount after.details now))
            new (was, at_was, rate_was, amount_was, omega (arith, less, lend'_amount))
      | inr kept ↦
          let (was, at_was, rate_was, amount_was, less) = pass.grown j now kept in
          let known = All-get_elem? (IsKnown t.next) t.lends j now pass.known kept in
          (
            was,
            at_was,
            rate_was,
            amount_was,
            omega (
              arith,
              less,
              matched_amount_cong t.next t.details after.details after-IsSame now known,
            ),
          )
    ]

    pub match_lend-IsPass : IsPass s (match_lend clock rate i lend t)
    unfolding match_lend
    match_lend-IsPass = record {
      later = omega (arith, pass.later);
      same = λ k less. after-IsSame k (omega (arith, less, pass.later)) ∙ pass.same k less;
      known = after-IsKnown;
      filled = after-IsFilled;
      listed =
          All-append _ t.match_details (t.next ∷ [])
            (below_more t.next (t.next + 1) t.match_details (omega arith) pass.listed)
            (omega arith, tt);
      borrows = pass.borrows;
      balance = omega (arith, pass.balance, after_total, taken_le t lend);
      paid = omega (arith, pass.paid, after_paid, taken_le t lend);
      grown = after-IsGrown;
    }
