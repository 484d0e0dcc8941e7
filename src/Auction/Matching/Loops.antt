-- ===== src/Auction/Matching/Loops.antt =====
-- The loops over the lend orders, and the rates that they leave.
use zk_obs.Common.{
  map, ℕ, ◌≡◌, ◌∙◌, List, [], ◌∷◌, leb, ltb, arith, Bool-cases, Option-cases, inl, inr, get_elem?,
  All-get_elem?,
}
use zk_obs.Auction.{MatchedAuctionDetail, amount_at}
use zk_obs.Auction.InterestMap.{InterestMap, orders_at}
use zk_obs.Auction.Matching.{
  Pass, match_lend, match_lends, match_rates, settle_rates, set_rates, max_rate,
}
use zk_obs.Auction.Matching.Sums.{
  sum_by_cong, IsKnown, IsSame, matched_amount_cong, total_matched_cong, IsFilled-cong,
  set_rates-amount,
}
use zk_obs.Auction.Matching.Steps.{IsPass, match_lend-IsPass}

module _ (clock : ℕ → ℕ) where
  pub match_lends-IsPass :
      (rate : ℕ) (is : List ℕ) (s t : Pass) → IsPass s t → IsPass s (match_lends clock rate is t)
  unfolding match_lends
  match_lends-IsPass rate [] s t h = h
  match_lends-IsPass rate (i ∷ is) s t h = elim (Bool-cases (ltb 0 t.remain_borrow)) [
    | inl more ↦ elim (Option-cases (get_elem? t.lends i)) [
      | inl missing ↦ rw (more, missing, match_lends) (match_lends-IsPass rate is s t h)
      | inr (lend, found) ↦
          rw (more, found, match_lends)
            (match_lends-IsPass rate is s (match_lend clock rate i lend t)
              (match_lend-IsPass clock rate i lend s t h found))
    ]
    | inr done ↦ rw (done, match_lends) h
  ]

  pub match_rates-IsPass :
      (m : InterestMap) (limit : ℕ) (rates : List ℕ) (s t : Pass)
      → IsPass s t
      → IsPass s (match_rates clock m limit rates t)
  unfolding match_rates
  match_rates-IsPass m limit [] s t h = h
  match_rates-IsPass m limit (rate ∷ rates) s t h = elim (Bool-cases (ltb 0 t.remain_borrow)) [
    | inl more ↦ elim (Bool-cases (leb rate limit)) [
      | inl crossing ↦
          rw (more, crossing, match_rates)
            (match_rates-IsPass m limit rates s (match_lends clock rate (orders_at m rate) t)
              (match_lends-IsPass rate (orders_at m rate) s t h))
      | inr dear ↦ rw (more, dear, match_rates) (match_rates-IsPass m limit rates s t h)
    ]
    | inr done ↦ rw (done, match_rates) h
  ]

-- Other rates of the details change nothing of it.
rates-IsPass :
    (s t : Pass) (details : ℕ → MatchedAuctionDetail)
    → ((k : ℕ) → amount_at details k ≡ amount_at t.details k)
    → IsPass s t
    → IsPass s (record t { details = details })
rates-IsPass s t details same h =
    let kept : IsSame t.next t.details details = λ k less. same k in
    record {
      later = h.later;
      same = λ k less. same k ∙ h.same k less;
      known = h.known;
      filled = IsFilled-cong t.next t.details details kept t.lends h.known h.filled;
      listed = h.listed;
      borrows = h.borrows;
      balance =
          omega
            (arith, h.balance, total_matched_cong t.next t.details details kept t.lends h.known);
      paid = omega (
        arith,
        h.paid,
        sum_by_cong (amount_at details) (amount_at t.details) t.next t.match_details kept h.listed,
      );
      grown = λ i now e.
          let (was, at_was, rate_was, amount_was, less) = h.grown i now e in
          let known = All-get_elem? (IsKnown t.next) t.lends i now h.known e in
          (
            was,
            at_was,
            rate_was,
            amount_was,
            omega (arith, less, matched_amount_cong t.next t.details details kept now known),
          );
    }

pub settle_rates-IsPass : (s t : Pass) → IsPass s t → IsPass s (settle_rates t)
unfolding settle_rates
settle_rates-IsPass s t h =
    elim (Option-cases
      (max_rate (map (λ k. (t.details k).matched_interest_rate) t.match_details))) [
        | inl empty ↦ rw (empty, settle_rates) h
        | inr (rate, found) ↦
            rw (found, settle_rates)
              (rates-IsPass s t (set_rates rate t.match_details t.details)
                (set_rates-amount rate t.match_details t.details) h)
      ]
