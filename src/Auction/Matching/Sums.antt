-- ===== src/Auction/Matching/Sums.antt =====
-- What orders have matched, under changes of the details and of the orders.
use zk_obs.Common.{
  ℕ, zero, suc, ◌+◌, ◌≤◌, ◌<◌, ◌≡◌, refl, ap, ◌∙◌, sym, some, List, [], ◌∷◌, ◌++◌, ◌==◌, arith,
  Bool-cases, ==_iff, inl, inr, All, get_elem?, set,
}
use mathlib.Core.Option.{some-injective}
use zk_obs.Auction.{
  MatchedAuctionDetail, AuctionOrder, details_of, sum_by, amount_at, matched_amount,
  add_matched_detail,
}
use zk_obs.Auction.Matching.{set_detail, set_rates}

pub sum_by-append : (f : ℕ → ℕ) (ks ls : List ℕ) → sum_by f (ks ++ ls) ≡ sum_by f ks + sum_by f ls
sum_by-append f [] ls = omega arith
sum_by-append f (k ∷ ks) ls = omega (arith, sum_by-append f ks ls)

-- Details below `n` keep the amounts that they had.
pub sum_by_cong :
    (f g : ℕ → ℕ) (n : ℕ) (ks : List ℕ)
    → ((k : ℕ) → k < n → f k ≡ g k)
    → All (λ k. k < n) ks
    → sum_by f ks ≡ sum_by g ks
sum_by_cong f g n [] same below = refl
sum_by_cong f g n (k ∷ ks) same below =
    omega (arith, same k below.0, sum_by_cong f g n ks same below.1)

-- Every detail of the order stands below `n`.
abbrev pub IsKnown : ℕ → AuctionOrder → Type 0
IsKnown n o = All (λ k. k < n) (details_of o)

-- The order has matched no more than its amount.
abbrev pub IsFilled : (ℕ → MatchedAuctionDetail) → AuctionOrder → Type 0
IsFilled details o = matched_amount details o ≤ o.amount

-- What the orders have matched together.
abbrev pub total_matched : (ℕ → MatchedAuctionDetail) → List AuctionOrder → ℕ
total_matched details [] = 0
total_matched details (o ∷ os) = matched_amount details o + total_matched details os

-- The details below `n` have the same amounts in both stores.
abbrev pub IsSame : ℕ → (ℕ → MatchedAuctionDetail) → (ℕ → MatchedAuctionDetail) → Type 0
IsSame n details details' = (k : ℕ) → k < n → amount_at details' k ≡ amount_at details k

module _ (n : ℕ) (details details' : ℕ → MatchedAuctionDetail)
    (same : IsSame n details details') where
  pub matched_amount_cong :
      (o : AuctionOrder) → IsKnown n o → matched_amount details' o ≡ matched_amount details o
  unfolding matched_amount
  matched_amount_cong o known =
      sum_by_cong (amount_at details') (amount_at details) n (details_of o) same known

  pub total_matched_cong :
      (os : List AuctionOrder)
      → All (IsKnown n) os
      → total_matched details' os ≡ total_matched details os
  total_matched_cong [] known = refl
  total_matched_cong (o ∷ os) known =
      omega (arith, matched_amount_cong o known.0, total_matched_cong os known.1)

  pub IsFilled-cong :
      (os : List AuctionOrder)
      → All (IsKnown n) os
      → All (IsFilled details) os
      → All (IsFilled details') os
  IsFilled-cong [] known filled = tt
  IsFilled-cong (o ∷ os) known filled =
      (omega (arith, matched_amount_cong o known.0, filled.0), IsFilled-cong os known.1 filled.1)

pub total_matched-set :
    (details : ℕ → MatchedAuctionDetail) (os : List AuctionOrder) (i : ℕ) (o o' : AuctionOrder)
    → get_elem? os i ≡ some o
    → total_matched details (set os i o') + matched_amount details o
      ≡ total_matched details os + matched_amount details o'
total_matched-set details [] i o o' e = cc
total_matched-set details (x ∷ os) zero o o' e =
    let same : matched_amount details x ≡ matched_amount details o =
      ap (matched_amount details) (some-injective x o e) in
    omega arith
total_matched-set details (x ∷ os) (suc i) o o' e =
    omega (arith, total_matched-set details os i o o' e)

pub total_matched-append :
    (details : ℕ → MatchedAuctionDetail) (os : List AuctionOrder) (o : AuctionOrder)
    → total_matched details (os ++ o ∷ []) ≡ total_matched details os + matched_amount details o
total_matched-append details [] o = omega arith
total_matched-append details (x ∷ os) o = omega (arith, total_matched-append details os o)

pub matched_amount-add :
    (details : ℕ → MatchedAuctionDetail) (now : ℕ) (ks : List ℕ) (o : AuctionOrder)
    → matched_amount details (add_matched_detail now ks o)
      ≡ matched_amount details o + sum_by (amount_at details) ks
unfolding matched_amount add_matched_detail
matched_amount-add details now ks o = sum_by-append (amount_at details) (details_of o) ks

-- A new detail leaves the amounts of the old ones.
pub set_detail-IsSame :
    (details : ℕ → MatchedAuctionDetail) (n : ℕ) (d : MatchedAuctionDetail)
    → IsSame n details (set_detail details n d)
set_detail-IsSame details n d k less = elim (Bool-cases (k == n)) [
  | inl same ↦ absurd (ground arith)
  | inr other ↦ rw (other, amount_at) refl
]

set_rate-amount :
    (details : ℕ → MatchedAuctionDetail) (rate k j : ℕ)
    → amount_at (set_detail details k (record (details k) { matched_interest_rate = rate })) j
      ≡ amount_at details j
set_rate-amount details rate k j = elim (Bool-cases (j == k)) [
  | inl same ↦ rw (same, amount_at) (ap (amount_at details) (sym ((==_iff j k).0 same)))
  | inr other ↦ rw (other, amount_at) refl
]

-- New rates leave the amounts.
pub set_rates-amount :
    (rate : ℕ) (ks : List ℕ) (details : ℕ → MatchedAuctionDetail) (j : ℕ)
    → amount_at (set_rates rate ks details) j ≡ amount_at details j
unfolding set_rates
set_rates-amount rate [] details j = refl
set_rates-amount rate (k ∷ ks) details j =
    set_rates-amount rate ks
      (set_detail details k (record (details k) { matched_interest_rate = rate })) j
    ∙ set_rate-amount details rate k j
