-- ===== src/Auction/Matching/Settling.antt =====
-- The rate that a round of a borrow order settles on.
use zk_obs.Common.{
  ◌↔◌, ℕ, ◌≤◌, ◌<◌, ◌≡◌, refl, sym, true, none, some, List, [], ◌∷◌, map, arith, All, ltb, ◌==◌,
  if◌then◌else◌, Bool-cases, Option-cases, ==_iff, inl, inr, contains,
}
use mathlib.Core.List.{foldl}
use mathlib.Core.Path.{subst}
use mathlib.Core.Option.{some-injective}
use zk_obs.Auction.{MatchedAuctionDetail}
use zk_obs.Auction.Matching.{Pass, set_detail, max_rate, set_rates, settle_rates}
use zk_obs.Auction.Matching.Steps.{IsPass}
use zk_obs.Auction.Matching.Rates.{rate_at, IsPriced, IsRated, All-IsPriced_more}

abbrev larger : ℕ → ℕ → ℕ
larger max e = if ltb max e then e else max

foldl-larger-bounds :
    (m : ℕ) (xs : List ℕ) → (m ≤ foldl larger m xs) × All (λ x. x ≤ foldl larger m xs) xs
foldl-larger-bounds m [] = (omega arith, tt)
foldl-larger-bounds m (x ∷ xs) =
    let (low, all) = foldl-larger-bounds (larger m x) xs in
    let first : (m ≤ larger m x) × (x ≤ larger m x) = ground arith in
    (omega (arith, low, first.0), (omega (arith, low, first.1), all))

foldl-larger-limit :
    (m limit : ℕ) (xs : List ℕ) → m ≤ limit → All (λ x. x ≤ limit) xs → foldl larger m xs ≤ limit
foldl-larger-limit m limit [] le h = le
foldl-larger-limit m limit (x ∷ xs) le h =
    let x_le = h.0 in foldl-larger-limit (larger m x) limit xs (ground arith) h.1

set_rate-rate :
    (rate j k : ℕ) (details : ℕ → MatchedAuctionDetail)
    → rate_at (set_detail details j (record (details j) { matched_interest_rate = rate })) k
      ≡ (if k == j then rate else rate_at details k)
set_rate-rate rate j k details = elim (Bool-cases (k == j)) [
  | inl same ↦ rw (same, rate_at) refl
  | inr other ↦ rw (other, rate_at) refl
]

set_rates-rate :
    (rate : ℕ) (ks : List ℕ) (details : ℕ → MatchedAuctionDetail) (k : ℕ)
    → rate_at (set_rates rate ks details) k ≡ (if contains k ks then rate else rate_at details k)
unfolding set_rates contains
set_rates-rate rate [] details k = refl
set_rates-rate rate (j ∷ ks) details k =
    let ih =
      set_rates-rate rate ks
        (set_detail details j (record (details j) { matched_interest_rate = rate })) k in
    let one = set_rate-rate rate j k details in ground arith

max_rate-bounds :
    (rate limit : ℕ) (rs : List ℕ)
    → max_rate rs ≡ some rate
    → All (λ r. r ≤ limit) rs
    → (rate ≤ limit) × All (λ r. r ≤ rate) rs
unfolding max_rate
max_rate-bounds rate limit [] e h = cc
max_rate-bounds rate limit (r ∷ rs) e h =
    subst (λ rate. (rate ≤ limit) × All (λ r. r ≤ rate) (r ∷ rs))
      (some-injective (foldl larger r (r ∷ rs)) rate e)
      (foldl-larger-limit r limit (r ∷ rs) h.0 h, (foldl-larger-bounds r (r ∷ rs)).1)

All-map : (P : ℕ → Type 0) (f : ℕ → ℕ) (ks : List ℕ) → All (λ k. P (f k)) ks ↔ All P (map f ks)
All-map P f [] = (λ h. tt, λ h. tt)
All-map P f (k ∷ ks) = (λ h. (h.0, (All-map P f ks).0 h.1), λ h. (h.0, (All-map P f ks).1 h.1))

All-contains : (P : ℕ → Type 0) (ks : List ℕ) → ((k : ℕ) → contains k ks ≡ true → P k) → All P ks
unfolding contains
All-contains P [] f = tt
All-contains P (k ∷ ks) f = (f k (ground arith), All-contains P ks (λ j e. f j (ground arith)))

contains-All : (P : ℕ → Type 0) (ks : List ℕ) (k : ℕ) → All P ks → contains k ks ≡ true → P k
unfolding contains
contains-All P [] k h e = cc
contains-All P (j ∷ ks) k h e = elim (Bool-cases (k == j)) [
  | inl same ↦ subst P (sym ((==_iff k j).0 same)) h.0
  | inr other ↦ contains-All P ks k h.1 (ground arith)
]

max_rate-none : (P : ℕ → Type 0) (f : ℕ → ℕ) (ks : List ℕ) → max_rate (map f ks) ≡ none → All P ks
unfolding max_rate
max_rate-none P f [] e = tt
max_rate-none P f (k ∷ ks) e = cc

-- All the details have one rate, which is within the limit.
abbrev pub IsUniform : ℕ → (ℕ → MatchedAuctionDetail) → List ℕ → Type 0
IsUniform limit details ks = (rate : ℕ) × (rate ≤ limit) × All (λ k. rate_at details k ≡ rate) ks

-- What a round leaves: every lend order gets its rate, the new details have one rate, and the
-- earlier ones keep theirs.
pub record IsSettled (limit : ℕ) (s t : Pass) : Type 0 where
  pub priced : All (IsPriced t.details) t.lends
  pub uniform : IsUniform limit t.details t.match_details
  pub old : (k : ℕ) → k < s.next → rate_at t.details k ≡ rate_at s.details k

settled :
    (limit rate : ℕ) (s t : Pass)
    → IsPass s t
    → IsRated limit s t
    → max_rate (map (λ k. rate_at t.details k) t.match_details) ≡ some rate
    → IsSettled limit s (record t { details = set_rates rate t.match_details t.details })
settled limit rate s t pass h found =
    let rates = map (λ k. rate_at t.details k) t.match_details in
    let (low, all) =
      max_rate-bounds rate limit rates found
        ((All-map (λ r. r ≤ limit) (λ k. rate_at t.details k) t.match_details).0 h.cheap) in
    let tops = (All-map (λ r. r ≤ rate) (λ k. rate_at t.details k) t.match_details).1 all in
    let after = set_rates rate t.match_details t.details in
    record {
      priced =
          All-IsPriced_more t.next t.details after t.lends
            (λ k less. elim (Bool-cases (contains k t.match_details)) [
              | inl new ↦
                  let top =
                    contains-All (λ k. rate_at t.details k ≤ rate) t.match_details k tops new in
                  let now = set_rates-rate rate t.match_details t.details k in ground arith
              | inr other ↦
                  let now = set_rates-rate rate t.match_details t.details k in ground arith
            ])
            pass.known h.priced;
      uniform = (
        rate,
        low,
        All-contains (λ k. rate_at after k ≡ rate) t.match_details
            (λ k new. let now = set_rates-rate rate t.match_details t.details k in ground arith),
      );
      old = λ k less. elim (Bool-cases (contains k t.match_details)) [
        | inl new ↦
            absurd
              (omega (arith, less, contains-All (λ k. s.next ≤ k) t.match_details k h.fresh new))
        | inr other ↦
            let now = set_rates-rate rate t.match_details t.details k in
            let was = h.old k less in ground arith
      ];
    }

pub settle_rates-IsSettled :
    (limit : ℕ) (s t : Pass) → IsPass s t → IsRated limit s t → IsSettled limit s (settle_rates t)
unfolding settle_rates
settle_rates-IsSettled limit s t pass h =
    elim (Option-cases (max_rate (map (λ k. rate_at t.details k) t.match_details))) [
      | inl empty ↦
          rw (empty, settle_rates)
            (record {
              priced = h.priced;
              uniform = (
                0,
                omega arith,
                max_rate-none _ (λ k. rate_at t.details k) t.match_details empty,
              );
              old = h.old;
            })
      | inr (rate, found) ↦ rw (found, settle_rates) (settled limit rate s t pass h found)
    ]
