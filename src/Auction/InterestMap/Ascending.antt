-- ===== src/Auction/InterestMap/Ascending.antt =====
-- What sorting and filtering do to a list of numbers.
use zk_obs.Common.{
  ℕ, ◌+◌, ◌≡◌, refl, ap, ◌∙◌, Bool, true, false, ◌&&◌, ◌||◌, List, [], ◌∷◌, ◌++◌, leb, ◌==◌, arith,
  Bool-cases, ==_iff, inl, inr, ◌≤◌, ◌<◌, contains, contains-append,
}
use zk_obs.Auction.InterestMap.{filter, insert_by, sort_by}

pub contains-filter :
    (p : ℕ → Bool) (k : ℕ) (xs : List ℕ) → contains k (filter p xs) ≡ (contains k xs && p k)
unfolding contains
contains-filter p k [] = refl
contains-filter p k (x ∷ xs) =
    let ih = contains-filter p k xs in
    elim (Bool-cases (k == x)) [
      | inl same ↦ let e : p k ≡ p x = ap p ((==_iff k x).0 same) in ground arith
      | inr other ↦ ground arith
    ]

pub contains-insert_by :
    (k x : ℕ) (xs : List ℕ) → contains k (insert_by (λ k. k) x xs) ≡ (k == x || contains k xs)
unfolding contains
contains-insert_by k x [] = refl
contains-insert_by k x (y ∷ xs) = let ih = contains-insert_by k x xs in ground arith

pub contains-sort_by : (k : ℕ) (xs : List ℕ) → contains k (sort_by (λ k. k) xs) ≡ contains k xs
unfolding contains
contains-sort_by k [] = refl
contains-sort_by k (x ∷ xs) =
    contains-insert_by k x (sort_by (λ k. k) xs) ∙ ap (λ b. k == x || b) (contains-sort_by k xs)

-- Distinct numbers, and numbers in strictly ascending order from `lo` on.
abbrev pub IsDistinct : List ℕ → Type 0
IsDistinct [] = Unit
IsDistinct (x ∷ xs) = (contains x xs ≡ false) × IsDistinct xs

abbrev pub IsAscending : ℕ → List ℕ → Type 0
IsAscending lo [] = Unit
IsAscending lo (x ∷ xs) = (lo ≤ x) × IsAscending (x + 1) xs

IsAscending-weaken : (lo lo' : ℕ) (xs : List ℕ) → lo ≤ lo' → IsAscending lo' xs → IsAscending lo xs
IsAscending-weaken lo lo' [] le h = tt
IsAscending-weaken lo lo' (x ∷ xs) le h = (omega arith, h.1)

pub insert_by-IsAscending :
    (lo x : ℕ) (xs : List ℕ)
    → lo ≤ x
    → contains x xs ≡ false
    → IsAscending lo xs
    → IsAscending lo (insert_by (λ k. k) x xs)
unfolding contains
insert_by-IsAscending lo x [] le new h = (le, tt)
insert_by-IsAscending lo x (y ∷ xs) le new h = elim (Bool-cases (leb x y)) [
  | inl first ↦ rw first (le, (ground arith, h.1))
  | inr later ↦ rw later (h.0, insert_by-IsAscending (y + 1) x xs (ground arith) (ground arith) h.1)
]

pub sort_by-IsAscending : (xs : List ℕ) → IsDistinct xs → IsAscending 0 (sort_by (λ k. k) xs)
sort_by-IsAscending [] h = tt
sort_by-IsAscending (x ∷ xs) h =
    insert_by-IsAscending 0 x (sort_by (λ k. k) xs) (omega arith) (contains-sort_by x xs ∙ h.0)
      (sort_by-IsAscending xs h.1)

pub filter-IsDistinct : (p : ℕ → Bool) (xs : List ℕ) → IsDistinct xs → IsDistinct (filter p xs)
filter-IsDistinct p [] h = tt
filter-IsDistinct p (x ∷ xs) h = elim (Bool-cases (p x)) [
  | inl yes_key ↦
      let absent = contains-filter p x xs in
      let new = h.0 in rw yes_key (ground arith, filter-IsDistinct p xs h.1)
  | inr no_key ↦ rw no_key (filter-IsDistinct p xs h.1)
]

pub append-IsDistinct :
    (xs ys : List ℕ)
    → IsDistinct xs
    → IsDistinct ys
    → ((k : ℕ) → contains k xs ≡ true → contains k ys ≡ false)
    → IsDistinct (xs ++ ys)
unfolding contains
append-IsDistinct [] ys h k apart = k
append-IsDistinct (x ∷ xs) ys h k apart =
    let app = contains-append x xs ys in
    let new = h.0 in
    let far = apart x (ground arith) in
    (ground arith, append-IsDistinct xs ys h.1 k λ j stands. apart j (ground arith))

below_ascending : (k lo : ℕ) (xs : List ℕ) → k < lo → IsAscending lo xs → contains k xs ≡ false
unfolding contains
below_ascending k lo [] less h = refl
below_ascending k lo (x ∷ xs) less h =
    let ih = below_ascending k (x + 1) xs (omega (arith, less, h.0)) h.1 in
    let low = h.0 in ground arith

pub IsAscending-IsDistinct : (lo : ℕ) (xs : List ℕ) → IsAscending lo xs → IsDistinct xs
IsAscending-IsDistinct lo [] h = tt
IsAscending-IsDistinct lo (x ∷ xs) h =
    (below_ascending x (x + 1) xs (omega arith) h.1, IsAscending-IsDistinct (x + 1) xs h.1)
