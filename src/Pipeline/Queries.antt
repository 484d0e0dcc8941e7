-- ===== src/Pipeline/Queries.antt =====
-- Queries over a table whose primary key is a number: `find` with an ascending order gives the keys
-- of the rows that match, and `findOne` the first of them.
use zk_obs.Common.{
  contains, ℕ, zero, suc, ◌+◌, ◌≤◌, ◌<◌, ◌≡◌, refl, ap, ◌∙◌, Bool, true, false, ◌&&◌, Option, none,
  some, List, [], ◌∷◌, ◌++◌, leb, ltb, ◌==◌, if◌then◌else◌, arith, Bool-cases, ==_iff, inl, inr,
}

-- The keys from `start` on, `count` in number, whose rows match.
unfoldable pub find : (ℕ → Bool) → ℕ → ℕ → List ℕ
find matches start zero = []
find matches start (suc count) =
    let rest = find matches (start + 1) count in if matches start then start ∷ rest else rest

unfoldable pub find_one : (ℕ → Bool) → ℕ → ℕ → Option ℕ
find_one matches start zero = none
find_one matches start (suc count) =
    let rest = find_one matches (start + 1) count in if matches start then some start else rest

-- `list[list.length - 1]`
unfoldable pub last_of : List ℕ → Option ℕ
last_of [] = none
last_of (x ∷ []) = some x
last_of (x ∷ y ∷ xs) = last_of (y ∷ xs)

-- The numbers stand in ascending order, from `lo` on and below `hi`.
abbrev pub IsBetween : ℕ → ℕ → List ℕ → Type 0
IsBetween lo hi [] = lo ≤ hi
IsBetween lo hi (x ∷ xs) = (lo ≤ x) × IsBetween (x + 1) hi xs

pub IsBetween-append :
    (lo mid hi : ℕ) (xs ys : List ℕ)
    → IsBetween lo mid xs
    → IsBetween mid hi ys
    → IsBetween lo hi (xs ++ ys)
IsBetween-append lo mid hi [] [] h k = omega arith
IsBetween-append lo mid hi [] (y ∷ ys) h k = (omega arith, k.1)
IsBetween-append lo mid hi (x ∷ xs) ys h k = (h.0, IsBetween-append (x + 1) mid hi xs ys h.1 k)

pub IsBetween-weaken :
    (lo lo' hi : ℕ) (xs : List ℕ) → lo ≤ lo' → IsBetween lo' hi xs → IsBetween lo hi xs
IsBetween-weaken lo lo' hi [] le h = omega arith
IsBetween-weaken lo lo' hi (x ∷ xs) le h = (omega arith, h.1)

pub IsBetween-le : (lo hi : ℕ) (xs : List ℕ) → IsBetween lo hi xs → lo ≤ hi
IsBetween-le lo hi [] h = h
IsBetween-le lo hi (x ∷ xs) h = omega (arith, IsBetween-le (x + 1) hi xs h.1)

pub contains-IsBetween :
    (k lo hi : ℕ) (xs : List ℕ) → IsBetween lo hi xs → contains k xs ≡ true → (lo ≤ k) × (k < hi)
unfolding contains
contains-IsBetween k lo hi [] h c = cc
contains-IsBetween k lo hi (x ∷ xs) h c = elim (Bool-cases (k == x)) [
  | inl same ↦ let top = IsBetween-le (x + 1) hi xs h.1 in ground arith
  | inr other ↦
      let (low, high) = contains-IsBetween k (x + 1) hi xs h.1 (ground arith) in (omega arith, high)
]

pub find-IsBetween :
    (p : ℕ → Bool) (start count : ℕ) → IsBetween start (start + count) (find p start count)
unfolding find
find-IsBetween p start zero = omega arith
find-IsBetween p start (suc count) =
    let ih = find-IsBetween p (start + 1) count in
    let end : start + suc count ≡ start + 1 + count = omega arith in
    elim (Bool-cases (p start)) [
      | inl yes_row ↦ rw (yes_row, end) (omega arith, ih)
      | inr no_row ↦
          rw (no_row, end)
            (IsBetween-weaken start (start + 1) (start + 1 + count) (find p (start + 1) count)
              (omega arith) ih)
    ]

pub contains-find :
    (p : ℕ → Bool) (k start count : ℕ)
    → contains k (find p start count) ≡ (leb start k && ltb k (start + count) && p k)
unfolding find contains
contains-find p k start zero = ground arith
contains-find p k start (suc count) =
    let ih = contains-find p k (start + 1) count in
    elim (Bool-cases (k == start)) [
      | inl same ↦ let pk : p k ≡ p start = ap p ((==_iff k start).0 same) in ground arith
      | inr other ↦ ground arith
    ]

pub IsBetween-last_of :
    (lo hi l : ℕ) (xs : List ℕ) → IsBetween lo hi xs → last_of xs ≡ some l → IsBetween lo (l + 1) xs
unfolding last_of
IsBetween-last_of lo hi l [] h e = cc
IsBetween-last_of lo hi l (x ∷ []) h e = let same : x ≡ l = cc in (h.0, omega arith)
IsBetween-last_of lo hi l (x ∷ y ∷ xs) h e = (h.0, IsBetween-last_of (x + 1) hi l (y ∷ xs) h.1 e)

some_last : (y : ℕ) (xs : List ℕ) → last_of (y ∷ xs) ≡ none → ⊥
unfolding last_of
some_last y [] e = cc
some_last y (z ∷ xs) e = some_last z xs e

pub empty-last_of : (xs : List ℕ) → last_of xs ≡ none → xs ≡ []
empty-last_of [] e = refl
empty-last_of (x ∷ xs) e = absurd (some_last x xs e)

pub contains-last_of : (k : ℕ) (xs : List ℕ) → last_of xs ≡ none → contains k xs ≡ false
unfolding contains
contains-last_of k xs e = ap (contains k) (empty-last_of xs e)

pub find_cong :
    (p q : ℕ → Bool) (start count : ℕ)
    → ((k : ℕ) → start ≤ k → p k ≡ q k)
    → find p start count ≡ find q start count
unfolding find
find_cong p q start zero same = refl
find_cong p q start (suc count) same =
    let here = same start (omega arith) in
    let rest = find_cong p q (start + 1) count (λ k le. same k (omega arith)) in ground arith

-- The first key whose row matches.
pub find_one-first :
    (p : ℕ → Bool) (start count k : ℕ)
    → start ≤ k
    → k < start + count
    → p k ≡ true
    → ((j : ℕ) → start ≤ j → j < k → p j ≡ false)
    → find_one p start count ≡ some k
unfolding find_one
find_one-first p start zero k le lt here before = absurd (omega arith)
find_one-first p start (suc count) k le lt here before = elim (Bool-cases (start == k)) [
  | inl same ↦
      let e : start ≡ k = (==_iff start k).0 same in
      let found : p start ≡ true = ap p e ∙ here in rw found (ap (λ (x : ℕ). some x) e)
  | inr other ↦
      let less : start < k = ground arith in
      let skip = before start (omega arith) less in
      rw skip (
        find_one-first p (start + 1) count k (omega arith) (omega arith) here
          λ j le lt. before j (omega arith) lt)
]
