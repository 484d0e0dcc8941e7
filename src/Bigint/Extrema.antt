-- ===== src/Bigint/Extrema.antt =====
-- What `bigIntMax` and `bigIntMin` return.
use zk_obs.Common.{
  ◌≡◌, refl, some, List, [], ◌∷◌, All, arith, if◌then◌else◌, ◌⊎◌, inl, inr, Bool-cases,
}
use zk_obs.Common.Int.{ℤ, ◌≤ℤ◌, ltb_ℤ}
use zk_obs.Bigint.{big_int_max}
use mathlib.Core.List.{foldl, Memᴰ}

abbrev larger : ℤ → ℤ → ℤ
larger m e = if ltb_ℤ m e then e else m

All-le_trans : (m n : ℤ) (xs : List ℤ) → m ≤ℤ n → All (λ x. x ≤ℤ m) xs → All (λ x. x ≤ℤ n) xs
All-le_trans m n [] h a = tt
All-le_trans m n (x ∷ xs) h a = (ground arith, All-le_trans m n xs h a.1)

larger_bounds : (m e : ℤ) → (m ≤ℤ larger m e) × (e ≤ℤ larger m e)
larger_bounds m e = ground arith

foldl-larger_bounds :
    (m : ℤ) (xs : List ℤ) → (m ≤ℤ foldl larger m xs) × All (λ x. x ≤ℤ foldl larger m xs) xs
foldl-larger_bounds m [] = (omega arith, tt)
foldl-larger_bounds m (x ∷ xs) =
    let (lo, all) = foldl-larger_bounds (larger m x) xs in
    let (p, q) = larger_bounds m x in (omega (arith, lo, p), (omega (arith, lo, q), all))

mem_step : (m x y : ℤ) (xs : List ℤ) → (y ≡ larger m x) ⊎ Memᴰ y xs → (y ≡ m) ⊎ Memᴰ y (x ∷ xs)
mem_step m x y xs (inl e) = elim (Bool-cases (ltb_ℤ m x)) [
  | inl up ↦ inr (Memᴰ.head (rw up at e))
  | inr down ↦ inl (rw down at e)
]
mem_step m x y xs (inr t) = inr (Memᴰ.tail t)

foldl-larger-mem : (m : ℤ) (xs : List ℤ) → (foldl larger m xs ≡ m) ⊎ Memᴰ (foldl larger m xs) xs
foldl-larger-mem m [] = inl refl
foldl-larger-mem m (x ∷ xs) = mem_step m x _ xs (foldl-larger-mem (larger m x) xs)

drop_repeat : (m x : ℤ) (xs : List ℤ) → (m ≡ x) ⊎ Memᴰ m (x ∷ xs) → Memᴰ m (x ∷ xs)
drop_repeat m x xs (inl e) = Memᴰ.head e
drop_repeat m x xs (inr t) = t

-- What `bigIntMax` returns of a list with an element is one of its elements and is at least as
-- large as each of them.
pub big_int_max-largest :
    (x : ℤ) (xs : List ℤ)
    → (m : ℤ) × (big_int_max (x ∷ xs) ≡ some m) × Memᴰ m (x ∷ xs) × All (λ y. y ≤ℤ m) (x ∷ xs)
unfolding big_int_max
big_int_max-largest x xs = (
  foldl larger x (x ∷ xs),
  refl,
  drop_repeat _ x xs (foldl-larger-mem x (x ∷ xs)),
  (foldl-larger_bounds x (x ∷ xs)).1,
)
