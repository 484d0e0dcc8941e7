-- ===== src/TxCodec/Chunks.antt =====
-- The chunks of `bigint_to_chunk_array`: their value, their number and their range.
use zk_obs.Common.{
  All, ℕ, zero, suc, ◌+◌, ◌*◌, ◌/◌, ◌%◌, ◌^◌, ◌≤◌, ◌<◌, ◌≡◌, refl, List, [], ◌∷◌, ◌++◌, arith,
  length, length-append, reverse, ap, ◌∙◌, true, ltb, lt→ltb, Bool-cases, inl, inr,
}
use zk_obs.TxCodec.{chunks_from, bigint_to_chunk_array}
use mathlib.Core.List.{foldl, foldl-append, reverse-cons}
use native.Mathlib.Nat.{
  pow-suc, pow-zero, div-lt_self, div-eq_of_lt, mod-lt, div-add-mod', le-div_iff_mul-le,
  div-lt_iff_lt-mul, one-le-pow,
}

-- The number that big-endian digits in a base stand for.
abbrev pub value : ℕ → List ℕ → ℕ
value m = foldl (λ n c. n * m + c) 0

pub value-append_one : (m : ℕ) (cs : List ℕ) (c : ℕ) → value m (cs ++ c ∷ []) ≡ value m cs * m + c
value-append_one m cs c = foldl-append (λ n d. n * m + d) 0 cs (c ∷ [])

pub length-reverse : {A : Type 0} (xs : List A) → length (reverse xs) ≡ length xs
length-reverse [] = refl
length-reverse (x ∷ xs) =
    ap length (reverse-cons x xs)
    ∙ (length-append (reverse xs) (x ∷ []) ∙ omega (arith, length-reverse xs))

fewer : (m x f : ℕ) → 1 < m → x ≤ suc f → ltb 0 x ≡ true → x / m ≤ f
fewer m x f h le pos = omega (arith, div-lt_self {n = x} {k = m} (ground arith) h)

value-chunks_from : (f m x : ℕ) → 1 < m → x ≤ f → value m (reverse (chunks_from f m x)) ≡ x
unfolding chunks_from
value-chunks_from zero m x h le = omega arith
value-chunks_from (suc f) m x h le = elim (Bool-cases (ltb 0 x)) [
  | inl more ↦
      (let ih = value-chunks_from f m (x / m) h (fewer m x f h le more) in
        rw more (
          ap (value m) (reverse-cons (x % m) (chunks_from f m (x / m)))
          ∙ (value-append_one m (reverse (chunks_from f m (x / m))) (x % m)
              ∙ (ap (λ (t : ℕ). t * m + x % m) ih ∙ div-add-mod' x m))))
  | inr done ↦ rw done (ground arith)
]

chunks_from-zero : (f m : ℕ) → chunks_from f m 0 ≡ []
unfolding chunks_from
chunks_from-zero zero m = refl
chunks_from-zero (suc f) m = refl

first_power : (m : ℕ) → m ^ 1 ≡ m
first_power m = rw (pow-suc m 0) (omega (arith, ap (λ (t : ℕ). t * m) (pow-zero m)))

two_le : (bits : ℕ) → 0 < bits → 1 < 2 ^ bits
two_le zero h = absurd (omega arith)
two_le (suc b) h = rw (pow-suc 2 b) (omega (arith, one-le-pow b 2 (omega arith)))

length-chunks_from :
    (k f m x : ℕ) → 1 < m → x ≤ f → m ^ k ≤ x → x < m ^ suc k → length (chunks_from f m x) ≡ suc k
unfolding chunks_from
length-chunks_from k zero m x h le lo hi = absurd (omega (arith, one-le-pow k m (omega arith)))
length-chunks_from zero (suc f) m x h le lo hi =
    let small : x < m = omega (arith, first_power m) in
    let none_left : x / m ≡ 0 = div-eq_of_lt small in
    rw (lt→ltb 0 x (omega (arith, one-le-pow 0 m (omega arith)))) (
      ap (λ (t : ℕ). suc (length (chunks_from f m t))) none_left
      ∙ ap (λ (t : List ℕ). suc (length t)) (chunks_from-zero f m))
length-chunks_from (suc k) (suc f) m x h le lo hi =
    let more = lt→ltb 0 x (omega (arith, one-le-pow (suc k) m (omega arith))) in
    let m_pos : 0 < m = omega arith in
    rw more (
      ap suc (
        length-chunks_from k f m (x / m) h (fewer m x f h le more)
          ((le-div_iff_mul-le m_pos).1 (rw (← pow-suc m k) lo))
          ((div-lt_iff_lt-mul m_pos).1 (rw (← pow-suc m (suc k)) hi))))

All-append_one :
    (m c : ℕ) (xs : List ℕ) → All (λ d. d < m) xs → c < m → All (λ d. d < m) (xs ++ c ∷ [])
All-append_one m c [] h k = (k, tt)
All-append_one m c (x ∷ xs) h k = (h.0, All-append_one m c xs h.1 k)

All-chunks_from : (f m x : ℕ) → 0 < m → All (λ d. d < m) (reverse (chunks_from f m x))
unfolding chunks_from
All-chunks_from zero m x h = tt
All-chunks_from (suc f) m x h = elim (Bool-cases (ltb 0 x)) [
  | inl more ↦ rw more (
      rw reverse-cons (
        All-append_one m (x % m) (reverse (chunks_from f m (x / m))) (All-chunks_from f m (x / m) h)
          (mod-lt x h)))
  | inr done ↦ rw done tt
]

-- The chunks are the digits of the number in base 2 ^ bits, most significant first: they stand
-- for the number, and each is below the base.
pub bigint_to_chunk_array-value :
    (x bits : ℕ)
    → 0 < bits
    → (value (2 ^ bits) (bigint_to_chunk_array x bits) ≡ x)
      × All (λ c. c < 2 ^ bits) (bigint_to_chunk_array x bits)
unfolding bigint_to_chunk_array
bigint_to_chunk_array-value x bits h = (
  value-chunks_from x (2 ^ bits) x (two_le bits h) (omega arith),
  All-chunks_from x (2 ^ bits) x (one-le-pow bits 2 (omega arith)),
)

pub length-bigint_to_chunk_array :
    (k x bits : ℕ)
    → 0 < bits
    → (2 ^ bits) ^ k ≤ x
    → x < (2 ^ bits) ^ suc k
    → length (bigint_to_chunk_array x bits) ≡ suc k
unfolding bigint_to_chunk_array
length-bigint_to_chunk_array k x bits h lo hi =
    length-reverse (chunks_from x (2 ^ bits) x)
    ∙ length-chunks_from k x (2 ^ bits) x (two_le bits h) (omega arith) lo hi
