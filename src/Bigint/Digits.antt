-- ===== src/Bigint/Digits.antt =====
-- The bytes and the 64-bit words of a bigint.
use zk_obs.Common.{
  All, ℕ, zero, suc, ◌+◌, ◌*◌, ◌/◌, ◌%◌, ◌^◌, ◌<◌, ◌≡◌, refl, List, [], ◌∷◌, arith, length, ap, ◌∙◌,
}
use zk_obs.Bigint.{fill_bytes, bigint_to_uint8_array, uint8_array_to_bigint, bigint_to_tuple}
use mathlib.Core.List.{foldl}
use native.Mathlib.Nat.{pow-suc, one-le-pow}
use zk_obs.Common.Numbers.{mod-mul_digits}

-- The number that big-endian bytes stand for, after a number `acc` before them.
value_from : ℕ → List ℕ → ℕ
value_from acc [] = acc
value_from acc (b ∷ bs) = value_from (acc * 256 + b) bs

foldl-eq-value_from :
    (acc : ℕ) (bs : List ℕ) → foldl (λ ret b. ret * 256 + b) acc bs ≡ value_from acc bs
unfolding value_from
foldl-eq-value_from acc [] = refl
foldl-eq-value_from acc (b ∷ bs) = foldl-eq-value_from (acc * 256 + b) bs

next_digit :
    (n x acc : ℕ)
    → (acc * 256 ^ n + x / 256 % 256 ^ n) * 256 + x % 256 ≡ acc * 256 ^ suc n + x % 256 ^ suc n
next_digit n x acc =
    rw (pow-suc 256 n)
      (omega (arith, mod-mul_digits 256 (256 ^ n) x (omega arith) (one-le-pow n 256 (omega arith))))

last_step : (x : ℕ) → value_from (0 * 256 ^ 32 + x % 256 ^ 32) [] ≡ x % 2 ^ 256
unfolding value_from
last_step x = omega arith

-- Filling n bytes of x before `ret`: the reader arrives at `ret` with x's low n bytes behind acc.
value_from-fill_bytes :
    (n x acc : ℕ) (ret : List ℕ)
    → value_from acc (fill_bytes n x ret) ≡ value_from (acc * 256 ^ n + x % 256 ^ n) ret
unfolding fill_bytes value_from
value_from-fill_bytes zero x acc ret = ap (λ (t : ℕ). value_from t ret) (omega arith)
value_from-fill_bytes (suc n) x acc ret =
    value_from-fill_bytes n (x / 256) acc (x % 256 ∷ ret)
    ∙ ap (λ (t : ℕ). value_from t ret) (next_digit n x acc)

pub length-fill_bytes : (n x : ℕ) (ret : List ℕ) → length (fill_bytes n x ret) ≡ n + length ret
unfolding fill_bytes
length-fill_bytes zero x ret = omega arith
length-fill_bytes (suc n) x ret = omega (arith, length-fill_bytes n (x / 256) (x % 256 ∷ ret))

pub All-fill_bytes :
    (n x : ℕ) (ret : List ℕ) → All (λ b. b < 256) ret → All (λ b. b < 256) (fill_bytes n x ret)
unfolding fill_bytes
All-fill_bytes zero x ret h = h
All-fill_bytes (suc n) x ret h = All-fill_bytes n (x / 256) (x % 256 ∷ ret) (omega arith, h)

-- `bigint_to_Uint8Array` gives 32 bytes, and `Uint8Array_to_bigint` reads from them the low 256
-- bits of the number.
pub uint8_array_to_bigint-bigint_to_uint8_array :
    (x : ℕ)
    → (uint8_array_to_bigint (bigint_to_uint8_array x) ≡ x % 2 ^ 256)
      × (length (bigint_to_uint8_array x) ≡ 32)
      × All (λ b. b < 256) (bigint_to_uint8_array x)
unfolding bigint_to_uint8_array uint8_array_to_bigint
uint8_array_to_bigint-bigint_to_uint8_array x = (
  foldl-eq-value_from 0 (fill_bytes 32 x []) ∙ (value_from-fill_bytes 32 x 0 [] ∙ last_step x),
  length-fill_bytes 32 x [],
  All-fill_bytes 32 x [] tt,
)

-- The four words of `bigint_to_tuple`, lowest first, stand for the low 256 bits of the number,
-- and each is below 2 ^ 64.
pub bigint_to_tuple-value :
    (x : ℕ)
    → let (a, b, c, d) = bigint_to_tuple x in
      (a + 2 ^ 64 * b + 2 ^ 128 * c + 2 ^ 192 * d ≡ x % 2 ^ 256)
      × (a < 2 ^ 64)
      × (b < 2 ^ 64)
      × (c < 2 ^ 64)
      × (d < 2 ^ 64)
unfolding bigint_to_tuple
bigint_to_tuple-value x = (omega arith, omega arith, omega arith, omega arith, omega arith)
