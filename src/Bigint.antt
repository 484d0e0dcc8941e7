-- ===== src/Bigint.antt =====
-- backend/ts-sdk/src/domain/lib/bigint-helper.ts, and the conversions between a bigint and its
-- bytes or 64-bit words in helper.ts beside it.
pub mod Extrema
pub mod Float40
pub mod Digits
use zk_obs.Common.{
  ℕ, zero, suc, ◌+◌, ◌*◌, ◌/◌, ◌%◌, ◌^◌, Option, none, some, List, [], ◌∷◌, ◌++◌, ◌==◌,
  if◌then◌else◌,
}
use zk_obs.Common.Int.{ℤ, ltb_ℤ}
use mathlib.Core.List.{foldl}

-- `arr.reduce((max, e) => e > max ? e : max, arr[0])`; of no numbers it is `undefined`.
unfoldable pub big_int_max : List ℤ → Option ℤ
big_int_max [] = none
big_int_max (a ∷ rest) = some (foldl (λ m e. if ltb_ℤ m e then e else m) a (a ∷ rest))

-- The body of `bigIntMin` makes the same test.
unfoldable pub big_int_min : List ℤ → Option ℤ
big_int_min [] = none
big_int_min (a ∷ rest) = some (foldl (λ m e. if ltb_ℤ m e then e else m) a (a ∷ rest))

-- `while (number % 10n === 0n) { number /= 10n; val_exp += 1n; }`, on fuel: `number` rounds are
-- enough for a number that is not zero.
unfoldable pub strip_zeros : ℕ → ℕ → ℕ → ℕ × ℕ
strip_zeros zero number val_exp = (number, val_exp)
strip_zeros (suc fuel) number val_exp =
    let rest = strip_zeros fuel (number / 10) (val_exp + 1) in
    if number % 10 == 0 then rest else (number, val_exp)

-- `amountToTxAmountV3_40bit`
unfoldable pub amount_to_tx_amount_v3_40bit : ℕ → ℕ
unfolding strip_zeros
amount_to_tx_amount_v3_40bit number =
    let (m, e) = strip_zeros number number 0 in if number == 0 then 0 else m + e * 2 ^ 35

-- `bigint_to_Uint8Array`: the loop from index 31 down, which fills `ret` from its end.
unfoldable pub fill_bytes : ℕ → ℕ → List ℕ → List ℕ
fill_bytes zero x ret = ret
fill_bytes (suc n) x ret = fill_bytes n (x / 256) ((x % 256) ∷ ret)

unfoldable pub bigint_to_uint8_array : ℕ → List ℕ
unfolding fill_bytes
bigint_to_uint8_array x = fill_bytes 32 x []

-- `Uint8Array_to_bigint`
unfoldable pub uint8_array_to_bigint : List ℕ → ℕ
uint8_array_to_bigint = foldl (λ ret b. ret * 256 + b) 0

-- `bigint_to_tuple`: four 64-bit words, the lowest first.
unfoldable pub bigint_to_tuple : ℕ → ℕ × ℕ × ℕ × ℕ
bigint_to_tuple x = (
  x % 2 ^ 64,
  x / 2 ^ 64 % 2 ^ 64,
  x / 2 ^ 64 / 2 ^ 64 % 2 ^ 64,
  x / 2 ^ 64 / 2 ^ 64 / 2 ^ 64 % 2 ^ 64,
)
