-- ===== src/TxCodec/Buffers.antt =====
-- The bytes of a request as ethers packs them, and the numbers that the buffers stand for.
use zk_obs.Common.{
  All, ℕ, zero, suc, ◌+◌, ◌*◌, ◌/◌, ◌%◌, ◌^◌, ◌≤◌, ◌<◌, ◌≡◌, refl, List, [], ◌∷◌, ◌++◌, arith,
  length, ap,
}
use zk_obs.Common.Int.{ℤ, pos}
use zk_obs.Common.Action.{Result, ok}
use zk_obs.Bigint.{fill_bytes}
use zk_obs.Bigint.Digits.{All-fill_bytes}
use zk_obs.TxCodec.{Fields, buffer_concat, buffer_to_big_int}
use mathlib.Core.List.{foldl}
use native.Mathlib.Nat.{pow-suc, mul-le-mul_right}

-- A field of `bits` bits holds a number of that width; the widths are whole bytes.
abbrev pub InRange : ℕ × ℤ → Type 0
InRange (bits, v) = (n : ℕ) × (v ≡ pos n) × (n < 2 ^ bits) × (bits % 8 ≡ 0)

abbrev pub field_bytes : ℕ × ℤ → List ℕ
field_bytes (bits, pos n) = fill_bytes (bits / 8) n []
field_bytes (bits, _) = []

-- The tightly packed encoding: each field's big-endian bytes, one field behind the other.
abbrev pub tight : Fields → List ℕ
tight [] = []
tight (f ∷ fs) = field_bytes f ++ tight fs

-- What `solidityPack` is documented to do: fields in range are packed tightly.
abbrev pub PacksTightly : (Fields → Result (List ℕ)) → Type 0
PacksTightly pack = (fs : Fields) → All InRange fs → pack fs ≡ ok (tight fs)

abbrev pub IsByte : ℕ → Type 0
IsByte b = b < 256

pub All-append {ℓ} :
    {A : Type 0} (P : A → Type ℓ) (xs ys : List A) → All P xs → All P ys → All P (xs ++ ys)
All-append P [] ys h k = k
All-append P (x ∷ xs) ys h k = (h.0, All-append P xs ys h.1 k)

pub All-tight : (fs : Fields) → All InRange fs → All IsByte (tight fs)
All-tight [] h = tt
All-tight ((bits, pos n) ∷ fs) h =
    All-append IsByte (fill_bytes (bits / 8) n []) (tight fs) (All-fill_bytes (bits / 8) n [] tt)
      (All-tight fs h.1)
All-tight ((bits, _) ∷ fs) h = All-tight fs h.1

pub length-buffer_concat : (n : ℕ) (bs : List ℕ) → length (buffer_concat n bs) ≡ n
unfolding buffer_concat
length-buffer_concat zero bs = refl
length-buffer_concat (suc n) [] = ap suc (length-buffer_concat n [])
length-buffer_concat (suc n) (b ∷ bs) = ap suc (length-buffer_concat n bs)

pub All-buffer_concat : (n : ℕ) (bs : List ℕ) → All IsByte bs → All IsByte (buffer_concat n bs)
unfolding buffer_concat
All-buffer_concat zero bs h = tt
All-buffer_concat (suc n) [] h = (omega arith, All-buffer_concat n [] tt)
All-buffer_concat (suc n) (b ∷ bs) h = (h.0, All-buffer_concat n bs h.1)

-- Bytes behind a number `acc` stand for a number between acc and acc + 1, in units of 256 ^ n.
foldl_bounds :
    (acc : ℕ) (bs : List ℕ)
    → All IsByte bs
    → let v = foldl (λ n b. n * 256 + b) acc bs in
      (acc * 256 ^ length bs ≤ v) × (v < (acc + 1) * 256 ^ length bs)
foldl_bounds acc [] h = (omega arith, omega arith)
foldl_bounds acc (b ∷ bs) (hb, h) =
    let (lo, hi) = foldl_bounds (acc * 256 + b) bs h in
    let last : (b + 1) * 256 ^ length bs ≤ 256 * 256 ^ length bs =
      mul-le-mul_right (256 ^ length bs) (omega arith) in
    rw (pow-suc 256 (length bs)) (omega (arith, lo), omega (arith, hi, last))

pub buffer_to_big_int_bounds :
    (b : ℕ) (bs : List ℕ)
    → 0 < b
    → All IsByte (b ∷ bs)
    → (256 ^ length bs ≤ buffer_to_big_int (b ∷ bs))
      × (buffer_to_big_int (b ∷ bs) < 256 ^ suc (length bs))
unfolding buffer_to_big_int
buffer_to_big_int_bounds b bs p (hb, h) =
    let (lo, hi) = foldl_bounds (0 * 256 + b) bs h in
    let least : 1 * 256 ^ length bs ≤ b * 256 ^ length bs = mul-le-mul_right (256 ^ length bs) p in
    let most : (b + 1) * 256 ^ length bs ≤ 256 * 256 ^ length bs =
      mul-le-mul_right (256 ^ length bs) (omega arith) in
    rw (pow-suc 256 (length bs)) (omega (arith, lo, least), omega (arith, hi, most))
