-- ===== src/Bigint/Float40.antt =====
-- The 40-bit decimal float that `amountToTxAmountV3_40bit` writes: mantissa and exponent.
use zk_obs.Common.{
  ℕ, zero, suc, ◌+◌, ◌*◌, ◌/◌, ◌%◌, ◌^◌, ◌≤◌, ◌<◌, ◌≡◌, ◌≢◌, refl, arith, ◌==◌, Bool-cases, ◌⊎◌,
  inl, inr, ap, sym, ◌∙◌, true,
}
use zk_obs.Bigint.{strip_zeros, amount_to_tx_amount_v3_40bit}
use native.Mathlib.Nat.{pow-suc, mul_comm}
use native.Mathlib.Numerals.{add-one}

-- What a reader of the 40 bits takes them for: the low 35 bits, times ten to the five high ones.
abbrev pub of_tx_amount : ℕ → ℕ
of_tx_amount v = v % 2 ^ 35 * 10 ^ (v / 2 ^ 35 % 32)

ten_pow : (e : ℕ) → 10 ^ (e + 1) ≡ 10 * 10 ^ e
ten_pow e = rw add-one (rw pow-suc (mul_comm _ _))

shift_digit : (n e : ℕ) → n % 10 ≡ 0 → n / 10 * 10 ^ (e + 1) ≡ n * 10 ^ e
shift_digit n e h =
    let q : n ≡ n / 10 * 10 = omega arith in
    rw (ten_pow e) (omega (arith, ap (λ (t : ℕ). t * 10 ^ e) q))

-- The stripping keeps the number that the pair stands for, and the mantissa is not zero.
strip_zeros-value :
    (f n e : ℕ)
    → 0 < n
    → ((strip_zeros f n e).0 * 10 ^ (strip_zeros f n e).1 ≡ n * 10 ^ e)
      × (0 < (strip_zeros f n e).0)
unfolding strip_zeros
strip_zeros-value zero n e h = (refl, h)
strip_zeros-value (suc f) n e h = elim (Bool-cases (n % 10 == 0)) [
  | inl more ↦
      (let (ih, p) = strip_zeros-value f (n / 10) (e + 1) (ground arith) in
        rw more (ih ∙ shift_digit n e (ground arith), p))
  | inr done ↦ rw done (refl, h)
]

-- With a round for each unit of the number the loop ends by its test.
strip_zeros-done : (f n e : ℕ) → 0 < n → n ≤ f → (strip_zeros f n e).0 % 10 ≢ 0
unfolding strip_zeros
strip_zeros-done zero n e p h = absurd (omega arith)
strip_zeros-done (suc f) n e p h = elim (Bool-cases (n % 10 == 0)) [
  | inl more ↦ rw more (strip_zeros-done f (n / 10) (e + 1) (ground arith) (ground arith))
  | inr done ↦ rw done (ground arith)
]

strip_zeros-id : (f n e : ℕ) → n % 10 ≢ 0 → strip_zeros f n e ≡ (n, e)
unfolding strip_zeros
strip_zeros-id zero n e h = refl
strip_zeros-id (suc f) n e h = ground arith

-- The mantissa and the exponent of an amount.
abbrev pub mantissa : ℕ → ℕ
mantissa n = (strip_zeros n n 0).0

abbrev pub exponent : ℕ → ℕ
exponent n = (strip_zeros n n 0).1

code_parts :
    (m e : ℕ)
    → m < 2 ^ 35
    → e < 32
    → ((m + e * 2 ^ 35) % 2 ^ 35 ≡ m) × ((m + e * 2 ^ 35) / 2 ^ 35 % 32 ≡ e)
code_parts m e h g = (omega arith, omega arith)

code-suc :
    (k : ℕ) → amount_to_tx_amount_v3_40bit (suc k) ≡ mantissa (suc k) + exponent (suc k) * 2 ^ 35
unfolding amount_to_tx_amount_v3_40bit
code-suc k = ground arith

of_tx_amount-code :
    (v m e n : ℕ)
    → v ≡ m + e * 2 ^ 35
    → m < 2 ^ 35
    → e < 32
    → m * 10 ^ e ≡ n * 10 ^ 0
    → m % 10 ≢ 0
    → (v < 2 ^ 40) × (of_tx_amount v ≡ n) × (v % 2 ^ 35 % 10 ≢ 0)
of_tx_amount-code v m e n c h g val odd =
    let (lo, hi) = code_parts m e h g in
    let (read, last) : (of_tx_amount v ≡ n) × (v % 2 ^ 35 % 10 ≢ 0) =
      rw c (rw (lo, hi) (val ∙ omega arith, odd)) in
    (omega (arith, c), read, last)

-- An amount whose mantissa fits 35 bits and whose exponent fits five bits gets a code of 40 bits, from
-- which it is read back as it was, and the mantissa in the code is no multiple of ten unless the
-- amount is zero.
pub of_tx_amount-amount_to_tx_amount_v3_40bit :
    (n : ℕ)
    → mantissa n < 2 ^ 35
    → exponent n < 32
    → (amount_to_tx_amount_v3_40bit n < 2 ^ 40)
      × (of_tx_amount (amount_to_tx_amount_v3_40bit n) ≡ n)
      × ((n ≡ 0) ⊎ (amount_to_tx_amount_v3_40bit n % 2 ^ 35 % 10 ≢ 0))
unfolding amount_to_tx_amount_v3_40bit
of_tx_amount-amount_to_tx_amount_v3_40bit zero fits short = (omega arith, refl, inl refl)
of_tx_amount-amount_to_tx_amount_v3_40bit (suc k) fits short =
    let (value, _) = strip_zeros-value (suc k) (suc k) 0 (omega arith) in
    let (bits, read, odd) =
      of_tx_amount-code _ _ _ (suc k) (code-suc k) fits short value
        (strip_zeros-done (suc k) (suc k) 0 (omega arith) (omega arith)) in
    (bits, read, inr odd)

code_of_odd : (n : ℕ) → n % 10 ≢ 0 → amount_to_tx_amount_v3_40bit n ≡ n
unfolding amount_to_tx_amount_v3_40bit
code_of_odd n h = rw (strip_zeros-id n n 0 h) (ground arith)

strip_zeros-shifted : (f m n : ℕ) → n ≡ 10 * m → m % 10 ≢ 0 → strip_zeros (suc f) n 0 ≡ (m, 1)
unfolding strip_zeros
strip_zeros-shifted f m n e h =
    let test : (n % 10 == 0) ≡ true = ground arith in
    let part : n / 10 ≡ m = omega arith in rw test (rw part (strip_zeros-id f m 1 h))

code_of_strip :
    (k m e : ℕ)
    → strip_zeros (suc k) (suc k) 0 ≡ (m, e)
    → amount_to_tx_amount_v3_40bit (suc k) ≡ m + e * 2 ^ 35
code_of_strip k m e h = rw (code-suc k) (ap (λ (r : ℕ × ℕ). r.0 + r.1 * 2 ^ 35) h)

code_of_shifted : (m : ℕ) → m % 10 ≢ 0 → amount_to_tx_amount_v3_40bit (10 * m) ≡ m + 2 ^ 35
code_of_shifted zero h = absurd (h refl)
code_of_shifted (suc j) h =
    let e : 10 * suc j ≡ suc (10 * j + 9) = omega arith in
    rw e (
      code_of_strip (10 * j + 9) (suc j) 1
        (strip_zeros-shifted (10 * j + 9) (suc j) (suc (10 * j + 9)) (omega arith) h)
      ∙ omega arith)

-- The code is not injective: the mantissa runs over into the exponent. Of a number m for which
-- neither m nor 2 ^ 35 + m is a multiple of ten, 2 ^ 35 + m and 10 * m get the same code.
pub amount_to_tx_amount_v3_40bit_collides :
    (m : ℕ)
    → m % 10 ≢ 0
    → (2 ^ 35 + m) % 10 ≢ 0
    → amount_to_tx_amount_v3_40bit (2 ^ 35 + m) ≡ amount_to_tx_amount_v3_40bit (10 * m)
unfolding amount_to_tx_amount_v3_40bit
amount_to_tx_amount_v3_40bit_collides zero h k = absurd (h refl)
amount_to_tx_amount_v3_40bit_collides (suc j) h k =
    code_of_odd (2 ^ 35 + suc j) k ∙ (omega arith ∙ sym (code_of_shifted (suc j) h))
