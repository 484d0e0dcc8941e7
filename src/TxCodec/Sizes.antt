-- ===== src/TxCodec/Sizes.antt =====
-- How many chunks the buffers of a request fill.
use zk_obs.Common.{
  All, ℕ, suc, ◌*◌, ◌^◌, ◌≤◌, ◌<◌, ◌≡◌, refl, Bool, List, [], ◌∷◌, map, replicate, arith, length,
  ap, ◌∙◌,
}
use zk_obs.Transaction.{chunk_bits_size}
use zk_obs.TxCodec.{
  TxChunks, buffers_of, mark_first, chunks_of_buffers, buffer_concat, buffer_to_big_int,
  bigint_to_chunk_array,
}
use native.Mathlib.Nat.{le_trans}
use zk_obs.TxCodec.Chunks.{value, length-bigint_to_chunk_array, bigint_to_chunk_array-value}
use zk_obs.TxCodec.Buffers.{
  IsByte, length-buffer_concat, All-buffer_concat, buffer_to_big_int_bounds,
}

-- The number that k chunks of 96 bits stand for, where the first byte of the buffer is not zero.
count_chunks :
    (k n b : ℕ) (bs : List ℕ)
    → length bs ≡ n
    → 0 < b
    → All IsByte (b ∷ bs)
    → (2 ^ chunk_bits_size) ^ k ≤ 256 ^ n
    → 256 ^ suc n ≤ (2 ^ chunk_bits_size) ^ suc k
    → length (bigint_to_chunk_array (buffer_to_big_int (b ∷ bs)) chunk_bits_size) ≡ suc k
count_chunks k n b bs len p all lo hi =
    let (least, most) = buffer_to_big_int_bounds b bs p all in
    length-bigint_to_chunk_array k (buffer_to_big_int (b ∷ bs)) chunk_bits_size (omega arith)
      (le_trans lo (rw len at least)) (le_trans (rw len at most) hi)

zero_flags : (xs : List ℕ) → map {B = ℕ} (λ _. 0) xs ≡ replicate (length xs) 0
zero_flags [] = refl
zero_flags (x ∷ xs) = ap (λ (t : List ℕ). 0 ∷ t) (zero_flags xs)

-- What the chunks of a request are: nine of the request, k of the operation, which stand for the
-- packed bytes with zeros behind them, and a flag for each of the k, set only on a critical first.
pub record Sized (k : ℕ) (critical : Bool) (bytes : List ℕ) (c : TxChunks) : Type 0 where
  pub request_size : length c.r_chunks_bigint ≡ 9
  pub operation_size : length c.o_chunks_bigint ≡ k
  pub flags : c.is_critical_chunk ≡ mark_first critical (replicate k 0)
  pub request_value : value (2 ^ 96) c.r_chunks_bigint ≡ buffer_to_big_int (buffer_concat 108 bytes)
  pub operation_value :
      value (2 ^ 96) c.o_chunks_bigint ≡ buffer_to_big_int (buffer_concat (k * 12) bytes)

buffer_concat-suc :
    (m n b : ℕ) (bs : List ℕ) → m ≡ suc n → buffer_concat m (b ∷ bs) ≡ b ∷ buffer_concat n bs
unfolding buffer_concat
buffer_concat-suc m n b bs e = ap (λ (t : ℕ). buffer_concat t (b ∷ bs)) e

-- A buffer of m = 12 * (j + 1) bytes is j + 1 chunks, if it begins with a byte that is not zero.
count_buffer :
    (j m n b : ℕ) (bs : List ℕ)
    → m ≡ suc n
    → 0 < b
    → All IsByte (b ∷ bs)
    → (2 ^ chunk_bits_size) ^ j ≤ 256 ^ n
    → 256 ^ suc n ≤ (2 ^ chunk_bits_size) ^ suc j
    → length (bigint_to_chunk_array (buffer_to_big_int (buffer_concat m (b ∷ bs))) chunk_bits_size)
      ≡ suc j
count_buffer j m n b bs e p all lo hi =
    ap (λ (t : List ℕ). length (bigint_to_chunk_array (buffer_to_big_int t) chunk_bits_size))
      (buffer_concat-suc m n b bs e)
    ∙ count_chunks j n b (buffer_concat n bs) (length-buffer_concat n bs) p
        (all.0, All-buffer_concat n bs all.1) lo hi

pub chunks_of_buffers-Sized :
    (j n b : ℕ) (critical : Bool) (bs : List ℕ)
    → suc j * 12 ≡ suc n
    → 0 < b
    → All IsByte (b ∷ bs)
    → (2 ^ chunk_bits_size) ^ j ≤ 256 ^ n
    → 256 ^ suc n ≤ (2 ^ chunk_bits_size) ^ suc j
    → Sized (suc j) critical (b ∷ bs) (chunks_of_buffers (buffers_of (suc j) critical (b ∷ bs)))
unfolding chunks_of_buffers buffers_of
chunks_of_buffers-Sized j n b critical bs e p all lo hi =
    let o = count_buffer j (suc j * 12) n b bs e p all lo hi in
    let o_list : List ℕ =
      bigint_to_chunk_array (buffer_to_big_int (buffer_concat (suc j * 12) (b ∷ bs)))
        chunk_bits_size in
    record {
      request_size = count_buffer 8 108 107 b bs refl p all (omega arith) (omega arith);
      operation_size = o;
      flags = ap (mark_first critical) (zero_flags o_list ∙ ap (λ (t : ℕ). replicate t 0) o);
      request_value = (bigint_to_chunk_array-value _ 96 (omega arith)).0;
      operation_value = (bigint_to_chunk_array-value _ 96 (omega arith)).0;
    }
