-- ===== src/Tests/Codec.antt =====
-- The encodings, the Merkle paths and the helpers on numbers, at concrete inputs.
use zk_obs.Common.{All, ℕ, ◌+◌, ◌*◌, ◌%◌, ◌^◌, ◌<◌, ◌≡◌, ◌≢◌, ◌⊎◌, some, [], ◌∷◌, arith, length}
use zk_obs.Common.Int.{pos, negsuc, ◌≤ℤ◌}
use zk_obs.Merkle.{Tree, Nodes, no_rows}
use zk_obs.Tests.{small_config}
use zk_obs.Bigint.{
  big_int_max, amount_to_tx_amount_v3_40bit, bigint_to_uint8_array, uint8_array_to_bigint,
  bigint_to_tuple, strip_zeros,
}
use zk_obs.Bigint.Extrema.{big_int_max-largest}
use zk_obs.Bigint.Float40.{
  of_tx_amount, of_tx_amount-amount_to_tx_amount_v3_40bit, amount_to_tx_amount_v3_40bit_collides,
}
use zk_obs.Bigint.Digits.{uint8_array_to_bigint-bigint_to_uint8_array, bigint_to_tuple-value}
use zk_obs.Transaction.TsTxType
use zk_obs.TxCodec.{bigint_to_chunk_array}
use zk_obs.TxCodec.Chunks.{value, bigint_to_chunk_array-value}
use mathlib.Core.List.{Memᴰ}

big_int_max-largest_example :
    (m : _) × (big_int_max (pos 3 ∷ negsuc 4 ∷ pos 9 ∷ []) ≡ some m)
    × Memᴰ m (pos 3 ∷ negsuc 4 ∷ pos 9 ∷ [])
    × All (λ y. y ≤ℤ m) (pos 3 ∷ negsuc 4 ∷ pos 9 ∷ [])
big_int_max-largest_example = big_int_max-largest (pos 3) (negsuc 4 ∷ pos 9 ∷ [])

abbrev amount : ℕ
amount = 1200

of_tx_amount-amount_to_tx_amount_v3_40bit_example :
    (amount_to_tx_amount_v3_40bit amount < 2 ^ 40)
    × (of_tx_amount (amount_to_tx_amount_v3_40bit amount) ≡ amount)
    × ((amount ≡ 0) ⊎ (amount_to_tx_amount_v3_40bit amount % 2 ^ 35 % 10 ≢ 0))
unfolding strip_zeros
of_tx_amount-amount_to_tx_amount_v3_40bit_example =
    of_tx_amount-amount_to_tx_amount_v3_40bit amount (omega arith) (omega arith)

amount_to_tx_amount_v3_40bit_collides_example :
    amount_to_tx_amount_v3_40bit (2 ^ 35 + 7) ≡ amount_to_tx_amount_v3_40bit (10 * 7)
amount_to_tx_amount_v3_40bit_collides_example =
    amount_to_tx_amount_v3_40bit_collides 7 (omega arith) (omega arith)

uint8_array_to_bigint-bigint_to_uint8_array_example :
    (uint8_array_to_bigint (bigint_to_uint8_array 70000) ≡ 70000 % 2 ^ 256)
    × (length (bigint_to_uint8_array 70000) ≡ 32)
    × All (λ b. b < 256) (bigint_to_uint8_array 70000)
uint8_array_to_bigint-bigint_to_uint8_array_example =
    uint8_array_to_bigint-bigint_to_uint8_array 70000

bigint_to_tuple-value_example :
    let (a, b, c, d) = bigint_to_tuple (2 ^ 65 + 3) in
    (a + 2 ^ 64 * b + 2 ^ 128 * c + 2 ^ 192 * d ≡ (2 ^ 65 + 3) % 2 ^ 256)
    × (a < 2 ^ 64)
    × (b < 2 ^ 64)
    × (c < 2 ^ 64)
    × (d < 2 ^ 64)
bigint_to_tuple-value_example = bigint_to_tuple-value (2 ^ 65 + 3)

bigint_to_chunk_array-value_example :
    (value (2 ^ 4) (bigint_to_chunk_array 1234 4) ≡ 1234)
    × All (λ c. c < 2 ^ 4) (bigint_to_chunk_array 1234 4)
bigint_to_chunk_array-value_example = bigint_to_chunk_array-value 1234 4 (omega arith)

abbrev high_tree : Tree
high_tree = record { height = 48; hash_func = small_config.poseidon; leaf_default = 7 }

abbrev empty_nodes : Nodes
empty_nodes = record { committed = no_rows; pending = no_rows }
