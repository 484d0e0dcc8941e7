-- ===== src/TxCodec.antt =====
-- The public data of a request: `encodeRChunkBuffer` and `bigint_to_chunk_array` of
-- backend/ts-sdk/src/domain/lib/ts-rollup/ts-tx-helper.ts, and `getTxChunks` of
-- backend/ts-sequencer/src/infrastructure/sequencer.processor.ts.
pub mod Chunks
pub mod Buffers
pub mod Sizes
pub mod Requests
use zk_obs.Common.{
  ℕ, zero, suc, ◌+◌, ◌*◌, ◌/◌, ◌%◌, ◌^◌, Bool, true, false, Option, none, some, List, [], ◌∷◌, map,
  replicate, reverse, ltb, ◌==◌, if◌then◌else◌,
}
use zk_obs.Common.Int.{ℤ, pos}
use zk_obs.Common.Action.{Result, ok, err, tx_offset_required, buy_amt_required, unknown_req_type}
use zk_obs.Bigint.{amount_to_tx_amount_v3_40bit}
use zk_obs.Transaction.TsTxType
use zk_obs.Transaction.{
  TransactionInfo, Metadata, chunk_bytes_size, chunk_bits_size, max_chunks_bytes_per_req,
}
use mathlib.Core.List.{foldl}

-- The loop of `bigint_to_chunk_array`, on fuel: `x` rounds are enough.
unfoldable pub chunks_from : ℕ → ℕ → ℕ → List ℕ
chunks_from zero modulus x = []
chunks_from (suc fuel) modulus x =
    let rest = chunks_from fuel modulus (x / modulus) in if ltb 0 x then x % modulus ∷ rest else []

-- `bigint_to_chunk_array`; `x_temp >> chunkBits` is the division by the modulus.
unfoldable pub bigint_to_chunk_array : ℕ → ℕ → List ℕ
unfolding chunks_from
bigint_to_chunk_array x chunk_bits = reverse (chunks_from x (2 ^ chunk_bits) x)

-- `Buffer.concat([bytes], length)`: cut off, or filled up with zeros at the end.
unfoldable pub buffer_concat : ℕ → List ℕ → List ℕ
buffer_concat zero bytes = []
buffer_concat (suc n) [] = 0 ∷ buffer_concat n []
buffer_concat (suc n) (b ∷ bytes) = b ∷ buffer_concat n bytes

-- `BigInt('0x' + buffer.toString('hex'))`
unfoldable pub buffer_to_big_int : List ℕ → ℕ
buffer_to_big_int = foldl (λ n b. n * 256 + b) 0

-- What `encodeRChunkBuffer` returns.
pub record ChunkBuffers : Type 0 where
  pub r_chunks : List ℕ
  pub o_chunks : List ℕ
  pub is_critical : Bool

-- The fields that go to `solidityPack`, each with its width in bits.
abbrev pub Fields : Type 0
Fields = List (ℕ × ℤ)

-- The packed bytes in two buffers: one of the fixed request size, one of `k` chunks.
unfoldable pub buffers_of : ℕ → Bool → List ℕ → ChunkBuffers
unfolding buffer_concat
buffers_of k critical bytes = record {
  r_chunks = buffer_concat max_chunks_bytes_per_req bytes;
  o_chunks = buffer_concat (k * chunk_bytes_size) bytes;
  is_critical = critical;
}

abbrev pub packed : Result (List ℕ) → ℕ → Bool → Result ChunkBuffers
packed (ok bytes) k critical = ok (buffers_of k critical bytes)
packed (err e) k critical = err e

-- `solidity_pack` is the function of the ethers package.
module _ (solidity_pack : Fields → Result (List ℕ)) where
  -- case REGISTER
  unfoldable pub encode_register : TransactionInfo → Result ChunkBuffers
  encode_register tx =
      packed
        (solidity_pack (
          (8, pos tx.req_type)
          ∷ (32, pos tx.arg0)
          ∷ (16, pos tx.token_id)
          ∷ (128, pos tx.amount)
          ∷ (160, pos tx.arg1)
          ∷ []))
        4 true

  -- case DEPOSIT
  unfoldable pub encode_deposit : TransactionInfo → Result ChunkBuffers
  encode_deposit tx =
      packed
        (solidity_pack (
          (8, pos tx.req_type)
          ∷ (32, pos tx.arg0)
          ∷ (16, pos tx.token_id)
          ∷ (128, pos tx.amount)
          ∷ []))
        2 true

  -- case WITHDRAW
  unfoldable pub encode_withdraw : TransactionInfo → Result ChunkBuffers
  encode_withdraw tx =
      packed
        (solidity_pack (
          (8, pos tx.req_type)
          ∷ (32, pos tx.account_id)
          ∷ (16, pos tx.token_id)
          ∷ (128, pos tx.amount)
          ∷ []))
        2 true

  -- case SecondLimitOrder, by the sender's account, and case CancelOrder, by `arg0`
  unfoldable pub encode_order_amount : ℕ → TransactionInfo → Result ChunkBuffers
  unfolding amount_to_tx_amount_v3_40bit
  encode_order_amount account tx =
      packed
        (solidity_pack (
          (8, pos tx.req_type)
          ∷ (32, pos account)
          ∷ (16, pos tx.token_id)
          ∷ (40, pos (amount_to_tx_amount_v3_40bit tx.amount))
          ∷ []))
        1 false

  -- case SecondLimitStart; `!metadata?.txOffset` holds of no metadata and of an offset of zero
  unfoldable pub encode_start : TransactionInfo → Option Metadata → Result ChunkBuffers
  encode_start tx none = err tx_offset_required
  encode_start tx (some m) = elim m.tx_offset [
    | pos zero ↦ err tx_offset_required
    | offset ↦ packed (solidity_pack ((8, pos tx.req_type) ∷ (32, offset) ∷ [])) 1 false
  ]

  -- case SecondLimitExchange
  unfoldable pub encode_exchange : TransactionInfo → Option Metadata → Result ChunkBuffers
  unfolding amount_to_tx_amount_v3_40bit
  encode_exchange tx none = err tx_offset_required
  encode_exchange tx (some m) = elim m.tx_offset [
    | pos zero ↦ err tx_offset_required
    | offset ↦
        (if m.maker_buy_amt == 0
          then err buy_amt_required
          else packed
              (solidity_pack (
                (8, pos tx.req_type)
                ∷ (32, offset)
                ∷ (40, pos (amount_to_tx_amount_v3_40bit m.maker_buy_amt))
                ∷ []))
              1 false)
  ]

  -- case SecondLimitEnd
  unfoldable pub encode_end : TransactionInfo → Result ChunkBuffers
  encode_end tx = packed (solidity_pack ((8, pos tx.req_type) ∷ [])) 1 false

  -- case NOOP, which is case UNKNOWN too
  unfoldable pub encode_noop : Result ChunkBuffers
  unfolding buffer_concat
  encode_noop = ok (record {
    r_chunks = replicate max_chunks_bytes_per_req 0;
    o_chunks = buffer_concat (1 * chunk_bytes_size) (0 ∷ []);
    is_critical = false;
  })

  unfoldable pub encode_r_chunk_buffer : TransactionInfo → Option Metadata → Result ChunkBuffers
  unfolding encode_register encode_deposit encode_withdraw encode_order_amount encode_start
      encode_exchange encode_end encode_noop
  encode_r_chunk_buffer tx metadata =
      if tx.req_type == TsTxType.register
      then encode_register tx
      else if tx.req_type == TsTxType.deposit
      then encode_deposit tx
      else if tx.req_type == TsTxType.withdraw
      then encode_withdraw tx
      else if tx.req_type == TsTxType.second_limit_order
      then encode_order_amount tx.account_id tx
      else if tx.req_type == TsTxType.cancel_order
      then encode_order_amount tx.arg0 tx
      else if tx.req_type == TsTxType.second_limit_start
      then encode_start tx metadata
      else if tx.req_type == TsTxType.second_limit_exchange
      then encode_exchange tx metadata
      else if tx.req_type == TsTxType.second_limit_end
      then encode_end tx
      else if tx.req_type == TsTxType.noop
      then encode_noop
      else err unknown_req_type

-- What `getTxChunks` returns.
pub record TxChunks : Type 0 where
  pub r_chunks_bigint : List ℕ
  pub o_chunks_bigint : List ℕ
  pub is_critical_chunk : List ℕ

-- `isCriticalChunk[0] = '1'`
abbrev pub mark_first : Bool → List ℕ → List ℕ
mark_first false flags = flags
mark_first true [] = 1 ∷ []
mark_first true (f ∷ flags) = 1 ∷ flags

unfoldable pub chunks_of_buffers : ChunkBuffers → TxChunks
unfolding bigint_to_chunk_array buffer_to_big_int
chunks_of_buffers b =
    let o : List ℕ = bigint_to_chunk_array (buffer_to_big_int b.o_chunks) chunk_bits_size in
    record {
      r_chunks_bigint = bigint_to_chunk_array (buffer_to_big_int b.r_chunks) chunk_bits_size;
      o_chunks_bigint = o;
      is_critical_chunk = mark_first b.is_critical (map (λ _. 0) o);
    }

abbrev pub result_chunks : Result ChunkBuffers → Result TxChunks
result_chunks (ok b) = ok (chunks_of_buffers b)
result_chunks (err e) = err e

unfoldable pub get_tx_chunks :
    (Fields → Result (List ℕ)) → TransactionInfo → Option Metadata → Result TxChunks
unfolding encode_r_chunk_buffer chunks_of_buffers
get_tx_chunks pack tx metadata = result_chunks (encode_r_chunk_buffer pack tx metadata)
