-- ===== src/Transaction.antt =====
-- A request as the sequencer reads it: TransactionInfo of
-- backend/common/ts-typeorm/src/account/transactionInfo.entity.ts, the request types and sizes of
-- backend/ts-sdk/src/domain/lib/ts-types/ts-types.ts.
pub mod TsTxType
use zk_obs.Common.{ℕ, ◌*◌, List}
use zk_obs.Common.Int.{ℤ}

abbrev pub chunk_bytes_size : ℕ
chunk_bytes_size = 12

abbrev pub chunk_bits_size : ℕ
chunk_bits_size = chunk_bytes_size * 8

abbrev pub max_chunks_per_req : ℕ
max_chunks_per_req = 9

abbrev pub max_chunks_bytes_per_req : ℕ
max_chunks_bytes_per_req = max_chunks_per_req * chunk_bytes_size

-- The decimal columns hold no negative number and no null; `tokenAddr` is `tokenId`.
pub record TransactionInfo : Type 0 where
  pub tx_id : ℕ
  pub req_type : ℕ
  pub account_id : ℕ
  pub token_id : ℕ
  pub accumulated_sell_amt : ℕ
  pub accumulated_buy_amt : ℕ
  pub amount : ℕ
  pub nonce : ℕ
  pub eddsa_r8 : List ℕ
  pub eddsa_s : ℕ
  pub arg0 : ℕ
  pub arg1 : ℕ
  pub arg2 : ℕ
  pub arg3 : ℕ
  pub arg4 : ℕ

-- The second argument of `encodeRChunkBuffer`.
pub record Metadata : Type 0 where
  pub tx_offset : ℤ
  pub maker_buy_amt : ℕ
