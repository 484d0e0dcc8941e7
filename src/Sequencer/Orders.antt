-- ===== src/Sequencer/Orders.antt =====
-- Orders in the sequencer, and what the handlers of requests share: `addObsOrder`,
-- `removeObsOrder`, `updateObsOrder` and `getTsPubKey` of
-- backend/ts-sequencer/src/infrastructure/sequencer.processor.ts.
use zk_obs.Common.{ℕ, Option, none, some, List, [], ◌∷◌, ◌==◌}
use zk_obs.Common.Action.{
  Action, order_not_found, not_found, ◌>>=◌, ◌>>◌, pure, gets, modify, or_throw, throw_if,
  of_result,
}
use zk_obs.Transaction.{TransactionInfo, Metadata}
use zk_obs.Transaction.TsTxType
use zk_obs.TxCodec.{get_tx_chunks}
use zk_obs.Merkle.{put}
use zk_obs.Trees.Order
use zk_obs.Trees.Order.{UpdateObsOrderTreeDto, add_current_order_id}
use zk_obs.Sequencer.{Sequencer, TxLog, Env, on_trees, read_trees, detached, add_tx_logs}

-- The value that `removeObsOrder` writes.
unfoldable pub empty_order : ℕ → UpdateObsOrderTreeDto
empty_order order_leaf_id = record {
  order_leaf_id = order_leaf_id;
  tx_id = 0;
  req_type = 0;
  sender = 0;
  sell_token_id = 0;
  nonce = 0;
  sell_amt = 0;
  buy_token_id = 0;
  buy_amt = 0;
  accumulated_sell_amt = 0;
  accumulated_buy_amt = 0;
}

-- `obsOrderRepository.update({ txId }, { orderLeafId })`: of no row it updates none.
unfoldable pub update_order_row : ℕ → ℕ → Sequencer → Sequencer
update_order_row tx_id order_leaf_id s = elim (s.order_row_leaf_id tx_id) [
  | none ↦ s
  | some _ ↦ record s { order_row_leaf_id = put s.order_row_leaf_id tx_id (some order_leaf_id) }
]

module _ (env : Env) where
  -- `addObsOrder`, followed by the rest of its caller up to the last read of the tree: the update
  -- of the leaf is not awaited, and the counter moves at once.
  unfoldable pub add_obs_order :
      UpdateObsOrderTreeDto → Action Sequencer (Unit {0}) → Action Sequencer (Unit {0})
  unfolding update_order_row add_current_order_id Order.update_leaf
  add_obs_order order rest = do
    modify (update_order_row order.tx_id order.order_leaf_id)
    detached env (on_trees (Order.update_leaf env.config order.order_leaf_id order))
        do on_trees (modify add_current_order_id); rest

  -- `removeObsOrder`
  unfoldable pub remove_obs_order : ℕ → Action Sequencer (Unit {0})
  unfolding Order.get_leaf Order.update_leaf empty_order
  remove_obs_order leaf_id = do
    order ← or_throw (← read_trees (Order.get_leaf leaf_id)) order_not_found
    throw_if (order.req_type == TsTxType.unknown) order_not_found
    on_trees (Order.update_leaf env.config order.order_leaf_id (empty_order order.order_leaf_id))

  -- `updateObsOrder`
  unfoldable pub update_obs_order : UpdateObsOrderTreeDto → Action Sequencer (Unit {0})
  unfolding Order.update_leaf
  update_obs_order order = on_trees (Order.update_leaf env.config order.order_leaf_id order)

  -- `getTsPubKey`
  unfoldable pub get_ts_pub_key : ℕ → Action Sequencer (List ℕ)
  get_ts_pub_key account = do
    info ← or_throw (← gets (λ s. s.account_info account)) not_found
    pure (info.ts_pub_key_x ∷ info.ts_pub_key_y ∷ [])

  -- The argument `tsPubKey` of a log, read by `getTsPubKey`.
  abbrev pub key_of : ℕ → Action Sequencer (Option (List ℕ))
  key_of account = do key ← get_ts_pub_key account; pure (some key)

  -- The end of every handler: the chunks of the request, the key, and the block's next log.
  unfoldable pub log_request :
      TransactionInfo
      → Option Metadata
      → Action Sequencer (Option (List ℕ))
      → List ℕ
      → List ℕ
      → ℕ
      → Action Sequencer TxLog
  unfolding get_tx_chunks add_tx_logs
  log_request req metadata read_key req_data sig_r sig_s = do
    chunks ← of_result (get_tx_chunks env.solidity_pack req metadata)
    ts_pub_key ← read_key
    let tx : TxLog = record {
      req_data = req_data;
      ts_pub_key = ts_pub_key;
      sig_r = sig_r;
      sig_s = sig_s;
      r_chunks = chunks.r_chunks_bigint;
      o_chunks = chunks.o_chunks_bigint;
      is_critical_chunk = chunks.is_critical_chunk;
    }
    modify (add_tx_logs tx)
    pure tx
