-- ===== src/Sequencer/Rollup.antt =====
-- Blocks, and the requests that fill them: `startRollup`, `endRollup`, `doTransaction` and
-- `process` of backend/ts-sequencer/src/infrastructure/sequencer.processor.ts.
use zk_obs.Common.{
  ℕ, zero, suc, ◌+◌, ◌-◌, Bool, true, false, Option, none, some, [], ◌∷◌, map, replicate, length,
  not, leb, ◌==◌, ◌&&◌, ◌++◌, if◌then◌else◌,
}
use zk_obs.Common.Int.{pos}
use zk_obs.Common.Action.{
  Action, ok, err, not_new_block, rollup_running, unknown_req_type, type_error, not_found,
  out_of_fuel, ◌>>=◌, ◌>>◌, pure, throw, gets, modify, or_throw, throw_if,
}
use zk_obs.Transaction.{TransactionInfo}
use zk_obs.Transaction.TsTxType
use zk_obs.Merkle.{put}
use zk_obs.Trees.Account
use zk_obs.Trees.Order
use zk_obs.Sequencer
use zk_obs.Sequencer.{
  Sequencer, Env, RollupStatus, RootItem, root_object, root_hash, running, idle, BlockInformation,
  BlockState, CircuitInputs, TxLog, on_trees, settle, latest_tx_id, prepare_tx_account_payload,
  prepare_tx_order_payload,
}
use zk_obs.Sequencer.Handlers.{do_register, do_deposit, do_withdraw, do_second_limit_order, do_noop}
use zk_obs.Sequencer.Matching.{do_second_limit_start, do_second_limit_exchange, do_second_limit_end}

-- `txNormalPerBatch`: `numOfReqs` of the configuration.
abbrev pub tx_normal_per_batch : ℕ
tx_normal_per_batch = 10

-- `TxNoop`
unfoldable pub tx_noop : TransactionInfo
tx_noop = record {
  tx_id = 0;
  req_type = TsTxType.unknown;
  account_id = 0;
  token_id = 0;
  accumulated_sell_amt = 0;
  accumulated_buy_amt = 0;
  amount = 0;
  nonce = 0;
  eddsa_r8 = replicate 2 0;
  eddsa_s = 0;
  arg0 = 0;
  arg1 = 0;
  arg2 = 0;
  arg3 = 0;
  arg4 = 0;
}

abbrev pub is_running : RollupStatus → Bool
is_running running = true
is_running _ = false

-- A root as `recursiveToString` gives it.
abbrev root_text : RootItem → Option ℕ
root_text (root_object _) = none
root_text (root_hash h) = some h

-- `flushBlock`; nothing is ever put into `blockLogs`.
unfoldable pub flush_block : ℕ → Sequencer → Sequencer
unfolding prepare_tx_account_payload prepare_tx_order_payload
flush_block block_number s = record s {
  block_number = block_number;
  current_account_root_flow = [];
  current_order_root_flow = [];
  current_tx_logs = [];
  current_account_payload = prepare_tx_account_payload;
  current_order_payload = prepare_tx_order_payload;
}

-- `txsToRollupCircuitInput(currentTxLogs)`, with the payload of the first log, which is the block's
-- own; of no logs it has no payload to take.
unfoldable pub circuit_inputs : Sequencer → CircuitInputs
circuit_inputs s = record {
  logs = s.current_tx_logs;
  r_account_root_flow = map (map root_text) s.current_account_payload.r_account_root_flow;
  account_payload = s.current_account_payload;
  order_payload = s.current_order_payload;
  ori_tx_num = s.ori_tx_id;
  account_root_flow = s.current_account_root_flow;
  order_root_flow = s.current_order_root_flow;
}

module _ (env : Env) where
  -- `addAccountRootFlow`
  unfoldable pub add_account_root_flow : Action Sequencer (Unit {0})
  unfolding Account.get_root
  add_account_root_flow = do
    root ← on_trees (Account.get_root env.config)
    modify (λ s. record s { current_account_root_flow = s.current_account_root_flow ++ root ∷ [] })

  -- `addOrderRootFlow`
  unfoldable pub add_order_root_flow : Action Sequencer (Unit {0})
  unfolding Order.get_root
  add_order_root_flow = do
    root ← on_trees (Order.get_root env.config)
    modify (λ s. record s { current_order_root_flow = s.current_order_root_flow ++ root ∷ [] })

  -- `addFirstRootFlow`
  unfoldable pub add_first_root_flow : Action Sequencer (Unit {0})
  unfolding add_account_root_flow add_order_root_flow
  add_first_root_flow = do
    is_new ←
        gets (λ s. length s.current_account_root_flow == 0 && length s.current_order_root_flow == 0)
    throw_if (not is_new) not_new_block
    add_account_root_flow
    add_order_root_flow

  -- `startRollup`: the first roots are not awaited, but their reads are queued before those of the
  -- request, so before its updates.
  unfoldable pub start_rollup : Action Sequencer ℕ
  unfolding add_first_root_flow
  start_rollup = do
    status ← gets (λ s. s.rollup_status)
    throw_if (is_running status) rollup_running
    modify (λ s. record s { rollup_status = running })
    modify (λ s. record s {
      last_block = s.last_block + 1;
      blocks = put s.blocks (s.last_block + 1) (record {
        block_status = Sequencer.processing;
        raw_data = none;
        state = none;
        proof = none;
      });
      new_block_number = s.last_block + 1;
    })
    modify (settle add_first_root_flow)
    gets (λ s. s.new_block_number)

  -- `stateRoot`
  unfoldable pub state_root : Action Sequencer ℕ
  unfolding Account.get_root Order.get_root
  state_root = do
    account_tree_root ← on_trees (Account.get_root env.config)
    order_tree_root ← on_trees (Order.get_root env.config)
    ori_tx_num ← gets (λ s. s.ori_tx_id)
    let ori_ts_root = env.config.poseidon (pos order_tree_root ∷ pos ori_tx_num ∷ [])
    pure (env.config.poseidon (pos ori_ts_root ∷ pos account_tree_root ∷ []))

  -- The loop of `endRollup` that fills a block up.
  unfoldable pub fill_block : Action Sequencer TxLog → ℕ → Action Sequencer (Unit {0})
  fill_block noop zero s = (ok tt, s)
  fill_block noop (suc n) s = (noop >> fill_block noop n) s

  -- The part of `endRollup` behind its loop.
  unfoldable pub close_block : ℕ → BlockInformation → Action Sequencer CircuitInputs
  unfolding circuit_inputs flush_block latest_tx_id state_root Account.get_root Order.get_root
  close_block current_block_number current_block = do
    modify (λ s. record s { rollup_status = idle })
    log_num ← gets (λ s. length s.current_tx_logs)
    throw_if (log_num == 0) type_error
    inputs ← gets circuit_inputs
    modify (λ s. record s { ori_tx_id = latest_tx_id s })
    modify (flush_block current_block_number)
    root ← state_root
    order_tree_root ← on_trees (Order.get_root env.config)
    ori_tx_num ← gets (λ s. s.ori_tx_id)
    account_root ← on_trees (Account.get_root env.config)
    order_root ← on_trees (Order.get_root env.config)
    let block_state : BlockState = record {
      state_root = root;
      ts_root = env.config.poseidon (pos order_tree_root ∷ pos ori_tx_num ∷ []);
      order_root = order_root;
      account_root = account_root;
      public_data = none;
      public_data_offsets = none;
      commitment = none;
    }
    modify (λ s. record s {
      blocks = put s.blocks current_block_number (record current_block {
        block_status = Sequencer.l2_executed;
        raw_data = some inputs;
        state = some block_state;
      });
    })
    pure inputs

  -- `endRollup`, where `noop` is `doTransaction(TxNoop)`. The transaction of the block's row has
  -- only the `save` at the end to undo.
  unfoldable pub end_rollup : Action Sequencer TxLog → Action Sequencer CircuitInputs
  unfolding fill_block close_block
  end_rollup noop = do
    current_block_number ← gets (λ s. s.new_block_number)
    current_block ← or_throw (← gets (λ s. s.blocks current_block_number)) not_found
    tx_num ← gets (λ s. length s.current_tx_logs)
    fill_block noop (tx_normal_per_batch - tx_num)
    close_block current_block_number current_block

  -- The switch of `doTransaction`, which has no case for CancelOrder.
  unfoldable pub dispatch : TransactionInfo → Action Sequencer TxLog
  unfolding do_register do_deposit do_withdraw do_second_limit_order do_second_limit_start
      do_second_limit_exchange do_second_limit_end do_noop
  dispatch req =
      if req.req_type == TsTxType.register
      then do_register env req
      else if req.req_type == TsTxType.deposit
      then do_deposit env req
      else if req.req_type == TsTxType.withdraw
      then do_withdraw env req
      else if req.req_type == TsTxType.second_limit_order
      then do_second_limit_order env req
      else if req.req_type == TsTxType.second_limit_start
      then do_second_limit_start env req
      else if req.req_type == TsTxType.second_limit_exchange
      then do_second_limit_exchange env req
      else if req.req_type == TsTxType.second_limit_end
      then do_second_limit_end env req
      else if req.req_type == TsTxType.noop
      then do_noop env
      else throw unknown_req_type

  -- `if (this.rollupStatus !== RollupStatus.Running) await this.startRollup()`
  unfoldable pub ensure_rollup : Action Sequencer (Unit {0})
  unfolding start_rollup
  ensure_rollup = do
    status ← gets (λ s. s.rollup_status)
    (if is_running status then pure tt else start_rollup >> pure tt)

  -- `doTransaction`, on fuel for the calls that `endRollup` makes of it.
  unfoldable pub do_transaction : ℕ → TransactionInfo → Action Sequencer TxLog
  unfolding ensure_rollup dispatch add_account_root_flow add_order_root_flow end_rollup tx_noop
  do_transaction zero req s = (err out_of_fuel, s)
  do_transaction (suc fuel) req s =
      let noop : Action Sequencer TxLog = do_transaction fuel tx_noop in
      (do
        ensure_rollup
        inputs ← dispatch req
        add_account_root_flow
        add_order_root_flow
        log_num ← gets (λ s. length s.current_tx_logs)
        -- `remains < 3`
        (if leb (tx_normal_per_batch + 1) (log_num + 3)
            then end_rollup noop >> pure inputs
            else pure inputs))
        s

  -- `process` of a row that is there: the status PROCESSING is saved without an `await`, and queued
  -- before the writes that follow.
  unfoldable pub process_row : ℕ → TransactionInfo → Action Sequencer Bool
  unfolding do_transaction
  process_row fuel req = do
    modify (λ s. record s {
      tx_status = λ i. if i == req.tx_id then Sequencer.processing else s.tx_status i;
    })
    _ ← do_transaction fuel req
    modify (λ s. record s {
      tx_status = λ i. if i == req.tx_id then Sequencer.l2_executed else s.tx_status i;
    })
    pure true

  -- `process`
  unfoldable pub process : ℕ → ℕ → Action Sequencer Bool
  unfolding process_row
  process fuel tx_id s = elim (s.tx_rows tx_id) [
    | none ↦ (ok false, s)
    | some req ↦ process_row fuel req s
  ]
