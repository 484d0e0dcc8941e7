-- ===== src/Sequencer/Handlers.antt =====
-- The handlers of the requests that touch one account: `doRegister`, `doDeposit`, `doWithdraw`,
-- `doSecondLimitOrder`, `doCancelOrder` and `doNoop` of
-- backend/ts-sequencer/src/infrastructure/sequencer.processor.ts.
use zk_obs.Common.{ℕ, ◌+◌, none, some, List, [], ◌∷◌, replicate, not, ◌==◌}
use zk_obs.Common.Int.{pos, negate, ◌-ℤ◌}
use zk_obs.Common.Action.{
  Action, account_not_found, account_not_match, order_not_found, not_found, ◌>>=◌, ◌>>◌, pure, gets,
  modify, or_throw, throw_if,
}
use zk_obs.Transaction.{TransactionInfo, max_chunks_per_req}
use zk_obs.Transaction.TsTxType
use zk_obs.Trees.Order
use zk_obs.Trees.Order.{UpdateObsOrderTreeDto}
use zk_obs.Sequencer.{Sequencer, TxLog, Env, on_trees, read_trees, add_tx_logs}
use zk_obs.Sequencer.Accounts.{get_account, add_account, update_account_token, update_account_nonce}
use zk_obs.Sequencer.Updates.{
  account_and_token_before_update, account_and_token_after_update, order_before_update,
  order_after_update,
}
use zk_obs.Sequencer.Orders.{add_obs_order, remove_obs_order, key_of, log_request}

-- `TsSystemAccountAddress.MINT_ADDR`
abbrev mint_addr : ℕ
mint_addr = 0

-- `encodeRollupWithdrawMessage`
unfoldable pub encode_rollup_withdraw_message : TransactionInfo → List ℕ
encode_rollup_withdraw_message req =
    TsTxType.withdraw ∷ req.account_id ∷ req.token_id ∷ req.amount ∷ req.nonce ∷ replicate 5 0

-- The order that `doSecondLimitOrder` adds.
unfoldable pub order_of_request : ℕ → TransactionInfo → UpdateObsOrderTreeDto
order_of_request order_leaf_id req = record {
  order_leaf_id = order_leaf_id;
  tx_id = req.tx_id;
  req_type = req.req_type;
  sender = req.account_id;
  sell_token_id = req.token_id;
  nonce = req.nonce;
  sell_amt = req.amount;
  buy_token_id = req.arg2;
  buy_amt = req.arg3;
  accumulated_sell_amt = 0;
  accumulated_buy_amt = 0;
}

module _ (env : Env) where
  abbrev before : ℕ → ℕ → Action Sequencer (Unit {0})
  before = account_and_token_before_update env

  abbrev after : ℕ → ℕ → Action Sequencer (Unit {0})
  after = account_and_token_after_update env

  -- `doRegister`
  unfoldable pub do_register : TransactionInfo → Action Sequencer TxLog
  unfolding add_account account_and_token_before_update account_and_token_after_update
      order_before_update order_after_update log_request
  do_register req = do
    let account = req.arg0
    info ← or_throw (← gets (λ s. s.account_info account)) not_found
    before account req.token_id
    on_trees (add_account env.config account info.hashed_ts_pub_key)
    after account req.token_id
    before account req.token_id
    after account req.token_id
    order_before_update env 0
    order_after_update env 0
    log_request env req none (pure (some (info.ts_pub_key_x ∷ info.ts_pub_key_y ∷ [])))
        (TsTxType.register
          ∷ mint_addr
          ∷ req.token_id
          ∷ req.amount
          ∷ 0
          ∷ account
          ∷ info.hashed_ts_pub_key
          ∷ replicate 3 0)
        (replicate 2 0) 0

  -- `doDeposit`: the log has no `tsPubKey`.
  unfoldable pub do_deposit : TransactionInfo → Action Sequencer TxLog
  unfolding get_account update_account_token account_and_token_before_update
      account_and_token_after_update order_before_update order_after_update log_request
  do_deposit req = do
    let account = req.arg0
    _ ← or_throw (← read_trees (get_account env.config account)) account_not_found
    before account req.token_id
    order_before_update env 0
    on_trees (update_account_token env.config account req.token_id (pos req.amount) (pos 0))
    after account req.token_id
    order_after_update env 0
    before account req.token_id
    after account req.token_id
    log_request env req none (pure none)
        (TsTxType.deposit
          ∷ mint_addr
          ∷ req.token_id
          ∷ req.amount
          ∷ req.nonce
          ∷ account
          ∷ replicate 4 0)
        (replicate 2 0) 0

  -- `doWithdraw`
  unfoldable pub do_withdraw : TransactionInfo → Action Sequencer TxLog
  unfolding get_account negate update_account_token update_account_nonce
      account_and_token_before_update account_and_token_after_update order_before_update
      order_after_update log_request encode_rollup_withdraw_message
  do_withdraw req = do
    let account = req.account_id
    from ← or_throw (← read_trees (get_account env.config account)) account_not_found
    before account req.token_id
    on_trees
        (update_account_token env.config account req.token_id (negate (pos req.amount)) (pos 0))
    on_trees (update_account_nonce env.config account (from.nonce + 1))
    after account req.token_id
    before account req.token_id
    after account req.token_id
    order_before_update env 0
    order_after_update env 0
    log_request env req none (key_of env account) (encode_rollup_withdraw_message req) req.eddsa_r8
        req.eddsa_s

  -- `doSecondLimitOrder`
  unfoldable pub do_second_limit_order : TransactionInfo → Action Sequencer TxLog
  unfolding get_account negate update_account_token update_account_nonce
      account_and_token_before_update account_and_token_after_update order_before_update
      order_after_update add_obs_order order_of_request log_request
  do_second_limit_order req = do
    let account = req.account_id
    from ← or_throw (← read_trees (get_account env.config account)) account_not_found
    before account req.token_id
    on_trees (
        update_account_token env.config account req.token_id (negate (pos req.amount))
          (pos req.amount))
    on_trees (update_account_nonce env.config account (from.nonce + 1))
    after account req.token_id
    before account req.token_id
    after account req.token_id
    order_leaf_id ← read_trees (λ t. t.current_order_id)
    order_before_update env order_leaf_id
    add_obs_order env (order_of_request order_leaf_id req) (order_after_update env order_leaf_id)
    log_request env req none (key_of env account)
        (TsTxType.second_limit_order ∷ account ∷ req.token_id ∷ req.amount ∷ req.nonce ∷ 0 ∷ 0
          ∷ req.arg2 ∷ req.arg3 ∷ 0 ∷ [])
        req.eddsa_r8 req.eddsa_s

  -- `doCancelOrder`
  unfoldable pub do_cancel_order : TransactionInfo → Action Sequencer TxLog
  unfolding get_account ◌-ℤ◌ negate update_account_token account_and_token_before_update
      account_and_token_after_update order_before_update order_after_update remove_obs_order
      log_request Order.get_leaf
  do_cancel_order req = do
    let order_leaf_id = req.arg4
    order ← or_throw (← read_trees (Order.get_leaf order_leaf_id)) order_not_found
    throw_if (order.sender == 0) order_not_found
    let account = order.sender
    _ ← or_throw (← read_trees (get_account env.config account)) account_not_found
    throw_if (not (req.arg0 == account)) account_not_match
    let token = order.sell_token_id
    let refund = pos order.sell_amt -ℤ pos order.accumulated_sell_amt
    before account token
    on_trees (update_account_token env.config account token refund (negate refund))
    after account token
    before account token
    after account token
    order_before_update env order.order_leaf_id
    remove_obs_order env order.order_leaf_id
    order_after_update env order.order_leaf_id
    log_request env req none (key_of env account)
        (TsTxType.cancel_order ∷ 0 ∷ 0 ∷ 0 ∷ 0 ∷ req.arg0 ∷ order_leaf_id ∷ 0 ∷ 0 ∷ 0 ∷ [])
        req.eddsa_r8 req.eddsa_s

  -- `doNoop`
  unfoldable pub do_noop : Action Sequencer TxLog
  unfolding account_and_token_before_update account_and_token_after_update order_before_update
      order_after_update add_tx_logs
  do_noop = do
    before 0 0
    after 0 0
    before 0 0
    after 0 0
    order_before_update env 0
    order_after_update env 0
    let tx : TxLog = record {
      req_data = replicate 10 0;
      ts_pub_key = some (replicate 2 0);
      sig_r = replicate 2 0;
      sig_s = 0;
      r_chunks = replicate max_chunks_per_req 0;
      o_chunks = TsTxType.unknown ∷ [];
      is_critical_chunk = TsTxType.unknown ∷ [];
    }
    modify (add_tx_logs tx)
    pure tx
