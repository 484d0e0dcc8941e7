-- ===== src/Sequencer/Matching.antt =====
-- The handlers of a matched order: `doSecondLimitStart`, `doSecondLimitExchange` and
-- `doSecondLimitEnd` of backend/ts-sequencer/src/infrastructure/sequencer.processor.ts.
use zk_obs.Common.{ℕ, ◌+◌, Bool, none, some, List, [], ◌∷◌, replicate, ◌++◌, ◌==◌, if◌then◌else◌}
use zk_obs.Common.Int.{ℤ, pos, negate, ◌-ℤ◌}
use zk_obs.Common.Action.{
  Action, account_not_found, order_not_found, ◌>>=◌, ◌>>◌, gets, modify, or_throw, throw_if,
}
use zk_obs.Transaction.{TransactionInfo}
use zk_obs.Transaction.TsTxType
use zk_obs.Trees.{ObsOrderLeaf}
use zk_obs.Trees.Order
use zk_obs.Trees.Order.{convert_to_obs_order_dto}
use zk_obs.Sequencer.{Sequencer, TxLog, Env, on_trees, read_trees, detached, latest_tx_id}
use zk_obs.Sequencer.Accounts.{get_account, update_account_token}
use zk_obs.Sequencer.Updates.{
  token_before_update, token_after_update, account_before_update, account_after_update,
  account_and_token_before_update, account_and_token_after_update, order_before_update,
  order_after_update,
}
use zk_obs.Sequencer.Orders.{remove_obs_order, update_obs_order, key_of, log_request}

-- `reqData` of the three requests.
abbrev pub match_data : ℕ → TransactionInfo → List ℕ
match_data req_type req = req_type ∷ replicate 8 0 ++ req.arg4 ∷ []

-- The two sums of an order, increased by what a request matched.
unfoldable pub accumulate : TransactionInfo → ObsOrderLeaf → ObsOrderLeaf
accumulate req order = record order {
  accumulated_sell_amt = order.accumulated_sell_amt + req.accumulated_sell_amt;
  accumulated_buy_amt = order.accumulated_buy_amt + req.accumulated_buy_amt;
}

-- `isAllSellAmtMatched`
abbrev pub is_all_sell_amt_matched : ObsOrderLeaf → Bool
is_all_sell_amt_matched order = order.accumulated_sell_amt == order.sell_amt

-- `txOffset`: the next position less the order's transaction.
abbrev tx_offset_of : ObsOrderLeaf → Sequencer → ℤ
tx_offset_of order s = pos (latest_tx_id s) -ℤ pos order.tx_id

module _ (env : Env) where
  -- `doSecondLimitStart`
  unfoldable pub do_second_limit_start : TransactionInfo → Action Sequencer TxLog
  unfolding get_account account_and_token_before_update account_and_token_after_update
      order_before_update order_after_update remove_obs_order log_request latest_tx_id ◌-ℤ◌
      Order.get_leaf
  do_second_limit_start req = do
    let order_leaf_id = req.arg4
    order ← or_throw (← read_trees (Order.get_leaf order_leaf_id)) order_not_found
    throw_if (order.sender == 0) order_not_found
    modify (λ s. record s { current_hold_taker_order = some order })
    _ ← or_throw (← read_trees (get_account env.config order.sender)) account_not_found
    account_and_token_before_update env order.sender order.sell_token_id
    account_and_token_after_update env order.sender order.sell_token_id
    account_and_token_before_update env order.sender order.sell_token_id
    account_and_token_after_update env order.sender order.sell_token_id
    order_before_update env order_leaf_id
    remove_obs_order env order_leaf_id
    order_after_update env order_leaf_id
    offset ← gets (tx_offset_of order)
    log_request env req (some (record { tx_offset = offset; maker_buy_amt = 0 }))
        (key_of env req.account_id) (match_data TsTxType.second_limit_start req) (replicate 2 0) 0

  -- The part that `doSecondLimitExchange` and `doSecondLimitEnd` share word for word: the sender
  -- gets what it bought, and what it sold leaves its locked amount.
  unfoldable pub settle_match : TransactionInfo → ObsOrderLeaf → Action Sequencer (Unit {0})
  unfolding negate update_account_token token_before_update token_after_update account_before_update
      account_after_update
  settle_match req order = do
    account_before_update env order.sender
    token_before_update env order.sender order.buy_token_id
    on_trees (
        update_account_token env.config order.sender order.buy_token_id
          (pos req.accumulated_buy_amt) (pos 0))
    token_after_update env order.sender order.buy_token_id
    token_before_update env order.sender order.sell_token_id
    on_trees (
        update_account_token env.config order.sender order.sell_token_id (pos 0)
          (negate (pos req.accumulated_sell_amt)))
    token_after_update env order.sender order.sell_token_id
    account_after_update env order.sender
    account_before_update env order.sender
    account_after_update env order.sender

  -- `doSecondLimitExchange`
  unfoldable pub do_second_limit_exchange : TransactionInfo → Action Sequencer TxLog
  unfolding get_account settle_match accumulate convert_to_obs_order_dto order_before_update
      order_after_update remove_obs_order update_obs_order log_request latest_tx_id ◌-ℤ◌
      Order.get_leaf
  do_second_limit_exchange req = do
    let order_leaf_id = req.arg4
    order ← or_throw (← read_trees (Order.get_leaf order_leaf_id)) order_not_found
    throw_if (order.sender == 0) order_not_found
    _ ← or_throw (← read_trees (get_account env.config order.sender)) account_not_found
    settle_match req order
    order_before_update env order_leaf_id
    let maker_order = accumulate req order
    (if is_all_sell_amt_matched maker_order
        then remove_obs_order env order_leaf_id
        else update_obs_order env (convert_to_obs_order_dto maker_order))
    order_after_update env order_leaf_id
    offset ← gets (tx_offset_of order)
    log_request env req (some (record { tx_offset = offset; maker_buy_amt = order.buy_amt }))
        (key_of env order.sender) (match_data TsTxType.second_limit_exchange req) (replicate 2 0) 0

  -- `doSecondLimitEnd`: the removal or the update of the order is not awaited, and the order that
  -- is held keeps the sums even when a later call throws.
  unfoldable pub do_second_limit_end : TransactionInfo → Action Sequencer TxLog
  unfolding get_account settle_match accumulate convert_to_obs_order_dto order_before_update
      order_after_update remove_obs_order update_obs_order log_request latest_tx_id ◌-ℤ◌
  do_second_limit_end req = do
    let order_leaf_id = req.arg4
    order ← or_throw (← gets (λ s. s.current_hold_taker_order)) order_not_found
    throw_if (order.sender == 0) order_not_found
    _ ← or_throw (← read_trees (get_account env.config order.sender)) account_not_found
    settle_match req order
    order_before_update env order_leaf_id
    let taker_order = accumulate req order
    modify (λ s. record s { current_hold_taker_order = some taker_order })
    detached env
        (if is_all_sell_amt_matched taker_order
          then remove_obs_order env order_leaf_id
          else update_obs_order env (convert_to_obs_order_dto taker_order))
        (order_after_update env order_leaf_id)
    offset ← gets (tx_offset_of order)
    log_request env req (some (record { tx_offset = offset; maker_buy_amt = 0 }))
        (do modify (λ s. record s { current_hold_taker_order = none }); key_of env order.sender)
        (match_data TsTxType.second_limit_end req) (replicate 2 0) 0
