-- ===== src/Ledger/Requests/Taking.antt =====
-- `doSecondLimitStart`: a taker's order is taken out of the tree and held.
use zk_obs.Common.{◌^◌, ◌<◌, ◌≡◌, ◌≢◌, ap, some, ◌==◌, replicate, arith}
use zk_obs.Common.Int.{pos, ◌-ℤ◌}
use zk_obs.Common.Action.{Returns, ok}
use zk_obs.Transaction.{TransactionInfo}
use zk_obs.Transaction.TsTxType
use zk_obs.TxCodec.{TxChunks, get_tx_chunks}
use zk_obs.Trees.{ObsOrderLeaf}
use zk_obs.Trees.Order.{leaf_of_dto}
use zk_obs.Sequencer.{Sequencer, Env, AccountInformation, latest_tx_id}
use zk_obs.Sequencer.Orders.{empty_order}
use zk_obs.Sequencer.Matching.{do_second_limit_start, match_data}
use zk_obs.Ledger.{IsLow, ledger_of, emptied, set_order}
use zk_obs.Ledger.Points.{Point, To-bind, known-bind, point_of, At-point_of, rest_of}
use zk_obs.Ledger.Hooks.{
  both_more, order_more, account_and_token_before_update-Goes, account_and_token_after_update-Goes,
  order_before_update-Goes, order_after_update-Goes,
}
use zk_obs.Ledger.Hooks.Single.{account-bind}
use zk_obs.Ledger.Requests.{IsReady, Outcome, log_request-Outcome, key_of-Gives}
use zk_obs.Ledger.Requests.Orders.{order-bind, throw_if-Goes, remove_obs_order-Goes}
use zk_obs.Ledger.Requests.Cancel.{IsOpen}

abbrev pub holding : ObsOrderLeaf → Sequencer → Sequencer
holding order r = record r { current_hold_taker_order = some order }

module _ (env : Env) ⦃low : IsLow env.config⦄ where
  -- `doSecondLimitStart` of an open order, whose sender has an address, returns, within the bounds of
  -- the trees, with a key of the request's account and with the request's chunks packed. The order is
  -- held and its leaf is emptied, and nothing else changes but the payload and the log.
  -- The heights of the trees are up to 47.
  pub do_second_limit_start-Outcome :
      (req : TransactionInfo) (order : ObsOrderLeaf) (chunks : TxChunks) (info : AccountInformation)
      (s : Sequencer)
      → IsReady s
      → IsOpen env req.arg4 order (ledger_of s.trees)
      → ((ledger_of s.trees).identity order.sender).ts_addr ≢ 0
      → s.account_info req.account_id ≡ some info
      → order.sell_token_id < 2 ^ env.config.tokens_tree_height
      → get_tx_chunks env.solidity_pack req
          (some (record { tx_offset = pos (latest_tx_id s) -ℤ pos order.tx_id; maker_buy_amt = 0 }))
        ≡ ok chunks
      → Returns
          (do_second_limit_start env req)
          (Outcome
            (holding order (rest_of s))
            (set_order order.order_leaf_id (emptied order.order_leaf_id) (ledger_of s.trees)))
          s
  unfolding do_second_limit_start latest_tx_id leaf_of_dto empty_order
  do_second_limit_start-Outcome req order chunks info s ready (there, own, sender, live, lo) found
        key lk here =
      let a = order.sender in
      let k = order.sell_token_id in
      let id = req.arg4 in
      let l' = set_order order.order_leaf_id (emptied order.order_leaf_id) (ledger_of s.trees) in
      let p0 = point_of s in
      let p1 : Point = record p0 { rest = holding order p0.rest } in
      let p2 = both_more p1 in
      let p3 = both_more p2 in
      let p4 = order_more p3 in
      let p5 : Point = record p4 { ledger = l' } in
      let Q = Outcome p5.rest l' in
      let offset = pos (latest_tx_id s) -ℤ pos order.tx_id in
      order-bind env id order _ _ p0 Q there
        (To-bind _ _ p0 p0 Q (throw_if-Goes env (a == 0) _ p0 (ground arith)) λ _.
          To-bind _ _ p0 p1 Q (λ t at. (at.0, at.1, at.2, at.3, ap (holding order) at.4))
            λ _. account-bind env a _ _ p1 Q found λ _ _.
              To-bind _ _ p1 p2 Q (account_and_token_before_update-Goes env a k p1 lk) λ _.
                To-bind _ _ p2 p2 Q
                  (account_and_token_after_update-Goes env a k p2 lk (omega arith)
                    (omega (arith, ready)))
                  λ _. To-bind _ _ p2 p3 Q (account_and_token_before_update-Goes env a k p2 lk) λ _.
                    To-bind _ _ p3 p3 Q
                      (account_and_token_after_update-Goes env a k p3 lk (omega arith)
                        (omega (arith, ready)))
                      λ _. To-bind _ _ p3 p4 Q (order_before_update-Goes env id p3) λ _.
                        To-bind _ _ p4 p5 Q
                          (remove_obs_order-Goes env id order p4 there live
                            (omega (arith, own, lo)))
                          λ _.
                            To-bind _ _ p5 p5 Q (order_after_update-Goes env id p5 (omega arith))
                              λ _.
                                known-bind offset _ _ p5 Q
                                  (λ t at. (
                                    ap (λ (r : Sequencer). pos (latest_tx_id r) -ℤ pos order.tx_id)
                                        at.4,
                                    at,
                                  ))
                                  (log_request-Outcome env req
                                    (some (record { tx_offset = offset; maker_buy_amt = 0 })) _
                                    (match_data TsTxType.second_limit_start req) (replicate 2 0) 0
                                    chunks p5 (omega (arith, ready)) here
                                    (key_of-Gives env req.account_id info p5 key)))
        s (At-point_of s)
