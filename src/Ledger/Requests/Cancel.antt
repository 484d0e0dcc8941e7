-- ===== src/Ledger/Requests/Cancel.antt =====
-- `doCancelOrder`: what the cancellation of an order does to the ledger.
use zk_obs.Common.{ℕ, ◌^◌, ◌<◌, ◌≡◌, ◌≢◌, ap, ◌∙◌, none, some, not, ◌==◌, arith}
use zk_obs.Common.Int.{pos, negate, ◌-ℤ◌}
use zk_obs.Common.Action.{Returns, ok}
use zk_obs.Transaction.{TransactionInfo}
use zk_obs.TxCodec.{TxChunks, get_tx_chunks}
use zk_obs.Trees.{ObsOrderLeaf}
use zk_obs.Trees.Order.{leaf_of_dto}
use zk_obs.Sequencer.{Sequencer, Env, AccountInformation}
use zk_obs.Sequencer.Orders.{empty_order}
use zk_obs.Sequencer.Handlers.{do_cancel_order}
use zk_obs.Ledger.{IsLow, Ledger, ledger_of, move, set_order, emptied}
use zk_obs.Ledger.Points.{Point, To-bind, point_of, At-point_of, rest_of}
use zk_obs.Ledger.Hooks.{
  both_more, order_more, account_and_token_before_update-Goes, account_and_token_after_update-Goes,
  order_before_update-Goes, order_after_update-Goes,
}
use zk_obs.Ledger.Hooks.Single.{account-bind}
use zk_obs.Ledger.Requests.{IsReady, Outcome, log_request-Outcome, key_of-Gives}
use zk_obs.Ledger.Requests.Single.{move-Goes}
use zk_obs.Ledger.Requests.Orders.{order-bind, throw_if-Goes, remove_obs_order-Goes}

-- An order stands at its own leaf, is not empty, and its leaf is in the tree.
abbrev pub IsOpen : Env → ℕ → ObsOrderLeaf → Ledger → Type 0
IsOpen env id order l =
    (l.orders id ≡ some order)
    × (order.order_leaf_id ≡ id)
    × (order.sender ≢ 0)
    × (order.req_type ≢ 0)
    × (id < 2 ^ env.config.order_tree_height)

-- What an order has not sold yet goes back.
abbrev pub cancelled : ObsOrderLeaf → Ledger → Ledger
cancelled order l =
    let refund = pos order.sell_amt -ℤ pos order.accumulated_sell_amt in
    set_order order.order_leaf_id (emptied order.order_leaf_id)
      (move order.sender order.sell_token_id refund (negate refund) l)

module _ (env : Env) ⦃low : IsLow env.config⦄ where
  -- `doCancelOrder` of an open order, asked for by its sender, who has an address and a key, returns,
  -- within the bounds of the trees and with the request's chunks packed. What the order has not sold
  -- goes back from the sender's locked to its available amount, the order's leaf is emptied, and
  -- nothing else changes but the payload and the log.
  -- The heights of the trees are up to 47.
  pub do_cancel_order-Outcome :
      (req : TransactionInfo) (order : ObsOrderLeaf) (chunks : TxChunks) (info : AccountInformation)
      (s : Sequencer)
      → IsReady s
      → IsOpen env req.arg4 order (ledger_of s.trees)
      → req.arg0 ≡ order.sender
      → ((ledger_of s.trees).identity order.sender).ts_addr ≢ 0
      → s.account_info order.sender ≡ some info
      → order.sender < 2 ^ env.config.accounts_tree_height
      → order.sell_token_id < 2 ^ env.config.tokens_tree_height
      → get_tx_chunks env.solidity_pack req none ≡ ok chunks
      → Returns
          (do_cancel_order env req)
          (Outcome (rest_of s) (cancelled order (ledger_of s.trees)))
          s
  unfolding do_cancel_order leaf_of_dto empty_order
  do_cancel_order-Outcome req order chunks info s ready (there, own, sender, live, lo) mine found
        key la lk here =
      let a = order.sender in
      let k = order.sell_token_id in
      let id = order.order_leaf_id in
      let refund = pos order.sell_amt -ℤ pos order.accumulated_sell_amt in
      let Q = Outcome (rest_of s) (cancelled order (ledger_of s.trees)) in
      let p0 = point_of s in
      let p1 = both_more p0 in
      let p2 : Point = record p1 { ledger = move a k refund (negate refund) p1.ledger } in
      let p3 = both_more p2 in
      let p4 = order_more p3 in
      let p5 : Point = record p4 { ledger = cancelled order (ledger_of s.trees) } in
      order-bind env req.arg4 order _ _ p0 Q there
        (To-bind _ _ p0 p0 Q (throw_if-Goes env (a == 0) _ p0 (ground arith)) λ _.
          account-bind env a _ _ p0 Q found λ _ _.
            To-bind _ _ p0 p0 Q (throw_if-Goes env (not (req.arg0 == a)) _ p0 (ground arith)) λ _.
              To-bind _ _ p0 p1 Q (account_and_token_before_update-Goes env a k p0 lk) λ _.
                To-bind _ _ p1 p2 Q (move-Goes env a k refund (negate refund) p1 la lk) λ _.
                  To-bind _ _ p2 p2 Q
                    (account_and_token_after_update-Goes env a k p2 lk (omega arith)
                      (omega (arith, ready)))
                    λ _.
                      To-bind _ _ p2 p3 Q (account_and_token_before_update-Goes env a k p2 lk) λ _.
                        To-bind _ _ p3 p3 Q
                          (account_and_token_after_update-Goes env a k p3 lk (omega arith)
                            (omega (arith, ready)))
                          λ _. To-bind _ _ p3 p4 Q (order_before_update-Goes env id p3) λ _.
                            To-bind _ _ p4 p5 Q
                              (remove_obs_order-Goes env id order p4
                                (ap (λ (i : ℕ). (ledger_of s.trees).orders i) own ∙ there) live
                                (omega (arith, own, lo)))
                              λ _.
                                To-bind _ _ p5 p5 Q
                                  (order_after_update-Goes env id p5 (omega arith))
                                  λ _.
                                    log_request-Outcome env req none _ _ _ _ chunks p5
                                      (omega (arith, ready)) here (key_of-Gives env a info p5 key))
        s (At-point_of s)
