-- ===== src/Ledger/Requests/Placement.antt =====
-- `doSecondLimitOrder`: what the placement of an order does to the ledger.
use zk_obs.Common.{ℕ, ◌+◌, ◌^◌, ◌<◌, ◌≡◌, ◌≢◌, ap, ◌∙◌, none, some, arith}
use zk_obs.Common.Int.{pos, negate}
use zk_obs.Trees.Order
use zk_obs.Common.Action.{Action, Returns, ok, modify}
use zk_obs.Transaction.{TransactionInfo}
use zk_obs.TxCodec.{TxChunks, get_tx_chunks}
use zk_obs.Trees.{ObsOrderLeaf}
use zk_obs.Trees.Order.{UpdateObsOrderTreeDto, leaf_of_dto, add_current_order_id}
use zk_obs.Sequencer.{Sequencer, Env, AccountInformation, on_trees}
use zk_obs.Sequencer.Orders.{add_obs_order, update_order_row}
use zk_obs.Sequencer.Updates.{order_after_update}
use zk_obs.Sequencer.Handlers.{do_second_limit_order, order_of_request}
use zk_obs.Ledger.{IsLow, Ledger, ledger_of, move, set_nonce, set_order}
use zk_obs.Ledger.Points.{Point, At, Goes, To-bind, known-bind, point_of, At-point_of, rest_of}
use zk_obs.Ledger.Hooks.{
  both_more, order_more, account_and_token_before_update-Goes, account_and_token_after_update-Goes,
  order_before_update-Goes, order_after_update-Goes,
}
use zk_obs.Ledger.Hooks.Single.{account-bind}
use zk_obs.Ledger.Requests.{IsReady, Outcome, log_request-Outcome, key_of-Gives}
use zk_obs.Ledger.Requests.Single.{move-Goes, nonce-Goes}
use zk_obs.Ledger.Requests.Orders.{settle-Settles, detached-Goes, update_order_row-Goes, order-Goes}

-- The order that a request places at a leaf.
abbrev pub placed : ℕ → TransactionInfo → ObsOrderLeaf
placed order_leaf_id req = record {
  order_leaf_id = order_leaf_id;
  tx_id = req.tx_id;
  req_type = req.req_type;
  sender = req.account_id;
  sell_token_id = req.token_id;
  sell_amt = req.amount;
  nonce = req.nonce;
  buy_token_id = req.arg2;
  buy_amt = req.arg3;
  accumulated_sell_amt = 0;
  accumulated_buy_amt = 0;
}

-- An order is written at the counter, which moves on.
abbrev pub place : ObsOrderLeaf → Ledger → Ledger
place o l = record (set_order o.order_leaf_id o l) { next_order_id = l.next_order_id + 1 }

row-account_info :
    (tx_id id account : ℕ) (s : Sequencer)
    → (update_order_row tx_id id s).account_info account ≡ s.account_info account
unfolding update_order_row
row-account_info tx_id id account s = ground arith

module _ (env : Env) ⦃low : IsLow env.config⦄ where
  count_order-Goes :
      (p : Point)
      → Goes
          (on_trees (modify add_current_order_id))
          p
          (record p { ledger = record p.ledger { next_order_id = p.ledger.next_order_id + 1 } })
  unfolding add_current_order_id ledger_of
  count_order-Goes p s at = (
    ap (λ (l : Ledger). record l { next_order_id = l.next_order_id + 1 }) at.0,
    at.1,
    at.2,
    at.3,
    at.4,
  )

  add_obs_order-Goes :
      (v : UpdateObsOrderTreeDto) (p : Point)
      → v.order_leaf_id < 2 ^ env.config.order_tree_height
      → 0 < p.order_flows
      → Goes (add_obs_order env v (order_after_update env v.order_leaf_id)) p (record p {
        ledger = place (leaf_of_dto v) p.ledger;
        rest = update_order_row v.tx_id v.order_leaf_id p.rest;
      })
  unfolding add_obs_order leaf_of_dto
  add_obs_order-Goes v p lt some_flow =
      let id = v.order_leaf_id in
      let write : Action Sequencer (Unit {0}) = on_trees (Order.update_leaf env.config id v) in
      let p1 : Point = record p { rest = update_order_row v.tx_id id p.rest } in
      let written : Point = record p1 { ledger = set_order id (leaf_of_dto v) p.ledger } in
      let counted : Point = record p1 {
        ledger = record p.ledger { next_order_id = p.ledger.next_order_id + 1 };
      } in
      let q : Point = record p1 { ledger = place (leaf_of_dto v) p.ledger } in
      To-bind _ _ p p1 (λ _ s. At q s) (update_order_row-Goes env v.tx_id id p)
        λ _.
          detached-Goes env write _ p1 written counted q
            (settle-Settles write p1 written (order-Goes env id v p1 lt))
            (To-bind _ _ written q (λ _ s. At q s) (count_order-Goes written)
              λ _. order_after_update-Goes env id q some_flow)
            (To-bind _ _ p1 counted (λ _ s. At counted s) (count_order-Goes p1)
              λ _. order_after_update-Goes env id counted some_flow)
            (settle-Settles write counted q (order-Goes env id v counted lt))

  -- `doSecondLimitOrder` of an account that has an address and a key returns, within the bounds of
  -- the trees and with the request's chunks packed, whether the write of the order settles before
  -- the reads that follow it or after them. It moves the amount from the account's available to its
  -- locked amount, gives the account its next nonce, writes the order at the counter and moves the
  -- counter on; of the rest it changes only the order's row, the payload and the log.
  -- The heights of the trees are up to 47.
  pub do_second_limit_order-Outcome :
      (req : TransactionInfo) (chunks : TxChunks) (info : AccountInformation) (s : Sequencer)
      → IsReady s
      → ((ledger_of s.trees).identity req.account_id).ts_addr ≢ 0
      → s.account_info req.account_id ≡ some info
      → req.account_id < 2 ^ env.config.accounts_tree_height
      → req.token_id < 2 ^ env.config.tokens_tree_height
      → (ledger_of s.trees).next_order_id < 2 ^ env.config.order_tree_height
      → get_tx_chunks env.solidity_pack req none ≡ ok chunks
      → Returns
          (do_second_limit_order env req)
          (Outcome (update_order_row req.tx_id (ledger_of s.trees).next_order_id (rest_of s)) (
            place (placed (ledger_of s.trees).next_order_id req) (
              set_nonce req.account_id (((ledger_of s.trees).identity req.account_id).nonce + 1) (
                move req.account_id req.token_id
                  (negate (pos req.amount))
                  (pos req.amount)
                  (ledger_of s.trees)))))
          s
  unfolding do_second_limit_order order_of_request leaf_of_dto ledger_of
  do_second_limit_order-Outcome req chunks info s ready found key la lk lo here =
      let a = req.account_id in
      let k = req.token_id in
      let l = ledger_of s.trees in
      let id = l.next_order_id in
      let l1 = move a k (negate (pos req.amount)) (pos req.amount) l in
      let l2 = set_nonce a ((l.identity a).nonce + 1) l1 in
      let v = order_of_request id req in
      let p0 = point_of s in
      let p1 = both_more p0 in
      let p2 : Point = record p1 { ledger = l1 } in
      let p3 : Point = record p1 { ledger = l2 } in
      let p4 = both_more p3 in
      let p5 = order_more p4 in
      let p6 : Point = record p5 {
        ledger = place (placed id req) l2;
        rest = update_order_row req.tx_id id p5.rest;
      } in
      let Q = Outcome p6.rest (place (placed id req) l2) in
      account-bind env a _ _ p0 Q found
        (λ from same. To-bind _ _ p0 p1 Q (account_and_token_before_update-Goes env a k p0 lk) λ _.
          To-bind _ _ p1 p2 Q
            (move-Goes env a k (negate (pos req.amount)) (pos req.amount) p1 la lk)
            λ _. To-bind _ _ p2 p3 Q (nonce-Goes env a from.nonce _ p2 same la found) λ _.
              To-bind _ _ p3 p3 Q
                (account_and_token_after_update-Goes env a k p3 lk (omega arith)
                  (omega (arith, ready)))
                λ _. To-bind _ _ p3 p4 Q (account_and_token_before_update-Goes env a k p3 lk) λ _.
                  To-bind _ _ p4 p4 Q
                    (account_and_token_after_update-Goes env a k p4 lk (omega arith)
                      (omega (arith, ready)))
                    λ _.
                      known-bind id _ _ p4 Q
                        (λ t at. (ap (λ (m : Ledger). m.next_order_id) at.0, at))
                        (To-bind _ _ p4 p5 Q (order_before_update-Goes env id p4) λ _.
                          To-bind _ _ p5 p6 Q (add_obs_order-Goes v p5 lo (omega arith)) λ _.
                            log_request-Outcome env req none _ _ _ _ chunks p6
                              (omega (arith, ready)) here
                              (key_of-Gives env a info p6
                                (row-account_info req.tx_id id a (rest_of s) ∙ key))))
        s (At-point_of s)
