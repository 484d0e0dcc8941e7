-- ===== src/Ledger/Requests/Matching.antt =====
-- `doSecondLimitExchange`: what the match of a maker's order does to the ledger.
use zk_obs.Common.{
  ℕ, ◌+◌, ◌^◌, ◌<◌, ◌≡◌, ◌≢◌, ap, Bool, true, false, some, replicate, ◌==◌, if◌then◌else◌, arith,
}
use zk_obs.Common.Int.{pos, negate, ◌-ℤ◌}
use zk_obs.Common.Action.{Returns, ok}
use zk_obs.Transaction.{TransactionInfo}
use zk_obs.Transaction.TsTxType
use zk_obs.TxCodec.{TxChunks, get_tx_chunks}
use zk_obs.Trees.{ObsOrderLeaf}
use zk_obs.Trees.Order.{leaf_of_dto, convert_to_obs_order_dto}
use zk_obs.Sequencer.{Sequencer, Env, AccountInformation, latest_tx_id}
use zk_obs.Sequencer.Orders.{empty_order, remove_obs_order, update_obs_order}
use zk_obs.Sequencer.Matching.{
  match_data, do_second_limit_exchange, settle_match, accumulate, is_all_sell_amt_matched,
}
use zk_obs.Ledger.{IsLow, Ledger, ledger_of, move, set_order, emptied}
use zk_obs.Ledger.Points.{Point, Goes, At, To-bind, known-bind, point_of, At-point_of, rest_of}
use zk_obs.Ledger.Hooks.{
  account_more, token_more, both_more, order_more, order_before_update-Goes,
  order_after_update-Goes,
}
use zk_obs.Ledger.Hooks.Single.{
  account-bind, account_before_update-Goes, account_after_update-Goes, token_before_update-Goes,
  token_after_update-Goes,
}
use zk_obs.Ledger.Requests.{IsReady, Outcome, log_request-Outcome, key_of-Gives}
use zk_obs.Ledger.Requests.Single.{move-Goes}
use zk_obs.Ledger.Requests.Orders.{
  order-bind, throw_if-Goes, remove_obs_order-Goes, update_obs_order-Goes,
}
use zk_obs.Ledger.Requests.Cancel.{IsOpen}

-- The sender of an order gets what it bought, and what it sold leaves its locked amount.
abbrev pub settled : TransactionInfo → ObsOrderLeaf → Ledger → Ledger
settled req order l =
    move order.sender order.sell_token_id (pos 0) (negate (pos req.accumulated_sell_amt))
      (move order.sender order.buy_token_id (pos req.accumulated_buy_amt) (pos 0) l)

-- An order with the sums of a match added to its own.
abbrev pub summed : TransactionInfo → ObsOrderLeaf → ObsOrderLeaf
summed req order = record order {
  accumulated_sell_amt = order.accumulated_sell_amt + req.accumulated_sell_amt;
  accumulated_buy_amt = order.accumulated_buy_amt + req.accumulated_buy_amt;
}

-- An order that has sold all is emptied, another keeps its sums.
abbrev pub left_over : ObsOrderLeaf → ObsOrderLeaf
left_over order =
    if order.accumulated_sell_amt == order.sell_amt then emptied order.order_leaf_id else order

abbrev pub exchanged : TransactionInfo → ObsOrderLeaf → Ledger → Ledger
exchanged req order l =
    set_order order.order_leaf_id (left_over (summed req order)) (settled req order l)

module _ (env : Env) ⦃low : IsLow env.config⦄ where
  pub settle_match-Goes :
      (req : TransactionInfo) (order : ObsOrderLeaf) (p : Point)
      → (p.ledger.identity order.sender).ts_addr ≢ 0
      → order.sender < 2 ^ env.config.accounts_tree_height
      → order.buy_token_id < 2 ^ env.config.tokens_tree_height
      → order.sell_token_id < 2 ^ env.config.tokens_tree_height
      → Goes
          (settle_match env req order)
          p
          (record (both_more (both_more p)) { ledger = settled req order p.ledger })
  unfolding settle_match
  settle_match-Goes req order p found la lb ls =
      let a = order.sender in
      let buy = order.buy_token_id in
      let sell = order.sell_token_id in
      let p1 = account_more p in
      let p2 = token_more p1 in
      let p3 : Point = record p2 {
        ledger = move a buy (pos req.accumulated_buy_amt) (pos 0) p.ledger;
      } in
      let p4 = token_more p3 in
      let p5 : Point = record p4 { ledger = settled req order p.ledger } in
      let p6 = account_more p5 in
      let Q : Unit {0} → Sequencer → Type 0 = λ _ s. At p6 s in
      To-bind _ _ p p1 Q (account_before_update-Goes env a p) λ _.
        To-bind _ _ p1 p2 Q (token_before_update-Goes env a buy p1 lb) λ _.
          To-bind _ _ p2 p3 Q (move-Goes env a buy (pos req.accumulated_buy_amt) (pos 0) p2 la lb)
            λ _.
              To-bind _ _ p3 p3 Q (token_after_update-Goes env a buy p3 lb found (omega arith)) λ _.
                To-bind _ _ p3 p4 Q (token_before_update-Goes env a sell p3 ls) λ _.
                  To-bind _ _ p4 p5 Q
                    (move-Goes env a sell (pos 0) (negate (pos req.accumulated_sell_amt)) p4 la ls)
                    λ _.
                      To-bind _ _ p5 p5 Q
                        (token_after_update-Goes env a sell p5 ls found (omega arith))
                        λ _.
                          To-bind _ _ p5 p5 Q
                            (account_after_update-Goes env a p5 found (omega arith))
                            λ _.
                              To-bind _ _ p5 p6 Q (account_before_update-Goes env a p5)
                                λ _. account_after_update-Goes env a p6 found (omega arith)

  -- The order's leaf is emptied or rewritten.
  write_back-Goes :
      (all : Bool) (id : ℕ) (req : TransactionInfo) (order : ObsOrderLeaf) (p : Point)
      → p.ledger.orders id ≡ some order
      → order.order_leaf_id ≡ id
      → order.req_type ≢ 0
      → id < 2 ^ env.config.order_tree_height
      → Goes
          (if all
            then remove_obs_order env id
            else update_obs_order env (convert_to_obs_order_dto (accumulate req order)))
          p
          (record p {
            ledger =
                set_order order.order_leaf_id
                  (if all
                    then leaf_of_dto (empty_order order.order_leaf_id)
                    else accumulate req order)
                  p.ledger;
          })
  unfolding leaf_of_dto convert_to_obs_order_dto accumulate
  write_back-Goes true id req order p there own live lt =
      remove_obs_order-Goes env id order p there live (omega (arith, own, lt))
  write_back-Goes false id req order p there own live lt =
      update_obs_order-Goes env (convert_to_obs_order_dto (accumulate req order)) p
        (omega (arith, own, lt))

  -- `doSecondLimitExchange` of an open order, whose sender has an address and a key, returns, within
  -- the bounds of the trees and with the request's chunks packed. The sender's available amount of the
  -- bought token and its locked amount of the sold one change by the request's sums, the order
  -- accumulates these and is emptied if it has sold all, and nothing else changes but the payload
  -- and the log.
  -- The heights of the trees are up to 47.
  pub do_second_limit_exchange-Outcome :
      (req : TransactionInfo) (order : ObsOrderLeaf) (chunks : TxChunks) (info : AccountInformation)
      (s : Sequencer)
      → IsReady s
      → IsOpen env req.arg4 order (ledger_of s.trees)
      → ((ledger_of s.trees).identity order.sender).ts_addr ≢ 0
      → s.account_info order.sender ≡ some info
      → order.sender < 2 ^ env.config.accounts_tree_height
      → order.buy_token_id < 2 ^ env.config.tokens_tree_height
      → order.sell_token_id < 2 ^ env.config.tokens_tree_height
      → get_tx_chunks env.solidity_pack req (
          some (record {
            tx_offset = pos (latest_tx_id s) -ℤ pos order.tx_id;
            maker_buy_amt = order.buy_amt;
          }))
        ≡ ok chunks
      → Returns
          (do_second_limit_exchange env req)
          (Outcome (rest_of s) (exchanged req order (ledger_of s.trees)))
          s
  unfolding do_second_limit_exchange latest_tx_id accumulate leaf_of_dto empty_order
  do_second_limit_exchange-Outcome req order chunks info s ready (there, own, sender, live, lo)
        found key la lb ls here =
      let a = order.sender in
      let id = req.arg4 in
      let Q = Outcome (rest_of s) (exchanged req order (ledger_of s.trees)) in
      let p0 = point_of s in
      let p1 : Point = record (both_more (both_more p0)) { ledger = settled req order p0.ledger } in
      let p2 = order_more p1 in
      let p3 : Point = record p2 { ledger = exchanged req order p0.ledger } in
      let offset = pos (latest_tx_id s) -ℤ pos order.tx_id in
      order-bind env id order _ _ p0 Q there
        (To-bind _ _ p0 p0 Q (throw_if-Goes env (a == 0) _ p0 (ground arith)) λ _.
          account-bind env a _ _ p0 Q found λ _ _.
            To-bind _ _ p0 p1 Q (settle_match-Goes req order p0 found la lb ls) λ _.
              To-bind _ _ p1 p2 Q (order_before_update-Goes env id p1) λ _.
                To-bind _ _ p2 p3 Q
                  (write_back-Goes (is_all_sell_amt_matched (accumulate req order)) id req order p2
                    there own live lo)
                  λ _. To-bind _ _ p3 p3 Q (order_after_update-Goes env id p3 (omega arith)) λ _.
                    known-bind offset _ _ p3 Q
                      (λ t at.
                        (ap (λ (r : Sequencer). pos (latest_tx_id r) -ℤ pos order.tx_id) at.4, at))
                      (log_request-Outcome env req
                        (some (record { tx_offset = offset; maker_buy_amt = order.buy_amt })) _
                        (match_data TsTxType.second_limit_exchange req) (replicate 2 0) 0 chunks p3
                        (omega (arith, ready)) here (key_of-Gives env a info p3 key)))
        s (At-point_of s)
