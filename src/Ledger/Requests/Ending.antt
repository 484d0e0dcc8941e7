-- ===== src/Ledger/Requests/Ending.antt =====
-- `doSecondLimitEnd`: the taker's order that is held is matched, and written back or dropped.
use zk_obs.Common.{
  ℕ, ◌+◌, ◌^◌, ◌<◌, ◌≡◌, ◌≢◌, refl, ap, ◌∙◌, none, some, [], ◌∷◌, ◌++◌, Bool, true, false, ◌==◌,
  if◌then◌else◌, replicate, arith,
}
use zk_obs.Common.Int.{pos, ◌-ℤ◌}
use zk_obs.Common.Action.{Returns, ok, order_not_found, modify, ◌>>◌}
use zk_obs.Transaction.{TransactionInfo}
use zk_obs.Transaction.TsTxType
use zk_obs.TxCodec.{TxChunks, get_tx_chunks}
use zk_obs.Trees.{ObsOrderLeaf}
use zk_obs.Trees.Order.{leaf_of_dto, convert_to_obs_order_dto}
use zk_obs.Sequencer.{Sequencer, Env, AccountInformation, latest_tx_id, detached}
use zk_obs.Sequencer.Orders.{remove_obs_order, update_obs_order, key_of}
use zk_obs.Sequencer.Updates.{order_after_update}
use zk_obs.Sequencer.Matching.{do_second_limit_end, accumulate, is_all_sell_amt_matched, match_data}
use zk_obs.Ledger.{IsLow, Ledger, ledger_of, emptied, set_order}
use zk_obs.Ledger.Points.{
  Point, At, Goes, Gives, To-bind, known-bind, or_throw-Gives, point_of, At-point_of, rest_of,
}
use zk_obs.Ledger.Hooks.{both_more, order_more, order_before_update-Goes, order_after_update-Goes}
use zk_obs.Ledger.Hooks.Single.{account-bind}
use zk_obs.Ledger.Requests.{IsReady, Outcome, log_request-Outcome_from, key_of-Gives}
use zk_obs.Ledger.Requests.Orders.{
  throw_if-Goes, update_obs_order-Goes, remove_obs_order-Settles, detached-Goes, settle-Settles,
}
use zk_obs.Ledger.Requests.Matching.{settled, summed, settle_match-Goes}
use zk_obs.Ledger.Requests.Taking.{holding}

-- No order is held, and an error is unhandled if the taker's order has sold all.
abbrev pub released : Bool → Sequencer → Sequencer
released all r = record r {
  current_hold_taker_order = none;
  unhandled = if all then r.unhandled ++ order_not_found ∷ [] else r.unhandled;
}

-- The taker gets what it bought, what it sold leaves its locked amount, and an order that has not
-- sold all is written back with its sums.
abbrev pub taken : TransactionInfo → ObsOrderLeaf → Ledger → Ledger
taken req order l =
    let l' = settled req order l in
    let order' = summed req order in
    if order'.accumulated_sell_amt == order'.sell_amt
    then l'
    else set_order order'.order_leaf_id order' l'

module _ (env : Env) ⦃low : IsLow env.config⦄ where
  -- The order's leaf stays empty, with an error that is unhandled, or it is written back.
  finish-Goes :
      (all : Bool) (id : ℕ) (req : TransactionInfo) (order : ObsOrderLeaf) (p : Point)
      → p.ledger.orders id ≡ some (emptied id)
      → order.order_leaf_id ≡ id
      → id < 2 ^ env.config.order_tree_height
      → 0 < p.order_flows
      → Goes
          (detached env
            (if all
              then remove_obs_order env id
              else update_obs_order env (convert_to_obs_order_dto (accumulate req order)))
            (order_after_update env id))
          p
          (record p {
            ledger =
                if all then p.ledger else set_order order.order_leaf_id (summed req order) p.ledger;
            rest = record p.rest {
              unhandled =
                  if all then p.rest.unhandled ++ order_not_found ∷ [] else p.rest.unhandled;
            };
          })
  unfolding leaf_of_dto convert_to_obs_order_dto accumulate
  finish-Goes true id req order p empty own lt some_flow =
      let q : Point = record p {
        rest = record p.rest { unhandled = p.rest.unhandled ++ order_not_found ∷ [] };
      } in
      let remove = remove_obs_order env id in
      let fails = remove_obs_order-Settles env id p empty in
      detached-Goes env remove (order_after_update env id) p q p q fails
        (order_after_update-Goes env id q some_flow) (order_after_update-Goes env id p some_flow)
        fails
  finish-Goes false id req order p empty own lt some_flow =
      let dto = convert_to_obs_order_dto (accumulate req order) in
      let q : Point = record p {
        ledger = set_order order.order_leaf_id (summed req order) p.ledger;
      } in
      let write = update_obs_order env dto in
      let writes =
        settle-Settles write p q (update_obs_order-Goes env dto p (omega (arith, own, lt))) in
      detached-Goes env write (order_after_update env id) p q p q writes
        (order_after_update-Goes env id q some_flow) (order_after_update-Goes env id p some_flow)
        writes

  release_key-Gives :
      (account : ℕ) (info : AccountInformation) (p : Point)
      → p.rest.account_info account ≡ some info
      → Gives
          (modify (λ (s : Sequencer). record s { current_hold_taker_order = none })
            >> key_of env account)
          p
          (λ _. Unit {0})
          (record p { rest = record p.rest { current_hold_taker_order = none } })
  release_key-Gives account info p key =
      let q : Point = record p { rest = record p.rest { current_hold_taker_order = none } } in
      To-bind _ _ p q (λ _ s. Unit {0} × At q s)
        (λ s at. (
          at.0,
          at.1,
          at.2,
          at.3,
          ap (λ (r : Sequencer). record r { current_hold_taker_order = none }) at.4,
        ))
        λ _. key_of-Gives env account info q key

  -- `doSecondLimitEnd` of the order that is held, whose leaf is empty and whose sender has an address
  -- and a key, returns, within the bounds of the trees and with the request's chunks packed, however
  -- the call that it does not await settles. The sender gets what it bought, and what it sold leaves
  -- its locked amount. An order that has not sold all is written back with its sums. For one that has,
  -- the leaf stays empty, and the removal ends in an error that nothing handles.
  -- The heights of the trees are up to 47.
  pub do_second_limit_end-Outcome :
      (req : TransactionInfo) (order : ObsOrderLeaf) (chunks : TxChunks) (info : AccountInformation)
      (s : Sequencer)
      → IsReady s
      → s.current_hold_taker_order ≡ some order
      → (ledger_of s.trees).orders req.arg4 ≡ some (emptied req.arg4)
      → order.order_leaf_id ≡ req.arg4
      → order.sender ≢ 0
      → ((ledger_of s.trees).identity order.sender).ts_addr ≢ 0
      → s.account_info order.sender ≡ some info
      → req.arg4 < 2 ^ env.config.order_tree_height
      → order.sender < 2 ^ env.config.accounts_tree_height
      → order.buy_token_id < 2 ^ env.config.tokens_tree_height
      → order.sell_token_id < 2 ^ env.config.tokens_tree_height
      → get_tx_chunks env.solidity_pack req
          (some (record { tx_offset = pos (latest_tx_id s) -ℤ pos order.tx_id; maker_buy_amt = 0 }))
        ≡ ok chunks
      → Returns
          (do_second_limit_end env req)
          (Outcome
            (released
              (order.accumulated_sell_amt + req.accumulated_sell_amt == order.sell_amt)
              (rest_of s))
            (taken req order (ledger_of s.trees)))
          s
  unfolding do_second_limit_end latest_tx_id accumulate
  do_second_limit_end-Outcome req order chunks info s ready held empty own sender found key lo la lb
        ls here =
      let a = order.sender in
      let id = req.arg4 in
      let all = is_all_sell_amt_matched (accumulate req order) in
      let hold : Sequencer → Sequencer = holding (accumulate req order) in
      let reject : Sequencer → Sequencer = λ r. record r {
        unhandled = if all then r.unhandled ++ order_not_found ∷ [] else r.unhandled;
      } in
      let p0 = point_of s in
      let p1 : Point = record (both_more (both_more p0)) { ledger = settled req order p0.ledger } in
      let p2 = order_more p1 in
      let p3 : Point = record p2 { rest = hold p0.rest } in
      let p4 : Point = record p3 {
        ledger = taken req order (ledger_of s.trees);
        rest = reject p3.rest;
      } in
      let p5 : Point = record p4 { rest = released all (rest_of s) } in
      let Q = Outcome p5.rest p5.ledger in
      let offset = pos (latest_tx_id s) -ℤ pos order.tx_id in
      known-bind (some order) _ _ p0 Q
        (λ t at. (ap (λ (r : Sequencer). r.current_hold_taker_order) at.4 ∙ held, at))
        (known-bind order _ _ p0 Q
          (or_throw-Gives (some order) order_not_found (λ o. o ≡ order) p0 (order, refl, refl))
          (To-bind _ _ p0 p0 Q (throw_if-Goes env (a == 0) _ p0 (ground arith)) λ _.
            account-bind env a _ _ p0 Q found λ _ _.
              To-bind _ _ p0 p1 Q (settle_match-Goes env req order p0 found la lb ls) λ _.
                To-bind _ _ p1 p2 Q (order_before_update-Goes env id p1) λ _.
                  To-bind _ _ p2 p3 Q (λ t at. (at.0, at.1, at.2, at.3, ap hold at.4))
                    λ _.
                      To-bind _ _ p3 p4 Q
                        (finish-Goes all id req order p3 empty own lo (omega arith))
                        λ _.
                          known-bind offset _ _ p4 Q
                            (λ t at. (
                              ap (λ (r : Sequencer). pos (latest_tx_id r) -ℤ pos order.tx_id) at.4,
                              at,
                            ))
                            (log_request-Outcome_from env req
                              (some (record { tx_offset = offset; maker_buy_amt = 0 })) _
                              (match_data TsTxType.second_limit_end req) (replicate 2 0) 0 chunks p4
                              p5 (omega (arith, ready)) here (release_key-Gives a info p4 key))))
        s (At-point_of s)
