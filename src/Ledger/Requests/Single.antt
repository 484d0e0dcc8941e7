-- ===== src/Ledger/Requests/Single.antt =====
-- The requests on one account: what they do to the ledger.
use zk_obs.Common.{ℕ, ◌+◌, ◌^◌, ◌<◌, ◌≡◌, ◌≢◌, none, some, arith}
use zk_obs.Common.Int.{ℤ, pos, negate}
use mathlib.Core.Path.{subst}
use zk_obs.Ledger.Services.{Steps}
use zk_obs.Common.Action.{Returns, ok}
use zk_obs.Transaction.{TransactionInfo}
use zk_obs.TxCodec.{TxChunks, get_tx_chunks}
use zk_obs.Sequencer.{on_trees, Sequencer, Env, AccountInformation}
use zk_obs.Sequencer.Accounts.{update_account_token, update_account_nonce}
use zk_obs.Sequencer.Handlers.{do_deposit, do_withdraw}
use zk_obs.Ledger.{IsLow, ledger_of, move, set_nonce}
use zk_obs.Ledger.Accounts.{update_account_token-Steps, update_account_nonce-Steps}
use zk_obs.Ledger.Points.{Point, Goes, To-bind, on_trees-Goes, point_of, At-point_of, rest_of}
use zk_obs.Ledger.Hooks.{
  both_more, order_more, account_and_token_before_update-Goes, account_and_token_after_update-Goes,
  order_before_update-Goes, order_after_update-Goes,
}
use zk_obs.Ledger.Hooks.Single.{account-bind}
use zk_obs.Ledger.Requests.{IsReady, Outcome, log_request-Outcome, key_of-Gives}

module _ (env : Env) ⦃low : IsLow env.config⦄ where
  -- The step of a handler that moves amounts.
  pub move-Goes :
      (a k : ℕ) (available locked : ℤ) (p : Point)
      → a < 2 ^ env.config.accounts_tree_height
      → k < 2 ^ env.config.tokens_tree_height
      → Goes
          (on_trees (update_account_token env.config a k available locked))
          p
          (record p { ledger = move a k available locked p.ledger })
  move-Goes a k available locked p la lk =
      on_trees-Goes (update_account_token env.config a k available locked) p _
        (update_account_token-Steps env.config a k available locked p.ledger la lk)

  -- The step of a handler that writes the nonce after the one it read.
  pub nonce-Goes :
      (a read nonce : ℕ) (p : Point)
      → read ≡ nonce
      → a < 2 ^ env.config.accounts_tree_height
      → (p.ledger.identity a).ts_addr ≢ 0
      → Goes
          (on_trees (update_account_nonce env.config a (read + 1)))
          p
          (record p { ledger = set_nonce a (nonce + 1) p.ledger })
  nonce-Goes a read nonce p same la found =
      on_trees-Goes (update_account_nonce env.config a (read + 1)) p _ (
        subst
          (λ (n : ℕ).
            Steps (update_account_nonce env.config a (read + 1)) p.ledger
              (set_nonce a (n + 1) p.ledger))
          same (update_account_nonce-Steps env.config a (read + 1) p.ledger la found))

  -- `doDeposit` of an account that has an address returns, within the bounds of the trees and with
  -- the request's chunks packed. It raises the account's available amount of the token by the amount
  -- of the request, and changes no other balance, no identity, no order, and no field of the
  -- sequencer but the trees, the payload and the log.
  -- The heights of the trees are up to 47.
  pub do_deposit-Outcome :
      (req : TransactionInfo) (chunks : TxChunks) (s : Sequencer)
      → IsReady s
      → ((ledger_of s.trees).identity req.arg0).ts_addr ≢ 0
      → req.arg0 < 2 ^ env.config.accounts_tree_height
      → req.token_id < 2 ^ env.config.tokens_tree_height
      → get_tx_chunks env.solidity_pack req none ≡ ok chunks
      → Returns
          (do_deposit env req)
          (Outcome
            (rest_of s)
            (move req.arg0 req.token_id (pos req.amount) (pos 0) (ledger_of s.trees)))
          s
  unfolding do_deposit
  do_deposit-Outcome req chunks s ready found la lk here =
      let a = req.arg0 in
      let k = req.token_id in
      let Q = Outcome (rest_of s) (move a k (pos req.amount) (pos 0) (ledger_of s.trees)) in
      let p0 = point_of s in
      let p1 = both_more p0 in
      let p2 = order_more p1 in
      let p3 : Point = record p2 { ledger = move a k (pos req.amount) (pos 0) p2.ledger } in
      let p4 = both_more p3 in
      account-bind env a _ _ p0 Q found
        (λ _ _. To-bind _ _ p0 p1 Q (account_and_token_before_update-Goes env a k p0 lk) λ _.
          To-bind _ _ p1 p2 Q (order_before_update-Goes env 0 p1) λ _.
            To-bind _ _ p2 p3 Q (move-Goes a k (pos req.amount) (pos 0) p2 la lk) λ _.
              To-bind _ _ p3 p3 Q
                (account_and_token_after_update-Goes env a k p3 lk (omega arith)
                  (omega (arith, ready)))
                λ _. To-bind _ _ p3 p3 Q (order_after_update-Goes env 0 p3 (omega arith)) λ _.
                  To-bind _ _ p3 p4 Q (account_and_token_before_update-Goes env a k p3 lk) λ _.
                    To-bind _ _ p4 p4 Q
                      (account_and_token_after_update-Goes env a k p4 lk (omega arith)
                        (omega (arith, ready)))
                      λ _.
                        log_request-Outcome env req none _ _ _ _ chunks p4 (omega (arith, ready))
                          here (λ _ at. (tt, at)))
        s (At-point_of s)

  -- `doWithdraw` of an account that has an address and a key returns, within the bounds of the trees
  -- and with the request's chunks packed. It lowers the account's available amount of the token by
  -- the amount of the request, even below zero, gives the account its next nonce, and changes no
  -- other balance or identity, no order, and no field of the sequencer but the trees, the payload
  -- and the log.
  -- The heights of the trees are up to 47.
  pub do_withdraw-Outcome :
      (req : TransactionInfo) (chunks : TxChunks) (info : AccountInformation) (s : Sequencer)
      → IsReady s
      → ((ledger_of s.trees).identity req.account_id).ts_addr ≢ 0
      → s.account_info req.account_id ≡ some info
      → req.account_id < 2 ^ env.config.accounts_tree_height
      → req.token_id < 2 ^ env.config.tokens_tree_height
      → get_tx_chunks env.solidity_pack req none ≡ ok chunks
      → Returns
          (do_withdraw env req)
          (Outcome (rest_of s) (
            set_nonce req.account_id (((ledger_of s.trees).identity req.account_id).nonce + 1) (
              move req.account_id req.token_id
                (negate (pos req.amount))
                (pos 0)
                (ledger_of s.trees))))
          s
  unfolding do_withdraw
  do_withdraw-Outcome req chunks info s ready found key la lk here =
      let a = req.account_id in
      let k = req.token_id in
      let l = ledger_of s.trees in
      let l' = move a k (negate (pos req.amount)) (pos 0) l in
      let Q = Outcome (rest_of s) (set_nonce a ((l.identity a).nonce + 1) l') in
      let p0 = point_of s in
      let p1 = both_more p0 in
      let p2 : Point = record p1 { ledger = l' } in
      let p3 : Point = record p1 { ledger = set_nonce a ((l.identity a).nonce + 1) l' } in
      let p4 = both_more p3 in
      let p5 = order_more p4 in
      account-bind env a _ _ p0 Q found
        (λ from same. To-bind _ _ p0 p1 Q (account_and_token_before_update-Goes env a k p0 lk) λ _.
          To-bind _ _ p1 p2 Q (move-Goes a k (negate (pos req.amount)) (pos 0) p1 la lk) λ _.
            To-bind _ _ p2 p3 Q (nonce-Goes a from.nonce _ p2 same la found) λ _.
              To-bind _ _ p3 p3 Q
                (account_and_token_after_update-Goes env a k p3 lk (omega arith)
                  (omega (arith, ready)))
                λ _. To-bind _ _ p3 p4 Q (account_and_token_before_update-Goes env a k p3 lk) λ _.
                  To-bind _ _ p4 p4 Q
                    (account_and_token_after_update-Goes env a k p4 lk (omega arith)
                      (omega (arith, ready)))
                    λ _. To-bind _ _ p4 p5 Q (order_before_update-Goes env 0 p4) λ _.
                      To-bind _ _ p5 p5 Q (order_after_update-Goes env 0 p5 (omega arith)) λ _.
                        log_request-Outcome env req none _ _ _ _ chunks p5 (omega (arith, ready))
                          here (key_of-Gives env a info p5 key))
        s (At-point_of s)
