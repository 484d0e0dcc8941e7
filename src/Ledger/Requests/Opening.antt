-- ===== src/Ledger/Requests/Opening.antt =====
-- `doRegister` and `doNoop`: an account is opened, and nothing happens.
use zk_obs.Common.{◌^◌, ◌<◌, ◌≡◌, refl, ap, ◌∙◌, none, some, [], ◌∷◌, replicate, arith}
use zk_obs.Common.Action.{Returns, ok, not_found}
use zk_obs.Transaction.{TransactionInfo}
use zk_obs.TxCodec.{TxChunks, get_tx_chunks}
use zk_obs.Sequencer.{Sequencer, Env, AccountInformation, TxLog, add_tx_logs}
use zk_obs.Sequencer.Accounts.{add_account}
use zk_obs.Sequencer.Handlers.{do_register, do_noop}
use zk_obs.Transaction.{max_chunks_per_req}
use zk_obs.Transaction.TsTxType
use native.Mathlib.Nat.{one-le-pow}
use zk_obs.Ledger.{IsLow, ledger_of, set_identity}
use zk_obs.Ledger.Accounts.{add_account-Steps}
use zk_obs.Ledger.Points.{
  Point, To-bind, or_throw-Gives, on_trees-Goes, known-bind, point_of, At-point_of, rest_of,
}
use zk_obs.Ledger.Hooks.{
  both_more, order_more, account_and_token_before_update-Goes, account_and_token_after_update-Goes,
  order_before_update-Goes, order_after_update-Goes,
}
use zk_obs.Ledger.Requests.{IsReady, Outcome, log_request-Outcome, logged, with_log}

module _ (env : Env) ⦃low : IsLow env.config⦄ where
  -- `doRegister` of an account that has a key returns, within the bounds of the trees and with the
  -- request's chunks packed. The account has the hashed key as its address and the nonce zero,
  -- whatever it was before; its balances stay, and nothing else changes but the payload and the log.
  -- The heights of the trees are up to 47.
  pub do_register-Outcome :
      (req : TransactionInfo) (chunks : TxChunks) (info : AccountInformation) (s : Sequencer)
      → IsReady s
      → s.account_info req.arg0 ≡ some info
      → req.arg0 < 2 ^ env.config.accounts_tree_height
      → req.token_id < 2 ^ env.config.tokens_tree_height
      → get_tx_chunks env.solidity_pack req none ≡ ok chunks
      → Returns
          (do_register env req)
          (Outcome (rest_of s) (
            set_identity req.arg0
              (record { ts_addr = info.hashed_ts_pub_key; nonce = 0 })
              (ledger_of s.trees)))
          s
  unfolding do_register
  do_register-Outcome req chunks info s ready key la lk here =
      let a = req.arg0 in
      let k = req.token_id in
      let addr = info.hashed_ts_pub_key in
      let l = ledger_of s.trees in
      let l' = set_identity a (record { ts_addr = addr; nonce = 0 }) l in
      let Q = Outcome (rest_of s) l' in
      let p0 = point_of s in
      let p1 = both_more p0 in
      let p2 : Point = record p1 { ledger = l' } in
      let p3 = both_more p2 in
      let p4 = order_more p3 in
      known-bind (some info) _ _ p0 Q
        (λ t at. (ap (λ (r : Sequencer). r.account_info a) at.4 ∙ key, at))
        (known-bind info _ _ p0 Q
          (or_throw-Gives (some info) not_found (λ i. i ≡ info) p0 (info, refl, refl))
          (To-bind _ _ p0 p1 Q (account_and_token_before_update-Goes env a k p0 lk) λ _.
            To-bind _ _ p1 p2 Q
              (on_trees-Goes (add_account env.config a addr) p1 l'
                (add_account-Steps env.config a addr l la))
              λ _.
                To-bind _ _ p2 p2 Q
                  (account_and_token_after_update-Goes env a k p2 lk (omega arith)
                    (omega (arith, ready)))
                  λ _. To-bind _ _ p2 p3 Q (account_and_token_before_update-Goes env a k p2 lk) λ _.
                    To-bind _ _ p3 p3 Q
                      (account_and_token_after_update-Goes env a k p3 lk (omega arith)
                        (omega (arith, ready)))
                      λ _. To-bind _ _ p3 p4 Q (order_before_update-Goes env 0 p3) λ _.
                        To-bind _ _ p4 p4 Q (order_after_update-Goes env 0 p4 (omega arith)) λ _.
                          log_request-Outcome env req none _ _ _ _ chunks p4 (omega (arith, ready))
                            here (λ _ at. (tt, at))))
        s (At-point_of s)

  -- `doNoop` returns, in a tree of tokens of any height. It changes nothing but the payload and the
  -- log, and the log that it adds has the empty request's data.
  -- The heights of the trees are up to 47.
  pub do_noop-Outcome :
      (s : Sequencer)
      → IsReady s
      → Returns
          (do_noop env)
          (λ log s'.
            Outcome (rest_of s) (ledger_of s.trees) log s' × (log.req_data ≡ replicate 10 0))
          s
  unfolding do_noop add_tx_logs
  do_noop-Outcome s ready =
      let log : TxLog = record {
        req_data = replicate 10 0;
        ts_pub_key = some (replicate 2 0);
        sig_r = replicate 2 0;
        sig_s = 0;
        r_chunks = replicate max_chunks_per_req 0;
        o_chunks = TsTxType.unknown ∷ [];
        is_critical_chunk = TsTxType.unknown ∷ [];
      } in
      let Q : TxLog → Sequencer → Type 0 =
        λ tx s'. Outcome (rest_of s) (ledger_of s.trees) tx s' × (tx.req_data ≡ replicate 10 0) in
      let p0 = point_of s in
      let p1 = both_more p0 in
      let p2 = both_more p1 in
      let p3 = order_more p2 in
      let lk = one-le-pow env.config.tokens_tree_height 2 (omega arith) in
      To-bind _ _ p0 p1 Q (account_and_token_before_update-Goes env 0 0 p0 lk)
        (λ _.
          To-bind _ _ p1 p1 Q
            (account_and_token_after_update-Goes env 0 0 p1 lk (omega arith) (omega (arith, ready)))
            λ _. To-bind _ _ p1 p2 Q (account_and_token_before_update-Goes env 0 0 p1 lk) λ _.
              To-bind _ _ p2 p2 Q
                (account_and_token_after_update-Goes env 0 0 p2 lk (omega arith)
                  (omega (arith, ready)))
                λ _. To-bind _ _ p2 p3 Q (order_before_update-Goes env 0 p2) λ _.
                  To-bind _ _ p3 p3 Q (order_after_update-Goes env 0 p3 (omega arith)) λ _.
                    To-bind _ _ p3 (logged log p3) Q
                      (λ t at. (at.0, at.1, at.2, at.3, ap (with_log log) at.4))
                      λ _ t at. ((at.0, at.4, omega (arith, at.1, at.2, ready)), refl))
        s (At-point_of s)
