-- ===== src/Ledger/Requests.antt =====
-- What every handler of a request promises, and the end that the handlers share.
pub mod Single
pub mod Orders
pub mod Placement
pub mod Opening
pub mod Cancel
pub mod Matching
pub mod Taking
pub mod Ending
use zk_obs.Common.{ℕ, ◌≡◌, refl, sym, ap, ◌∙◌, Option, some, List, [], ◌∷◌, ◌++◌, length}
use zk_obs.Common.Action.{Action, Result, ok, Returns, Error, of_result, ◌>>=◌}
use zk_obs.Transaction.{TransactionInfo, Metadata}
use zk_obs.TxCodec.{TxChunks, get_tx_chunks}
use zk_obs.Sequencer.{Sequencer, Env, TxLog, AccountInformation, add_tx_logs}
use zk_obs.Sequencer.Orders.{get_ts_pub_key, key_of, log_request}
use zk_obs.Ledger.{Ledger, ledger_of}
use zk_obs.Ledger.Points.{
  Point, At, Gives, Gives-bind, To, To-bind, To-weaken, value-bind, or_throw-Gives, rest_of,
}

-- Between two requests of a block the two root flows of the accounts have the same length.
abbrev pub IsReady : Sequencer → Type 0
IsReady s =
    length s.current_account_payload.r_account_root_flow
    ≡ length s.current_account_payload.r_token_root_flow

-- The sequencer of a block with one more log, its trees and payload apart.
abbrev pub with_log : TxLog → Sequencer → Sequencer
with_log log r = record r { current_tx_logs = r.current_tx_logs ++ log ∷ [] }

-- The ledger is `l`, the sequencer is `r` with the new log but for its trees and its payload, and it
-- is ready for the next request.
abbrev pub Outcome : Sequencer → Ledger → TxLog → Sequencer → Type 0
Outcome r l log s' = (ledger_of s'.trees ≡ l) × (rest_of s' ≡ with_log log r) × IsReady s'

abbrev pub logged : TxLog → Point → Point
logged log p = record p { rest = with_log log p.rest }

of_result-Gives :
    {A : Type 0} (r : Result A) (a : A) (p : Point)
    → r ≡ ok a
    → Gives (of_result r) p (λ _. Unit {0}) p
of_result-Gives r a p here s at = rw here (tt, at)

module _ (env : Env) where
  pub key_of-Gives :
      (account : ℕ) (info : AccountInformation) (p : Point)
      → p.rest.account_info account ≡ some info
      → Gives (key_of env account) p (λ _. Unit {0}) p
  unfolding get_ts_pub_key
  key_of-Gives account info p here =
      let None : AccountInformation → Type 0 = λ _. Unit {0} in
      To-bind _ _ p p (λ _ s'. Unit {0} × At p s')
        (value-bind _ _ (λ o. (i : AccountInformation) × (o ≡ some i) × None i) p p
          (λ _ s'. At p s')
          (λ s at. ((info, ap (λ (r : Sequencer). r.account_info account) at.4 ∙ here, tt), at))
          λ o found.
            value-bind _ _ None p p (λ _ s'. At p s') (or_throw-Gives o _ None p found)
              λ _ _ s at. at)
        λ _ s at. (tt, at)

  log_request-To :
      (req : TransactionInfo) (metadata : Option Metadata)
      (read_key : Action Sequencer (Option (List ℕ))) (req_data sig_r : List ℕ) (sig_s : ℕ)
      (chunks : TxChunks) (p p' : Point)
      → get_tx_chunks env.solidity_pack req metadata ≡ ok chunks
      → Gives read_key p (λ _. Unit {0}) p'
      → To
          (log_request env req metadata read_key req_data sig_r sig_s)
          p
          (λ log s'. At (logged log p') s')
  unfolding log_request add_tx_logs
  log_request-To req metadata read_key req_data sig_r sig_s chunks p p' here key =
      let Q : TxLog → Sequencer → Type 0 = λ log s'. At (logged log p') s' in
      value-bind _ _ (λ _. Unit {0}) p p Q (of_result-Gives _ chunks p here)
        λ c _.
          value-bind _ _ (λ _. Unit {0}) p p' Q key
            λ ts_pub_key _.
              let log : TxLog = record {
                req_data = req_data;
                ts_pub_key = ts_pub_key;
                sig_r = sig_r;
                sig_s = sig_s;
                r_chunks = c.r_chunks_bigint;
                o_chunks = c.o_chunks_bigint;
                is_critical_chunk = c.is_critical_chunk;
              } in
              To-bind _ _ p' (logged log p') Q
                (λ s at. (at.0, at.1, at.2, at.3, ap (with_log log) at.4)) λ _ s at. at

  -- From the last point of a handler, its log ends it, where the key's reader may move on.
  pub log_request-Outcome_from :
      (req : TransactionInfo) (metadata : Option Metadata)
      (read_key : Action Sequencer (Option (List ℕ))) (req_data sig_r : List ℕ) (sig_s : ℕ)
      (chunks : TxChunks) (p p' : Point)
      → p'.account_flows ≡ p'.token_flows
      → get_tx_chunks env.solidity_pack req metadata ≡ ok chunks
      → Gives read_key p (λ _. Unit {0}) p'
      → To
          (log_request env req metadata read_key req_data sig_r sig_s)
          p
          (Outcome p'.rest p'.ledger)
  log_request-Outcome_from req metadata read_key req_data sig_r sig_s chunks p p' flows here key =
      To-weaken _ p (λ log s'. At (logged log p') s') (Outcome p'.rest p'.ledger)
        (log_request-To req metadata read_key req_data sig_r sig_s chunks p p' here key)
        λ log s' at. (at.0, at.4, at.1 ∙ (flows ∙ sym at.2))

  pub log_request-Outcome :
      (req : TransactionInfo) (metadata : Option Metadata)
      (read_key : Action Sequencer (Option (List ℕ))) (req_data sig_r : List ℕ) (sig_s : ℕ)
      (chunks : TxChunks) (p : Point)
      → p.account_flows ≡ p.token_flows
      → get_tx_chunks env.solidity_pack req metadata ≡ ok chunks
      → Gives read_key p (λ _. Unit {0}) p
      → To (log_request env req metadata read_key req_data sig_r sig_s) p (Outcome p.rest p.ledger)
  log_request-Outcome req metadata read_key req_data sig_r sig_s chunks p =
      log_request-Outcome_from req metadata read_key req_data sig_r sig_s chunks p p
