-- ===== src/Tests/Ledgers.antt =====
-- The effects of requests, at concrete inputs.
use zk_obs.Common.{[], ◌∷◌, ◌≡◌, refl, arith, true, false, replicate}
use zk_obs.Common.Int.{pos, negate, ◌-ℤ◌}
use zk_obs.Common.Action.{Returns}
use zk_obs.Transaction.TsTxType
use zk_obs.TxCodec.{
  TxChunks, buffers_of, chunks_of_buffers, get_tx_chunks, encode_r_chunk_buffer, encode_withdraw,
  encode_deposit, encode_register, encode_order_amount, encode_exchange,
}
use zk_obs.TxCodec.Buffers.{tight}
use zk_obs.Bigint.{amount_to_tx_amount_v3_40bit}
use zk_obs.Sequencer.{latest_tx_id, prepare_tx_account_payload}
use zk_obs.Sequencer.Handlers.{do_withdraw, do_deposit, do_register, do_noop}
use zk_obs.Sequencer.Handlers.{do_second_limit_order, do_cancel_order}
use zk_obs.Sequencer.Matching.{do_second_limit_exchange}
use zk_obs.Sequencer.Orders.{update_order_row}
use zk_obs.Ledger.Requests.Opening.{do_register-Outcome, do_noop-Outcome}
use zk_obs.Ledger.Requests.Placement.{place, placed, do_second_limit_order-Outcome}
use zk_obs.Ledger.Requests.Cancel.{cancelled, do_cancel_order-Outcome}
use zk_obs.Ledger.Requests.Matching.{exchanged, do_second_limit_exchange-Outcome}
use zk_obs.Sequencer.Matching.{do_second_limit_start, do_second_limit_end}
use zk_obs.TxCodec.{encode_start, encode_end}
use zk_obs.Ledger.{set_order, emptied}
use zk_obs.Ledger.Requests.Taking.{holding, do_second_limit_start-Outcome}
use zk_obs.Ledger.Requests.Ending.{released, taken, do_second_limit_end-Outcome}
use zk_obs.Tests.{small_low, holding_sequencer}
use zk_obs.Ledger.{ledger_of, move, set_nonce, set_identity}
use zk_obs.Ledger.Points.{rest_of}
use zk_obs.Ledger.Requests.{Outcome}
use zk_obs.Ledger.Requests.Single.{do_deposit-Outcome, do_withdraw-Outcome}
use zk_obs.Tests.{small_low, small_env, small_sequencer, key_of_five, open_order, request}

abbrev withdraw_chunks : TxChunks
withdraw_chunks =
    chunks_of_buffers
      (buffers_of 2 true (tight ((8, pos 3) ∷ (32, pos 5) ∷ (16, pos 2) ∷ (128, pos 40) ∷ [])))

do_withdraw-Outcome_example :
    Returns
      (do_withdraw small_env (request TsTxType.withdraw))
      (Outcome
        (rest_of small_sequencer)
        (set_nonce 5 4 (move 5 2 (negate (pos 40)) (pos 0) (ledger_of small_sequencer.trees))))
      small_sequencer
unfolding ledger_of get_tx_chunks encode_r_chunk_buffer encode_withdraw prepare_tx_account_payload
do_withdraw-Outcome_example =
    do_withdraw-Outcome small_env (request TsTxType.withdraw) withdraw_chunks key_of_five
      small_sequencer refl (ground arith) refl (omega arith) (omega arith) refl

do_deposit-Outcome_example :
    Returns
      (do_deposit small_env (request TsTxType.deposit))
      (Outcome
        (rest_of small_sequencer)
        (move 5 2 (pos 40) (pos 0) (ledger_of small_sequencer.trees)))
      small_sequencer
unfolding ledger_of get_tx_chunks encode_r_chunk_buffer encode_deposit prepare_tx_account_payload
do_deposit-Outcome_example =
    do_deposit-Outcome small_env (request TsTxType.deposit)
      (chunks_of_buffers
        (buffers_of 2 true (tight ((8, pos 2) ∷ (32, pos 5) ∷ (16, pos 2) ∷ (128, pos 40) ∷ []))))
      small_sequencer refl (ground arith) (omega arith) (omega arith) refl

do_register-Outcome_example :
    Returns
      (do_register small_env (request TsTxType.register))
      (Outcome
        (rest_of small_sequencer)
        (set_identity 5 (record { ts_addr = 77; nonce = 0 }) (ledger_of small_sequencer.trees)))
      small_sequencer
unfolding get_tx_chunks encode_r_chunk_buffer encode_register prepare_tx_account_payload
do_register-Outcome_example =
    do_register-Outcome small_env (request TsTxType.register)
      (chunks_of_buffers (
        buffers_of 4 true
          (tight ((8, pos 1) ∷ (32, pos 5) ∷ (16, pos 2) ∷ (128, pos 40) ∷ (160, pos 6) ∷ []))))
      key_of_five small_sequencer refl refl (omega arith) (omega arith) refl

do_noop-Outcome_example :
    Returns
      (do_noop small_env)
      (λ log s'.
        Outcome (rest_of small_sequencer) (ledger_of small_sequencer.trees) log s'
        × (log.req_data ≡ replicate 10 0))
      small_sequencer
unfolding prepare_tx_account_payload
do_noop-Outcome_example = do_noop-Outcome small_env small_sequencer refl

do_second_limit_order-Outcome_example :
    Returns
      (do_second_limit_order small_env (request TsTxType.second_limit_order))
      (Outcome (update_order_row 9 2 (rest_of small_sequencer)) (
        place
          (placed 2 (request TsTxType.second_limit_order))
          (set_nonce 5 4 (move 5 2 (negate (pos 40)) (pos 40) (ledger_of small_sequencer.trees)))))
      small_sequencer
unfolding ledger_of get_tx_chunks encode_r_chunk_buffer encode_order_amount
    prepare_tx_account_payload
do_second_limit_order-Outcome_example =
    do_second_limit_order-Outcome small_env (request TsTxType.second_limit_order)
      (chunks_of_buffers (
        buffers_of 1 false (
          tight (
            (8, pos 4)
            ∷ (32, pos 5)
            ∷ (16, pos 2)
            ∷ (40, pos (amount_to_tx_amount_v3_40bit 40))
            ∷ []))))
      key_of_five small_sequencer refl (ground arith) refl (omega arith) (omega arith) (omega arith)
      refl

do_cancel_order-Outcome_example :
    Returns
      (do_cancel_order small_env (request TsTxType.cancel_order))
      (Outcome (rest_of small_sequencer) (cancelled open_order (ledger_of small_sequencer.trees)))
      small_sequencer
unfolding ledger_of get_tx_chunks encode_r_chunk_buffer encode_order_amount
    prepare_tx_account_payload
do_cancel_order-Outcome_example =
    do_cancel_order-Outcome small_env (request TsTxType.cancel_order) open_order
      (chunks_of_buffers (
        buffers_of 1 false (
          tight (
            (8, pos 11)
            ∷ (32, pos 5)
            ∷ (16, pos 2)
            ∷ (40, pos (amount_to_tx_amount_v3_40bit 40))
            ∷ []))))
      key_of_five small_sequencer refl (refl, refl, ground arith, ground arith, omega arith) refl
      (ground arith) refl (omega arith) (omega arith) refl

do_second_limit_exchange-Outcome_example :
    Returns
      (do_second_limit_exchange small_env (request TsTxType.second_limit_exchange))
      (Outcome (rest_of small_sequencer) (
        exchanged
          (request TsTxType.second_limit_exchange)
          open_order
          (ledger_of small_sequencer.trees)))
      small_sequencer
unfolding ledger_of get_tx_chunks encode_r_chunk_buffer encode_exchange latest_tx_id ◌-ℤ◌
    prepare_tx_account_payload
do_second_limit_exchange-Outcome_example =
    do_second_limit_exchange-Outcome small_env (request TsTxType.second_limit_exchange) open_order
      (chunks_of_buffers (
        buffers_of 1 false
          (tight ((8, pos 6) ∷ (32, pos 1) ∷ (40, pos (amount_to_tx_amount_v3_40bit 20)) ∷ []))))
      key_of_five small_sequencer refl (refl, refl, ground arith, ground arith, omega arith)
      (ground arith) refl (omega arith) (omega arith) (omega arith) refl

do_second_limit_start-Outcome_example :
    Returns
      (do_second_limit_start small_env (request TsTxType.second_limit_start))
      (Outcome
        (holding open_order (rest_of small_sequencer))
        (set_order 1 (emptied 1) (ledger_of small_sequencer.trees)))
      small_sequencer
unfolding ledger_of get_tx_chunks encode_r_chunk_buffer encode_start latest_tx_id ◌-ℤ◌
    prepare_tx_account_payload
do_second_limit_start-Outcome_example =
    do_second_limit_start-Outcome small_env (request TsTxType.second_limit_start) open_order
      (chunks_of_buffers (buffers_of 1 false (tight ((8, pos 5) ∷ (32, pos 1) ∷ [])))) key_of_five
      small_sequencer refl (refl, refl, ground arith, ground arith, omega arith) (ground arith) refl
      (omega arith) refl

do_second_limit_end-Outcome_example :
    Returns
      (do_second_limit_end small_env (request TsTxType.second_limit_end))
      (Outcome
        (released true (rest_of holding_sequencer))
        (taken (request TsTxType.second_limit_end) open_order (ledger_of holding_sequencer.trees)))
      holding_sequencer
unfolding ledger_of get_tx_chunks encode_r_chunk_buffer encode_end prepare_tx_account_payload
do_second_limit_end-Outcome_example =
    do_second_limit_end-Outcome small_env (request TsTxType.second_limit_end) open_order
      (chunks_of_buffers (buffers_of 1 false (tight ((8, pos 7) ∷ [])))) key_of_five
      holding_sequencer refl refl refl refl (ground arith) (ground arith) refl (omega arith)
      (omega arith) (omega arith) (omega arith) refl
