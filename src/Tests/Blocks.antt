-- ===== src/Tests/Blocks.antt =====
-- How blocks are filled and closed, at concrete inputs.
use zk_obs.Common.{ℕ, ◌≡◌, [], ◌∷◌, refl, arith, true, false}
use zk_obs.Common.Int.{pos, negate, ◌-ℤ◌}
use zk_obs.Common.Action.{Returns, Refused, type_error}
use zk_obs.Transaction.TsTxType
use zk_obs.TxCodec.{
  chunks_of_buffers, buffers_of, get_tx_chunks, encode_r_chunk_buffer, encode_deposit, encode_start,
  encode_order_amount,
}
use zk_obs.TxCodec.Buffers.{tight}
use zk_obs.Sequencer.{latest_tx_id, TsStatus, prepare_tx_account_payload}
use zk_obs.Sequencer.Rollup.{dispatch, do_transaction, process}
use zk_obs.Ledger.{Ledger, ledger_of, move, set_order, emptied, set_nonce}
use zk_obs.Ledger.Points.{rest_of}
use zk_obs.Ledger.Requests.{Outcome}
use zk_obs.Ledger.Requests.Single.{do_deposit-Outcome}
use zk_obs.Ledger.Requests.Taking.{holding, do_second_limit_start-Outcome}
use zk_obs.Ledger.Requests.Placement.{place, placed, do_second_limit_order-Outcome}
use zk_obs.Sequencer.Orders.{update_order_row}
use zk_obs.Bigint.{amount_to_tx_amount_v3_40bit}
use zk_obs.Ledger.Blocks.{update_order_row-KeepsBlock, Frame, IsFilling, IsClosed}
use zk_obs.Ledger.Closing.{do_transaction-Refused, do_transaction-Returns}
use zk_obs.Ledger.Processing.{marked, executed, IsStuck, process-Refused, process-Returns}
use zk_obs.Tests.{
  small_low, open_order, key_of_five, small_env, filling_sequencer, open_block, request,
}

deposit_is_handled :
    (n : ℕ) (status : ℕ → TsStatus)
    → Returns
        (dispatch small_env (request TsTxType.deposit))
        (Outcome
          (rest_of (record (filling_sequencer n) { tx_status = status }))
          (move 5 2 (pos 40) (pos 0) (ledger_of (filling_sequencer n).trees)))
        (record (filling_sequencer n) { tx_status = status })
unfolding ledger_of get_tx_chunks encode_r_chunk_buffer encode_deposit prepare_tx_account_payload
    dispatch
deposit_is_handled n status =
    do_deposit-Outcome small_env (request TsTxType.deposit)
      (chunks_of_buffers
        (buffers_of 2 true (tight ((8, pos 2) ∷ (32, pos 5) ∷ (16, pos 2) ∷ (128, pos 40) ∷ []))))
      (record (filling_sequencer n) { tx_status = status }) refl (ground arith) (omega arith)
      (omega arith) refl

start_is_handled :
    Returns
      (dispatch small_env (request TsTxType.second_limit_start))
      (Outcome
        (holding open_order (rest_of (filling_sequencer 7)))
        (set_order 1 (emptied 1) (ledger_of (filling_sequencer 7).trees)))
      (filling_sequencer 7)
unfolding ledger_of get_tx_chunks encode_r_chunk_buffer encode_start latest_tx_id ◌-ℤ◌
    prepare_tx_account_payload dispatch
start_is_handled =
    do_second_limit_start-Outcome small_env (request TsTxType.second_limit_start) open_order
      (chunks_of_buffers (buffers_of 1 false (tight ((8, pos 5) ∷ (32, pos 8) ∷ [])))) key_of_five
      (filling_sequencer 7) refl (refl, refl, ground arith, ground arith, omega arith)
      (ground arith) refl (omega arith) refl

abbrev first_block : Frame
first_block = record { number = 1; statuses = (filling_sequencer 0).tx_status }

seven-IsFilling : IsFilling 7 first_block open_block (filling_sequencer 7)
unfolding prepare_tx_account_payload
seven-IsFilling = (refl, refl, refl, refl, refl, refl)

two-IsFilling : IsFilling 2 first_block open_block (filling_sequencer 2)
unfolding prepare_tx_account_payload
two-IsFilling = (refl, refl, refl, refl, refl, refl)

do_transaction-Refused_example :
    Refused type_error
      (IsClosed first_block)
      (do_transaction small_env 3 (request TsTxType.second_limit_start) (filling_sequencer 7)).0
      (do_transaction small_env 3 (request TsTxType.second_limit_start) (filling_sequencer 7)).1
do_transaction-Refused_example =
    do_transaction-Refused small_env first_block open_block 0 (request TsTxType.second_limit_start)
      (set_order 1 (emptied 1) (ledger_of (filling_sequencer 7).trees)) (filling_sequencer 7)
      (holding open_order (rest_of (filling_sequencer 7))) seven-IsFilling
      (refl, refl, refl, refl, refl) start_is_handled

abbrev placed_ledger : Ledger
placed_ledger =
    place (placed 2 (request TsTxType.second_limit_order))
      (set_nonce 5 4 (move 5 2 (negate (pos 40)) (pos 40) (ledger_of (filling_sequencer 2).trees)))

order_is_handled :
    Returns
      (dispatch small_env (request TsTxType.second_limit_order))
      (Outcome (update_order_row 9 2 (rest_of (filling_sequencer 2))) placed_ledger)
      (filling_sequencer 2)
unfolding ledger_of get_tx_chunks encode_r_chunk_buffer encode_order_amount
    prepare_tx_account_payload dispatch
order_is_handled =
    do_second_limit_order-Outcome small_env (request TsTxType.second_limit_order)
      (chunks_of_buffers (
        buffers_of 1 false (
          tight (
            (8, pos 4)
            ∷ (32, pos 5)
            ∷ (16, pos 2)
            ∷ (40, pos (amount_to_tx_amount_v3_40bit 40))
            ∷ []))))
      key_of_five (filling_sequencer 2) refl (ground arith) refl (omega arith) (omega arith)
      (omega arith) refl

do_transaction-Returns_example :
    Returns
      (do_transaction small_env 1 (request TsTxType.second_limit_order))
      (λ _ s'. IsFilling 3 first_block open_block s')
      (filling_sequencer 2)
do_transaction-Returns_example =
    do_transaction-Returns small_env 2 first_block open_block 0
      (request TsTxType.second_limit_order) placed_ledger (filling_sequencer 2)
      (update_order_row 9 2 (rest_of (filling_sequencer 2))) (omega arith) two-IsFilling
      (update_order_row-KeepsBlock 9 2 (filling_sequencer 2)) order_is_handled

process-Refused_example :
    Refused type_error
      (IsStuck 1 (request TsTxType.deposit).tx_id)
      (process small_env 3 9 (filling_sequencer 7)).0
      (process small_env 3 9 (filling_sequencer 7)).1
process-Refused_example =
    process-Refused small_env 1 open_block 0 9 (request TsTxType.deposit)
      (move 5 2 (pos 40) (pos 0) (ledger_of (filling_sequencer 7).trees)) (filling_sequencer 7)
      (rest_of (marked (request TsTxType.deposit) (filling_sequencer 7))) refl seven-IsFilling
      (refl, refl, refl, refl, refl)
      (deposit_is_handled 7 (marked (request TsTxType.deposit) (filling_sequencer 7)).tx_status)

process-Returns_example :
    Returns
      (process small_env 1 9)
      (λ done s'.
        (done ≡ true)
        × IsFilling 3
            (record {
              number = 1;
              statuses =
                  (executed
                    (request TsTxType.deposit)
                    (marked (request TsTxType.deposit) (filling_sequencer 2))).tx_status;
            })
            open_block
            s')
      (filling_sequencer 2)
process-Returns_example =
    process-Returns small_env 2 1 open_block 0 9 (request TsTxType.deposit)
      (move 5 2 (pos 40) (pos 0) (ledger_of (filling_sequencer 2).trees)) (filling_sequencer 2)
      (rest_of (marked (request TsTxType.deposit) (filling_sequencer 2))) (omega arith) refl
      two-IsFilling (refl, refl, refl, refl, refl)
      (deposit_is_handled 2 (marked (request TsTxType.deposit) (filling_sequencer 2)).tx_status)
