-- ===== src/Tests/Pipelines.antt =====
-- The dispatcher, the prover and the operator, at concrete inputs.
use zk_obs.Common.{
  contains, All, ℕ, ◌+◌, ◌≡◌, ◌≤◌, refl, Bool, true, none, some, List, [], ◌∷◌, ◌==◌, arith,
  Bool-cases, inl, inr,
}
use zk_obs.Common.Action.{◌>>=◌, Result, ok, Returns}
use zk_obs.Merkle.{put}
use zk_obs.Sequencer.{
  TsStatus, BlockStatus, BlockInformation, CircuitInputs, prepare_tx_account_payload,
  prepare_tx_order_payload,
}
use zk_obs.Pipeline.Producer.{
  Producer, here, next, poll_transactions, dispatch_pending_transaction, dispatch_pending_block,
}
use zk_obs.Pipeline.Producer.Once.{IsOnce, Reach-IsOnce, contains-dispatch_pending_transaction}
use zk_obs.Pipeline.Producer.Missed.{IsMissed, Reach-IsMissed}
use zk_obs.Pipeline.Prover.{Blocks, first_executed, status_of}
use zk_obs.Pipeline.Prover
use zk_obs.Pipeline.Prover.Order
use zk_obs.Pipeline.Prover.Order.{confirmed, proved_row, queue-proves}
use zk_obs.Pipeline.Prover.Traces.{IsMade, serve-IsMade}
use zk_obs.Pipeline.Operator.{Call, Chain, first_confirmed}
use zk_obs.Pipeline.Operator.Submissions
use zk_obs.Pipeline.Operator.Submissions.{IsOf, run-IsOf}

abbrev no_inputs : CircuitInputs
unfolding prepare_tx_account_payload prepare_tx_order_payload
no_inputs = record {
  logs = [];
  r_account_root_flow = [];
  account_payload = prepare_tx_account_payload;
  order_payload = prepare_tx_order_payload;
  ori_tx_num = 0;
  account_root_flow = [];
  order_root_flow = [];
}

abbrev executed_block : BlockInformation
executed_block = record {
  block_status = BlockStatus.l2_executed;
  raw_data = some no_inputs;
  state = none;
  proof = none;
}

-- Two executed blocks.
abbrev two_blocks : Blocks
two_blocks = record {
  rows = put (put (λ _. none) 1 executed_block) 2 executed_block;
  last_block = 2;
}

abbrev idle_producer : Producer
idle_producer = record {
  current_pending_tx_id = 0;
  current_pending_block = 0;
  current_proved_block = 0;
  tx_status = λ _. none;
  last_tx = 0;
  block_status = λ k. status_of (two_blocks.rows k);
  last_block = 2;
  seq_queue = [];
  prover_queue = [];
  operator_queue = [];
}

abbrev takes_all : ℕ → Bool
takes_all _ = true

abbrev prove_small : ℕ → CircuitInputs → Result ℕ
prove_small k _ = ok (k + 100)

-- Transaction 2 is committed before transaction 1, and dispatched alone.
abbrev passed_by : Producer
unfolding dispatch_pending_transaction
passed_by =
    dispatch_pending_transaction takes_all
      (record idle_producer { tx_status = put (λ _. none) 2 TsStatus.pending; last_tx = 2 })

idle_producer-IsOnce : IsOnce idle_producer
idle_producer-IsOnce = record {
  transactions = omega arith;
  blocks = omega arith;
  proved = omega arith;
}

Reach-IsOnce_example : IsOnce (dispatch_pending_transaction takes_all idle_producer)
Reach-IsOnce_example =
    Reach-IsOnce takes_all idle_producer-IsOnce (next here (poll_transactions idle_producer))

passed_by-IsMissed : IsMissed 1 passed_by
unfolding dispatch_pending_transaction contains
passed_by-IsMissed = (omega arith, refl)

Reach-IsMissed_example : IsMissed 1 (dispatch_pending_transaction takes_all passed_by)
Reach-IsMissed_example =
    Reach-IsMissed takes_all 1 passed_by-IsMissed (next here (poll_transactions passed_by))

two_blocks-IsProvable :
    (k : ℕ)
    → Prover.is_executed (two_blocks.rows k) ≡ true
    → Order.IsProvable prove_small k (two_blocks.rows k)
two_blocks-IsProvable k e = elim (Bool-cases (k == 2)) [
  | inl two ↦ rw two (no_inputs, k + 100, refl, refl)
  | inr other ↦ elim (Bool-cases (k == 1)) [
    | inl one ↦ rw (other, one) (no_inputs, k + 100, refl, refl)
    | inr none_of_them ↦ ground arith
  ]
]

queue-proves_example :
    Returns
      (Order.run prove_small (dispatch_pending_block (λ _. true) idle_producer).prover_queue)
      (λ _ t. (k : ℕ) → k ≤ 2 → t.rows k ≡ proved_row prove_small k (two_blocks.rows k))
      two_blocks
queue-proves_example =
    queue-proves prove_small idle_producer two_blocks refl refl refl (λ k. refl) refl
      two_blocks-IsProvable

-- One confirmed block whose state has been written.
abbrev confirmed_block : BlockInformation
confirmed_block = record executed_block {
  block_status = BlockStatus.l2_confirmed;
  state = some (record {
    state_root = 5;
    ts_root = 6;
    order_root = 7;
    account_root = 8;
    public_data = some 9;
    public_data_offsets = some (1 ∷ []);
    commitment = none;
  });
  proof = some 101;
}

abbrev one_confirmed : Chain
one_confirmed = record {
  blocks = record { rows = put (λ _. none) 1 confirmed_block; last_block = 1 };
  calls = [];
}

first_of_chain : first_confirmed one_confirmed.blocks ≡ some 1
unfolding first_confirmed
first_of_chain = refl

abbrev takes_calls : List Call → Call → Bool
takes_calls _ _ = true

abbrev is_mined : List Call → Bool
is_mined _ = true

run-IsOf_example :
    ((Submissions.run takes_calls is_mined (77 ∷ 78 ∷ []) one_confirmed).blocks
      ≡ one_confirmed.blocks)
    × All
        (IsOf confirmed_block)
        (Submissions.run takes_calls is_mined (77 ∷ 78 ∷ []) one_confirmed).calls
run-IsOf_example =
    run-IsOf takes_calls is_mined (77 ∷ 78 ∷ []) 1 confirmed_block one_confirmed first_of_chain refl
      tt

-- The job of block 2 is served first, and block 2 has the proof of block 1 then.
serve-IsMade_example : IsMade prove_small two_blocks 101
unfolding Prover.process Prover.prove_current Prover.confirm first_executed ◌>>=◌
serve-IsMade_example =
    serve-IsMade prove_small (2 ∷ []) two_blocks 2 101 (confirmed 101 executed_block)
      (λ j c here. elim (Bool-cases (j == 2)) [ inl two ↦ ground arith | inr other ↦ ground arith ])
      refl refl

contains-dispatch_pending_transaction_example :
    contains 2
      (dispatch_pending_transaction takes_all (record idle_producer {
        tx_status = put (λ _. none) 2 TsStatus.pending;
        last_tx = 2;
      })).seq_queue
    ≡ true
unfolding contains
contains-dispatch_pending_transaction_example =
    contains-dispatch_pending_transaction takes_all
      (record idle_producer { tx_status = put (λ _. none) 2 TsStatus.pending; last_tx = 2 }) 2
