-- ===== src/Pipeline/Producer.antt =====
-- backend/ts-core/src/producer.service.ts: every few seconds the rows that are new are put into the
-- queue of the next service.
pub mod Once
pub mod Missed
use zk_obs.Common.{
  ℕ, ◌+◌, ◌-◌, Bool, true, false, Option, none, some, List, [], ◌∷◌, ◌++◌, ltb, ◌==◌, if◌then◌else◌,
}
use zk_obs.Merkle.{put}
use zk_obs.Sequencer
use zk_obs.Sequencer.{TsStatus, BlockStatus}
use zk_obs.Pipeline.Queries.{find, last_of}

-- The fields of the service, the columns that it reads, and the queues by the id in their jobs. A
-- row is there where it has a status, and no key is above the last one.
pub record Producer : Type 0 where
  pub current_pending_tx_id : ℕ
  pub current_pending_block : ℕ
  pub current_proved_block : ℕ
  pub tx_status : ℕ → Option TsStatus
  pub last_tx : ℕ
  pub block_status : ℕ → Option BlockStatus
  pub last_block : ℕ
  pub seq_queue : List ℕ
  pub prover_queue : List ℕ
  pub operator_queue : List ℕ

abbrev pub is_pending : Option TsStatus → Bool
is_pending (some Sequencer.pending) = true
is_pending _ = false

abbrev pub is_l2_executed : Option BlockStatus → Bool
is_l2_executed (some (BlockStatus.l2_executed)) = true
is_l2_executed _ = false

abbrev pub is_l2_confirmed : Option BlockStatus → Bool
is_l2_confirmed (some (BlockStatus.l2_confirmed)) = true
is_l2_confirmed _ = false

-- The queue of BullMQ: whether it takes the job of an id.
module _ (accepts : ℕ → Bool) where
  -- The loop over the rows; a job that is refused is logged and left behind.
  unfoldable pub add_jobs : List ℕ → List ℕ → List ℕ
  add_jobs [] queue = queue
  add_jobs (x ∷ xs) queue = add_jobs xs (if accepts x then queue ++ x ∷ [] else queue)

  -- `dispatchPendingTransaction`
  unfoldable pub dispatch_pending_transaction : Producer → Producer
  unfolding find last_of add_jobs
  dispatch_pending_transaction p =
      let transactions =
        find (λ k. is_pending (p.tx_status k)) (p.current_pending_tx_id + 1)
          (p.last_tx - p.current_pending_tx_id) in
      elim (last_of transactions) [
        | none ↦ p
        | some last ↦ record p {
          current_pending_tx_id = last;
          seq_queue = add_jobs transactions p.seq_queue;
        }
      ]

  -- `dispatchPeningBlock`
  unfoldable pub dispatch_pending_block : Producer → Producer
  unfolding find last_of add_jobs
  dispatch_pending_block p =
      let blocks =
        find (λ k. is_l2_executed (p.block_status k)) (p.current_pending_block + 1)
          (p.last_block - p.current_pending_block) in
      elim (last_of blocks) [
        | none ↦ p
        | some last ↦ record p {
          current_pending_block = last;
          prover_queue = add_jobs blocks p.prover_queue;
        }
      ]

  -- `dispatchProvedBlock`
  unfoldable pub dispatch_proved_block : Producer → Producer
  unfolding find last_of add_jobs
  dispatch_proved_block p =
      let blocks =
        find (λ k. is_l2_confirmed (p.block_status k)) (p.current_proved_block + 1)
          (p.last_block - p.current_proved_block) in
      elim (last_of blocks) [
        | none ↦ p
        | some last ↦ record p {
          current_proved_block = last;
          operator_queue = add_jobs blocks p.operator_queue;
        }
      ]

  -- What happens to the tables and the queues: a poll of the service that no other poll overlaps, a
  -- new row, which gets any free key, and a change of a row's status by another service.
  pub data Step : Producer → Producer → Type 0 where
    poll_transactions : (p : Producer) → Step p (dispatch_pending_transaction p)
    poll_blocks : (p : Producer) → Step p (dispatch_pending_block p)
    poll_proved : (p : Producer) → Step p (dispatch_proved_block p)
    tx_inserted :
        (p : Producer) (k : ℕ)
        → Step p (record p {
          tx_status = put p.tx_status k TsStatus.pending;
          last_tx = if ltb p.last_tx k then k else p.last_tx;
        })
    tx_changed :
        (p : Producer) (k : ℕ) (status : TsStatus)
        → Step p (record p { tx_status = put p.tx_status k status })
    block_changed :
        (p : Producer) (k : ℕ) (status : BlockStatus)
        → Step p (record p {
          block_status = put p.block_status k status;
          last_block = if ltb p.last_block k then k else p.last_block;
        })

  pub data Reach (p : Producer) : Producer → Type 0 where
    here : Reach p p
    next : {q r : Producer} → Reach p q → Step q r → Reach p r
