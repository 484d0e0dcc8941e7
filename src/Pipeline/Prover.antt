-- ===== src/Pipeline/Prover.antt =====
-- backend/ts-prover/src/infrastructure/prover.processor.ts, over the block table of the sequencer.
-- The file of the inputs and the commands of prover-core.ts are one function from the block's name
-- and its inputs to the proof, or the error that the commands end in.
pub mod Order
pub mod Traces
use zk_obs.Common.{ℕ, Bool, true, false, Option, none, some, if◌then◌else◌, ◌==◌}
use zk_obs.Common.Action.{
  Action, Result, ok, err, ◌>>=◌, ◌>>◌, pure, gets, modify, of_result, or_throw, not_found,
}
use zk_obs.Merkle.{put}
use zk_obs.Sequencer
use zk_obs.Sequencer.{BlockStatus, BlockInformation, CircuitInputs}
use zk_obs.Pipeline.Queries.{find_one}

-- The table BlockInformation; no block has a number above the last one.
pub record Blocks : Type 0 where
  pub rows : ℕ → Option BlockInformation
  pub last_block : ℕ

abbrev pub status_of : Option BlockInformation → Option BlockStatus
status_of none = none
status_of (some b) = some b.block_status

abbrev pub is_executed : Option BlockInformation → Bool
is_executed none = false
is_executed (some b) = elim b.block_status [ BlockStatus.l2_executed ↦ true | _ ↦ false ]

-- `findOne({ where: { blockStatus: L2EXECUTED }, order: { blockNumber: 'ASC' } })`
unfoldable pub first_executed : Blocks → Option ℕ
unfolding find_one
first_executed s = find_one (λ k. is_executed (s.rows k)) 1 s.last_block

-- `blockRepository.update({ blockNumber }, { blockStatus: L2CONFIRMED, proof })`: a number without a
-- row updates nothing.
unfoldable pub confirm : ℕ → ℕ → Blocks → Blocks
confirm k proof s = elim (s.rows k) [
  | none ↦ s
  | some b ↦ record s {
    rows = put s.rows k (record b { block_status = Sequencer.l2_confirmed; proof = some proof });
  }
]

module _ (prove : ℕ → CircuitInputs → Result ℕ) where
  -- `process` behind the query: block `current` is the first that is executed.
  unfoldable pub prove_current : ℕ → ℕ → BlockInformation → Action Blocks Bool
  unfolding confirm
  prove_current job current b = elim b.raw_data [
    | none ↦ pure false
    | some inputs ↦ do
      proof ← of_result (prove current inputs)
      modify (confirm job proof)
      pure true
  ]

  -- `process` of the job for block `job`.
  unfoldable pub process : ℕ → Action Blocks Bool
  unfolding prove_current first_executed
  process job s = elim (first_executed s) [
    | none ↦ (ok false, s)
    | some current ↦ elim (s.rows current) [
      | none ↦ (ok false, s)
      | some b ↦ prove_current job current b s
    ]
  ]
