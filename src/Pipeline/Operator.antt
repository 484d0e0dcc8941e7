-- ===== src/Pipeline/Operator.antt =====
-- backend/ts-operator/src/infrastructure/operator.processor.ts, over the block table of the
-- sequencer. The contract is a parameter: whether it takes a call after those that it has taken, and
-- whether the last one is mined.
pub mod Submissions
use zk_obs.Common.{
  ℕ, ◌-◌, Bool, true, false, not, Option, none, some, List, [], ◌∷◌, ◌++◌, ◌==◌, if◌then◌else◌,
}
use zk_obs.Common.Action.{Action, call_rejected, ok, ◌>>=◌, ◌>>◌, pure, gets, modify, throw_if}
use zk_obs.Sequencer
use zk_obs.Sequencer.{BlockStatus, BlockInformation}
use zk_obs.Pipeline.Queries.{find_one}
use zk_obs.Pipeline.Prover.{Blocks}

-- ZkOBS.StoredBlockStruct. `none` is what is `undefined`; the hashes that are constants are left out.
pub record StoredBlock : Type 0 where
  pub block_number : ℕ
  pub state_root : Option ℕ
  pub l1_request_num : ℕ
  pub commitment : Option ℕ
  pub timestamp : ℕ

-- ZkOBS.CommitBlockStruct
pub record CommitBlock : Type 0 where
  pub block_number : ℕ
  pub new_state_root : Option ℕ
  pub new_ts_root : Option ℕ
  pub public_data : Option ℕ
  pub public_data_offsets : Option (List ℕ)
  pub timestamp : ℕ

pub data Call : Type 0 where
  commit_blocks : StoredBlock → CommitBlock → Call
  prove_blocks : StoredBlock → Option ℕ → Call

pub record Chain : Type 0 where
  pub blocks : Blocks
  pub calls : List Call

-- `ORIGIN_STATE_ROOT`
abbrev pub origin_state_root : ℕ
origin_state_root = 0x129b0bfeab0e3dc519a0c9bb5aa952bb78864afab97b0e009719ebdc42ba371f

abbrev pub is_confirmed : Option BlockInformation → Bool
is_confirmed none = false
is_confirmed (some b) = elim b.block_status [ BlockStatus.l2_confirmed ↦ true | _ ↦ false ]

-- `findOne({ where: { blockStatus: L2CONFIRMED }, order: { blockNumber: 'ASC' } })`
unfoldable pub first_confirmed : Blocks → Option ℕ
unfolding find_one
first_confirmed s = find_one (λ k. is_confirmed (s.rows k)) 1 s.last_block

-- A field of `state`, which is `{}` where nothing has been written.
abbrev pub state_root_of : BlockInformation → Option ℕ
state_root_of b = elim b.state [ none ↦ none | some t ↦ some t.state_root ]

abbrev pub ts_root_of : BlockInformation → Option ℕ
ts_root_of b = elim b.state [ none ↦ none | some t ↦ some t.ts_root ]

abbrev pub public_data_of : BlockInformation → Option ℕ
public_data_of b = elim b.state [ none ↦ none | some t ↦ t.public_data ]

abbrev pub public_data_offsets_of : BlockInformation → Option (List ℕ)
public_data_offsets_of b = elim b.state [ none ↦ none | some t ↦ t.public_data_offsets ]

abbrev pub commitment_of : BlockInformation → Option ℕ
commitment_of b = elim b.state [ none ↦ none | some t ↦ t.commitment ]

-- `lastBlock?.state.stateRoot || ORIGIN_STATE_ROOT`
unfoldable pub last_state_root : Option BlockInformation → ℕ
last_state_root none = origin_state_root
last_state_root (some b) = elim (state_root_of b) [ none ↦ origin_state_root | some r ↦ r ]

unfoldable pub last_committed_block : Option BlockInformation → StoredBlock
unfolding last_state_root
last_committed_block last = record {
  block_number = 0;
  state_root = some (last_state_root last);
  l1_request_num = 0;
  commitment = some 0;
  timestamp = 0;
}

unfoldable pub commit_block : ℕ → BlockInformation → CommitBlock
commit_block now b = record {
  block_number = 1;
  new_state_root = state_root_of b;
  new_ts_root = ts_root_of b;
  public_data = public_data_of b;
  public_data_offsets = public_data_offsets_of b;
  timestamp = now;
}

unfoldable pub committed_block : BlockInformation → CommitBlock → StoredBlock
committed_block b c = record {
  block_number = c.block_number;
  state_root = c.new_state_root;
  l1_request_num = 2;
  commitment = commitment_of b;
  timestamp = c.timestamp;
}

module _ (accepts : List Call → Call → Bool) (mined : List Call → Bool) where
  -- A call of the contract.
  unfoldable pub send : Call → Action Chain (Unit {0})
  send c = do
    calls ← gets (λ s. s.calls)
    throw_if (not (accepts calls c)) call_rejected
    modify (λ s. record s { calls = s.calls ++ c ∷ [] })

  -- `process` behind the queries, at the time `now`.
  unfoldable pub submit : ℕ → BlockInformation → Option BlockInformation → Action Chain Bool
  unfolding send last_committed_block commit_block committed_block
  submit now current last = do
    let commit = commit_block now current
    send (commit_blocks (last_committed_block last) commit)
    send (prove_blocks (committed_block current commit) current.proof)
    calls ← gets (λ s. s.calls)
    throw_if (not (mined calls)) call_rejected
    pure true

  -- `process` of a job at the time `now`; the id in the job is only logged.
  unfoldable pub process : ℕ → Action Chain Bool
  unfolding submit first_confirmed
  process now s = elim (first_confirmed s.blocks) [
    | none ↦ (ok false, s)
    | some k ↦ elim (s.blocks.rows k) [
      | none ↦ (ok false, s)
      | some current ↦ submit now current (s.blocks.rows (k - 1)) s
    ]
  ]
