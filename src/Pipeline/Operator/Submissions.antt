-- ===== src/Pipeline/Operator/Submissions.antt =====
-- What the operator submits to the contract.
use zk_obs.Common.{
  All, ℕ, ◌-◌, ◌≡◌, refl, sym, ap, ◌∙◌, Bool, Option, some, List, [], ◌∷◌, ◌++◌, arith,
}
use zk_obs.Common.Action.{Result, ◌>>=◌}
use mathlib.Core.Path.{subst}
use zk_obs.Sequencer.{BlockInformation}
use zk_obs.Pipeline.Prover.{Blocks}
use zk_obs.Pipeline.Operator.{
  Call, commit_blocks, prove_blocks, Chain, first_confirmed, state_root_of, ts_root_of,
  public_data_of, public_data_offsets_of, commitment_of, last_committed_block, commit_block,
  committed_block, send, submit, process,
}

-- The call is about the block.
abbrev pub IsOf : BlockInformation → Call → Type 0
IsOf b (commit_blocks last c) =
    (c.new_state_root ≡ state_root_of b)
    × (c.new_ts_root ≡ ts_root_of b)
    × (c.public_data ≡ public_data_of b)
    × (c.public_data_offsets ≡ public_data_offsets_of b)
IsOf b (prove_blocks stored proof) =
    (stored.state_root ≡ state_root_of b)
    × (stored.commitment ≡ commitment_of b)
    × (proof ≡ b.proof)

All-push :
    {A : Type 0} (P : A → Type 0) (xs : List A) (x : A) → All P xs → P x → All P (xs ++ x ∷ [])
All-push P [] x h p = (p, tt)
All-push P (y ∷ xs) x h p = (h.0, All-push P xs x h.1 p)

abbrev pub commit_call : ℕ → BlockInformation → Option BlockInformation → Call
commit_call now b last = commit_blocks (last_committed_block last) (commit_block now b)

abbrev pub prove_call : ℕ → BlockInformation → Call
prove_call now b = prove_blocks (committed_block b (commit_block now b)) b.proof

module _ (accepts : List Call → Call → Bool) (mined : List Call → Bool) where
  submit-keeps :
      (now : ℕ) (b : BlockInformation) (last : Option BlockInformation) (s : Chain)
      → All (IsOf b) s.calls
      → ((submit accepts mined now b last s).1.blocks ≡ s.blocks)
        × All (IsOf b) (submit accepts mined now b last s).1.calls
  unfolding submit send commit_block committed_block ◌>>=◌
  submit-keeps now b last s all =
      let one : All (IsOf b) (s.calls ++ commit_call now b last ∷ []) =
        All-push (IsOf b) s.calls (commit_call now b last) all (refl, refl, refl, refl) in
      let two : All (IsOf b) ((s.calls ++ commit_call now b last ∷ []) ++ prove_call now b ∷ []) =
        All-push (IsOf b) (s.calls ++ commit_call now b last ∷ []) (prove_call now b) one
          (refl, refl, refl) in
      ground arith

  process-keeps :
      (now k : ℕ) (b : BlockInformation) (s : Chain)
      → first_confirmed s.blocks ≡ some k
      → s.blocks.rows k ≡ some b
      → All (IsOf b) s.calls
      → ((process accepts mined now s).1.blocks ≡ s.blocks)
        × All (IsOf b) (process accepts mined now s).1.calls
  unfolding process
  process-keeps now k b s first row all =
      let e : process accepts mined now s ≡ submit accepts mined now b (s.blocks.rows (k - 1)) s =
        ground arith in
      subst (λ (x : Result Bool × Chain). (x.1.blocks ≡ s.blocks) × All (IsOf b) x.1.calls) (sym e)
        (submit-keeps now b (s.blocks.rows (k - 1)) s all)

  -- The jobs of the queue, at their times. A job that fails does not stop those behind it.
  abbrev pub run : List ℕ → Chain → Chain
  run [] s = s
  run (now ∷ times) s = run times (process accepts mined now s).1

  -- However many jobs the operator gets, and whatever the contract takes, every call that it sends is
  -- about the block that was the first confirmed one at the start, and the block table stays.
  pub run-IsOf :
      (times : List ℕ) (k : ℕ) (b : BlockInformation) (s : Chain)
      → first_confirmed s.blocks ≡ some k
      → s.blocks.rows k ≡ some b
      → All (IsOf b) s.calls
      → ((run times s).blocks ≡ s.blocks) × All (IsOf b) (run times s).calls
  run-IsOf [] k b s first row all = (refl, all)
  run-IsOf (now ∷ times) k b s first row all =
      let t = (process accepts mined now s).1 in
      let (same, all') = process-keeps now k b s first row all in
      let (rest, every) =
        run-IsOf times k b t (ap first_confirmed same ∙ first)
          (ap (λ (x : Blocks). x.rows k) same ∙ row) all' in
      (rest ∙ same, every)

  -- The commitment and the proof of a block, once for each of the times.
  abbrev pub submissions : List ℕ → BlockInformation → Option BlockInformation → List Call
  submissions [] b last = []
  submissions (now ∷ times) b last =
      commit_call now b last ∷ prove_call now b ∷ submissions times b last
