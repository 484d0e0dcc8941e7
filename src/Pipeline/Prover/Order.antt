-- ===== src/Pipeline/Prover/Order.antt =====
-- Which block gets which proof.
use zk_obs.Common.{
  ℕ, zero, suc, ◌+◌, ◌≤◌, ◌<◌, ◌≡◌, refl, sym, ap, ◌∙◌, Bool, true, false, Option, none, some, List,
  [], ◌∷◌, ◌++◌, ◌-◌, Option-cases, ◌==◌, if◌then◌else◌, arith, Bool-cases, ==_iff, inl, inr,
}
use zk_obs.Common.Action.{
  Action, Result, ok, err, Returns, Returns-bind, Holds, Holds-map, ◌>>=◌, ◌>>◌, pure,
}
use mathlib.Core.Path.{subst}
use zk_obs.Merkle.{put}
use zk_obs.Sequencer
use zk_obs.Sequencer.{BlockStatus, BlockInformation, CircuitInputs}
use zk_obs.Pipeline.Queries.{find, last_of, empty-last_of, find_one-first, find_cong}
use mathlib.Core.List.{append-nil, append_assoc}
use zk_obs.Pipeline.Producer.{Producer, add_jobs, dispatch_pending_block, is_l2_executed}
use zk_obs.Pipeline.Prover.{
  status_of, Blocks, is_executed, first_executed, confirm, prove_current, process,
}

abbrev pub confirmed : ℕ → BlockInformation → BlockInformation
confirmed proof b = record b { block_status = Sequencer.l2_confirmed; proof = some proof }

module _ (prove : ℕ → CircuitInputs → Result ℕ) where
  -- The round that the jobs of a queue repeat.
  process-confirms :
      (job current proof : ℕ) (b c : BlockInformation) (inputs : CircuitInputs) (s : Blocks)
      → first_executed s ≡ some current
      → s.rows current ≡ some c
      → c.raw_data ≡ some inputs
      → prove current inputs ≡ ok proof
      → s.rows job ≡ some b
      → process prove job s ≡ (ok true, record s { rows = put s.rows job (confirmed proof b) })
  unfolding process prove_current confirm ◌>>=◌
  process-confirms job current proof b c inputs s first row raw made own = ground arith

  -- The jobs of a queue, one after the other.
  abbrev pub run : List ℕ → Action Blocks (Unit {0})
  run [] = pure tt
  run (k ∷ ks) = process prove k >> run ks

  -- A row after the prover has come by: an executed block is confirmed with the proof of its inputs.
  abbrev proved_block : ℕ → BlockInformation → BlockInformation
  proved_block k b = elim b.raw_data [
    | none ↦ b
    | some inputs ↦ elim (prove k inputs) [ ok proof ↦ confirmed proof b | err e ↦ b ]
  ]

  abbrev pub proved_row : ℕ → Option BlockInformation → Option BlockInformation
  proved_row k none = none
  proved_row k (some b) = if is_executed (some b) then some (proved_block k b) else some b

  -- The row's block has inputs, of which a proof can be made.
  abbrev pub IsProvable : ℕ → Option BlockInformation → Type 0
  IsProvable k none = ⊥
  IsProvable k (some b) =
      (inputs : CircuitInputs) × (proof : ℕ) × (b.raw_data ≡ some inputs)
      × (prove k inputs ≡ ok proof)

  abbrev paired : Blocks → Result Bool × Blocks
  paired s = (ok true, s)

  idle_row : (k : ℕ) (o : Option BlockInformation) → is_executed o ≡ false → proved_row k o ≡ o
  idle_row k none idle = refl
  idle_row k (some b) idle = rw idle refl

  proved_row-idle :
      (k : ℕ) (o : Option BlockInformation)
      → is_executed o ≡ true
      → IsProvable k o
      → is_executed (proved_row k o) ≡ false
  proved_row-idle k none here able = refl
  proved_row-idle k (some b) here (inputs, proof, raw, made) = ground arith

  process_next :
      (k : ℕ) (o : Option BlockInformation) (s : Blocks)
      → s.rows k ≡ o
      → is_executed o ≡ true
      → IsProvable k o
      → first_executed s ≡ some k
      → process prove k s
        ≡ (ok true, record s { rows = λ j. if j == k then proved_row k o else s.rows j })
  process_next k none s row here able first = cc
  process_next k (some b) s row here (inputs, proof, raw, made) first =
      process-confirms k k proof b b inputs s first row raw made row
      ∙ (let e : proved_row k (some b) ≡ some (confirmed proof b) = ground arith in
          ap
            (λ (o : Option BlockInformation).
              paired (record s { rows = λ j. if j == k then o else s.rows j }))
            (sym e))

  up_to :
      (start k : ℕ) (p : ℕ → Bool)
      → ((j : ℕ) → j < start → p j ≡ false)
      → p start ≡ false
      → k < start + 1
      → p k ≡ false
  up_to start k p before idle lt = elim (Bool-cases (k == start)) [
    | inl same ↦ ap p ((==_iff k start).0 same) ∙ idle
    | inr other ↦ before k (ground arith)
  ]

  more :
      (start count : ℕ) (s u : Blocks) (m : Action Blocks (Unit {0}))
      → Returns m (λ _ t. (k : ℕ) → k < start + 1 + count → t.rows k ≡ proved_row k (s.rows k)) u
      → Returns m (λ _ t. (k : ℕ) → k < start + suc count → t.rows k ≡ proved_row k (s.rows k)) u
  more start count s u m h =
      let e : start + 1 + count ≡ start + suc count = omega arith in
      subst (λ (n : ℕ). Returns m (λ _ t. (k : ℕ) → k < n → t.rows k ≡ proved_row k (s.rows k)) u) e
        h

  abbrev stepped : ℕ → Option BlockInformation → Blocks → Blocks
  stepped start o s = record s { rows = λ j. if j == start then proved_row start o else s.rows j }

  later_able :
      (start k : ℕ) (s : Blocks)
      → is_executed (s.rows start) ≡ true
      → ((k : ℕ) → is_executed (s.rows k) ≡ true → IsProvable k (s.rows k))
      → is_executed ((stepped start (s.rows start) s).rows k) ≡ true
      → IsProvable k ((stepped start (s.rows start) s).rows k)
  later_able start k s here able ex =
      let row : Bool → Option BlockInformation =
        λ c. if c then proved_row start (s.rows start) else s.rows k in
      elim (Bool-cases (k == start)) [
        | inl same ↦
            let done = proved_row-idle start (s.rows start) here (able start here) in
            let again : is_executed (row true) ≡ true =
              ap (λ c. is_executed (row c)) (sym same) ∙ ex in
            absurd (cc (done, again))
        | inr other ↦ rw other (able k (ap (λ c. is_executed (row c)) (sym other) ∙ ex))
      ]

  stepped_row :
      (start k : ℕ) (s : Blocks)
      → is_executed (s.rows start) ≡ true
      → IsProvable start (s.rows start)
      → proved_row k ((stepped start (s.rows start) s).rows k) ≡ proved_row k (s.rows k)
  stepped_row start k s here able = elim (Bool-cases (k == start)) [
    | inl same ↦
        let e : k ≡ start = (==_iff k start).0 same in
        let done = proved_row-idle start (s.rows start) here able in
        rw same (
          idle_row k (proved_row start (s.rows start)) done
          ∙ ap (λ (j : ℕ). proved_row j (s.rows j)) (sym e))
    | inr other ↦ rw other refl
  ]

  -- The first job is done, and then the others.
  run_step :
      (start count : ℕ) (s : Blocks)
      → is_executed (s.rows start) ≡ true
      → IsProvable start (s.rows start)
      → first_executed s ≡ some start
      → Returns
          (run
            (find (λ k. is_executed ((stepped start (s.rows start) s).rows k)) (start + 1) count))
          (λ _ t.
            (k : ℕ)
            → k < start + 1 + count
            → t.rows k ≡ proved_row k ((stepped start (s.rows start) s).rows k))
          (stepped start (s.rows start) s)
      → Returns
          (process prove start >> run (find (λ k. is_executed (s.rows k)) (start + 1) count))
          (λ _ t. (k : ℕ) → k < start + suc count → t.rows k ≡ proved_row k (s.rows k))
          s
  run_step start count s here able first ih =
      let u = stepped start (s.rows start) s in
      let ks = find (λ k. is_executed (s.rows k)) (start + 1) count in
      let Q : Unit {0} → Blocks → Type 0 =
        λ _ t. (k : ℕ) → k < start + 1 + count → t.rows k ≡ proved_row k (u.rows k) in
      let P : Unit {0} → Blocks → Type 0 =
        λ _ t. (k : ℕ) → k < start + suc count → t.rows k ≡ proved_row k (s.rows k) in
      let same =
        find_cong (λ k. is_executed (u.rows k)) (λ k. is_executed (s.rows k)) (start + 1) count
          (λ k le. let other : (k == start) ≡ false = ground arith in rw other refl) in
      let rest : Returns (run ks) Q u = subst (λ (js : List ℕ). Returns (run js) Q u) same ih in
      let done = process_next start (s.rows start) s refl here able first in
      let (r, t) = run ks u in
      let rest' : Returns (run ks) P u =
        Holds-map Q P r t t rest
          (λ _ q k lt. q k (omega arith) ∙ stepped_row start k s here able) in
      Returns-bind (process prove start) (λ _. run ks) (λ _ t. t ≡ u) P s
        (subst (λ (x : Result Bool × Blocks). Holds (λ _ t. t ≡ u) x.0 x.1) (sym done) refl)
        λ _ t e. subst (λ (v : Blocks). Returns (run ks) P v) (sym e) rest'

  -- The blocks from `start` on are proved one after the other.
  run-find :
      (start count : ℕ) (s : Blocks)
      → 0 < start
      → start + count ≡ s.last_block + 1
      → ((k : ℕ) → k < start → is_executed (s.rows k) ≡ false)
      → ((k : ℕ) → is_executed (s.rows k) ≡ true → IsProvable k (s.rows k))
      → Returns
          (run (find (λ k. is_executed (s.rows k)) start count))
          (λ _ t. (k : ℕ) → k < start + count → t.rows k ≡ proved_row k (s.rows k))
          s
  unfolding find first_executed
  run-find start zero s pos end before able =
      λ k lt. sym (idle_row k (s.rows k) (before k (omega arith)))
  run-find start (suc count) s pos end before able =
      elim (Bool-cases (is_executed (s.rows start))) [
        | inr idle ↦
            let ih =
              run-find (start + 1) count s (omega arith) (omega arith)
                (λ k lt. up_to start k (λ j. is_executed (s.rows j)) before idle lt) able in
            rw idle
              (more start count s s (run (find (λ k. is_executed (s.rows k)) (start + 1) count)) ih)
        | inl here ↦
            let o = s.rows start in
            let s' : Blocks = record s {
              rows = λ j. if j == start then proved_row start o else s.rows j;
            } in
            let done = proved_row-idle start o here (able start here) in
            let first =
              find_one-first (λ k. is_executed (s.rows k)) 1 s.last_block start (omega arith)
                (omega arith) here (λ j le lt. before j lt) in
            let ih =
              run-find (start + 1) count s' (omega arith) (omega arith)
                (λ k lt. elim (Bool-cases (k == start)) [
                  | inl same ↦ rw same done
                  | inr other ↦ rw other (before k (ground arith))
                ])
                (λ k ex. later_able start k s here able ex) in
            rw here (run_step start count s here (able start here) first ih)
      ]

  same_test : (o : Option BlockInformation) → is_l2_executed (status_of o) ≡ is_executed o
  same_test none = refl
  same_test (some b) = ground arith

  all_taken : (xs queue : List ℕ) → add_jobs (λ _. true) xs queue ≡ queue ++ xs
  unfolding add_jobs
  all_taken [] queue = sym (append-nil queue)
  all_taken (x ∷ xs) queue = all_taken xs (queue ++ x ∷ []) ∙ append_assoc queue (x ∷ []) xs

  first_queue :
      (p : Producer) (s : Blocks)
      → p.current_pending_block ≡ 0
      → p.prover_queue ≡ []
      → p.last_block ≡ s.last_block
      → ((k : ℕ) → p.block_status k ≡ status_of (s.rows k))
      → (dispatch_pending_block (λ _. true) p).prover_queue
        ≡ find (λ k. is_executed (s.rows k)) 1 s.last_block
  unfolding dispatch_pending_block
  first_queue p s zero_cur empty last same =
      let matches : ℕ → Bool = λ k. is_l2_executed (p.block_status k) in
      let executed : ℕ → Bool = λ k. is_executed (s.rows k) in
      let cur = p.current_pending_block in
      let xs = find matches (cur + 1) (p.last_block - cur) in
      let e : xs ≡ find executed 1 s.last_block =
        ap (λ (c : ℕ). find matches (c + 1) (p.last_block - c)) zero_cur
        ∙ (ap (find matches 1) (omega (arith, last))
            ∙ find_cong matches executed 1 s.last_block
                (λ k _. ap is_l2_executed (same k) ∙ same_test (s.rows k))) in
      elim (Option-cases (last_of xs)) [
        | inl nothing ↦
            rw (nothing, dispatch_pending_block) (empty ∙ (sym (empty-last_of xs nothing) ∙ e))
        | inr (l, found) ↦
            rw (found, dispatch_pending_block)
              (all_taken xs p.prover_queue ∙ (ap (λ (q : List ℕ). q ++ xs) empty ∙ e))
      ]

  -- The dispatcher's first poll puts the executed blocks into a queue that takes every job. Where each
  -- of them has inputs of which a proof can be made, the prover returns from all these jobs, one after
  -- the other, and then each executed block is confirmed with the proof of its own inputs, and the
  -- other blocks are as they were.
  pub queue-proves :
      (p : Producer) (s : Blocks)
      → p.current_pending_block ≡ 0
      → p.prover_queue ≡ []
      → p.last_block ≡ s.last_block
      → ((k : ℕ) → p.block_status k ≡ status_of (s.rows k))
      → is_executed (s.rows 0) ≡ false
      → ((k : ℕ) → is_executed (s.rows k) ≡ true → IsProvable k (s.rows k))
      → Returns
          (run (dispatch_pending_block (λ _. true) p).prover_queue)
          (λ _ t. (k : ℕ) → k ≤ s.last_block → t.rows k ≡ proved_row k (s.rows k))
          s
  queue-proves p s zero_cur empty last same none_zero able =
      let P : Unit {0} → Blocks → Type 0 =
        λ _ t. (k : ℕ) → k < 1 + s.last_block → t.rows k ≡ proved_row k (s.rows k) in
      let Q : Unit {0} → Blocks → Type 0 =
        λ _ t. (k : ℕ) → k ≤ s.last_block → t.rows k ≡ proved_row k (s.rows k) in
      let ks = find (λ k. is_executed (s.rows k)) 1 s.last_block in
      let h : Returns (run ks) P s =
        run-find 1 s.last_block s (omega arith) (omega arith)
          (λ k lt. let e : k ≡ 0 = omega arith in ap (λ j. is_executed (s.rows j)) e ∙ none_zero)
          able in
      let (r, t) = run ks s in
      subst (λ (js : List ℕ). Returns (run js) Q s) (sym (first_queue p s zero_cur empty last same))
        (Holds-map P Q r t t h λ _ all k le. all k (omega arith))
