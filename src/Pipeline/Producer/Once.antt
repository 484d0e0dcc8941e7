-- ===== src/Pipeline/Producer/Once.antt =====
-- Which rows get a job, and how often.
use zk_obs.Common.{
  contains, contains-append, ℕ, ◌+◌, ◌-◌, ◌≡◌, ap, ◌∙◌, Bool, ◌&&◌, ◌||◌, some, List, [], ◌∷◌, ◌++◌,
  leb, ltb, ◌==◌, if◌then◌else◌, arith, Bool-cases, ==_iff, Option-cases, inl, inr,
}
use mathlib.Core.List.{append-nil}
use zk_obs.Pipeline.Queries.{
  find, last_of, IsBetween, IsBetween-append, IsBetween-weaken, find-IsBetween, contains-find,
  IsBetween-last_of, contains-last_of,
}
use zk_obs.Pipeline.Producer.{
  Producer, is_pending, is_l2_executed, is_l2_confirmed, add_jobs, dispatch_pending_transaction,
  dispatch_pending_block, dispatch_proved_block, Step, Reach, poll_transactions, poll_blocks,
  poll_proved, tx_inserted, tx_changed, block_changed, here, next,
}

-- The jobs of a queue stand in ascending order of their ids, so that no id has two, and none is
-- above the last id that was dispatched.
pub record IsOnce (p : Producer) : Type 0 where
  pub transactions : IsBetween 1 (p.current_pending_tx_id + 1) p.seq_queue
  pub blocks : IsBetween 1 (p.current_pending_block + 1) p.prover_queue
  pub proved : IsBetween 1 (p.current_proved_block + 1) p.operator_queue

range :
    (cur k last : ℕ)
    → (leb (cur + 1) k && ltb k (cur + 1 + (last - cur))) ≡ (ltb cur k && leb k last)
range cur k last = ground arith

module _ (accepts : ℕ → Bool) where
  add_jobs-IsBetween :
      (lo mid hi : ℕ) (xs queue : List ℕ)
      → IsBetween lo mid queue
      → IsBetween mid hi xs
      → IsBetween lo hi (add_jobs accepts xs queue)
  unfolding add_jobs
  add_jobs-IsBetween lo mid hi [] queue h k =
      rw (← append-nil queue) (IsBetween-append lo mid hi queue [] h k)
  add_jobs-IsBetween lo mid hi (x ∷ xs) queue h k = elim (Bool-cases (accepts x)) [
    | inl taken ↦ rw taken (
        add_jobs-IsBetween lo (x + 1) hi xs (queue ++ x ∷ [])
          (IsBetween-append lo mid (x + 1) queue (x ∷ []) h (k.0, omega arith)) k.1)
    | inr refused ↦ rw refused (
        add_jobs-IsBetween lo mid hi xs queue h
          (IsBetween-weaken mid (x + 1) hi xs (omega (arith, k.0)) k.1))
  ]

  contains-add_jobs :
      (k : ℕ) (xs queue : List ℕ)
      → contains k (add_jobs accepts xs queue) ≡ (contains k queue || (contains k xs && accepts k))
  unfolding add_jobs contains
  contains-add_jobs k [] queue = ground arith
  contains-add_jobs k (x ∷ xs) queue =
      let ih = contains-add_jobs k xs (if accepts x then queue ++ x ∷ [] else queue) in
      let app = contains-append k queue (x ∷ []) in
      elim (Bool-cases (k == x)) [
        | inl same ↦
            let e : accepts k ≡ accepts x = ap accepts ((==_iff k x).0 same) in ground arith
        | inr other ↦ ground arith
      ]

  -- A poll puts the ids between the last one that was dispatched and the new last one.
  polled-IsBetween :
      (matches : ℕ → Bool) (cur count l : ℕ) (queue : List ℕ)
      → IsBetween 1 (cur + 1) queue
      → last_of (find matches (cur + 1) count) ≡ some l
      → IsBetween 1 (l + 1) (add_jobs accepts (find matches (cur + 1) count) queue)
  polled-IsBetween matches cur count l queue h last =
      add_jobs-IsBetween 1 (cur + 1) (l + 1) (find matches (cur + 1) count) queue h (
        IsBetween-last_of (cur + 1) (cur + 1 + count) l (find matches (cur + 1) count)
          (find-IsBetween matches (cur + 1) count) last)

  poll_transactions-IsOnce :
      (p : Producer) → IsOnce p → IsOnce (dispatch_pending_transaction accepts p)
  unfolding dispatch_pending_transaction
  poll_transactions-IsOnce p h =
      let txs =
        find (λ k. is_pending (p.tx_status k)) (p.current_pending_tx_id + 1)
          (p.last_tx - p.current_pending_tx_id) in
      elim (Option-cases (last_of txs)) [
        | inl nothing ↦ rw (nothing, dispatch_pending_transaction) h
        | inr (l, last) ↦
            rw (last, dispatch_pending_transaction)
              (record {
                transactions =
                    polled-IsBetween (λ k. is_pending (p.tx_status k)) p.current_pending_tx_id
                      (p.last_tx - p.current_pending_tx_id) l p.seq_queue h.transactions last;
                blocks = h.blocks;
                proved = h.proved;
              })
      ]

  poll_blocks-IsOnce : (p : Producer) → IsOnce p → IsOnce (dispatch_pending_block accepts p)
  unfolding dispatch_pending_block
  poll_blocks-IsOnce p h =
      let blocks =
        find (λ k. is_l2_executed (p.block_status k)) (p.current_pending_block + 1)
          (p.last_block - p.current_pending_block) in
      elim (Option-cases (last_of blocks)) [
        | inl nothing ↦ rw (nothing, dispatch_pending_block) h
        | inr (l, last) ↦
            rw (last, dispatch_pending_block)
              (record {
                transactions = h.transactions;
                blocks =
                    polled-IsBetween (λ k. is_l2_executed (p.block_status k))
                      p.current_pending_block (p.last_block - p.current_pending_block) l
                      p.prover_queue h.blocks last;
                proved = h.proved;
              })
      ]

  poll_proved-IsOnce : (p : Producer) → IsOnce p → IsOnce (dispatch_proved_block accepts p)
  unfolding dispatch_proved_block
  poll_proved-IsOnce p h =
      let blocks =
        find (λ k. is_l2_confirmed (p.block_status k)) (p.current_proved_block + 1)
          (p.last_block - p.current_proved_block) in
      elim (Option-cases (last_of blocks)) [
        | inl nothing ↦ rw (nothing, dispatch_proved_block) h
        | inr (l, last) ↦
            rw (last, dispatch_proved_block)
              (record {
                transactions = h.transactions;
                blocks = h.blocks;
                proved =
                    polled-IsBetween (λ k. is_l2_confirmed (p.block_status k))
                      p.current_proved_block (p.last_block - p.current_proved_block) l
                      p.operator_queue h.proved last;
              })
      ]

  Step-IsOnce : {p q : Producer} → Step accepts p q → IsOnce p → IsOnce q
  Step-IsOnce (poll_transactions p) h = poll_transactions-IsOnce p h
  Step-IsOnce (poll_blocks p) h = poll_blocks-IsOnce p h
  Step-IsOnce (poll_proved p) h = poll_proved-IsOnce p h
  Step-IsOnce (tx_inserted p k) h = record {
    transactions = h.transactions;
    blocks = h.blocks;
    proved = h.proved;
  }
  Step-IsOnce (tx_changed p k status) h = record {
    transactions = h.transactions;
    blocks = h.blocks;
    proved = h.proved;
  }
  Step-IsOnce (block_changed p k status) h = record {
    transactions = h.transactions;
    blocks = h.blocks;
    proved = h.proved;
  }

  -- Whatever rows come and change between polls that do not overlap, the jobs of each queue stand in
  -- ascending order of their ids, none has two jobs, and none is above the last id dispatched.
  pub Reach-IsOnce : {p q : Producer} → IsOnce p → Reach accepts p q → IsOnce q
  Reach-IsOnce h here = h
  Reach-IsOnce h (next r step) = Step-IsOnce step (Reach-IsOnce h r)

  -- A poll puts a job for each pending transaction above the last one dispatched, if the queue takes
  -- it, and for no other; none that has a job loses it.
  pub contains-dispatch_pending_transaction :
      (p : Producer) (k : ℕ)
      → contains k (dispatch_pending_transaction accepts p).seq_queue ≡ (
          contains k p.seq_queue
          || (ltb p.current_pending_tx_id k
              && leb k p.last_tx
              && is_pending (p.tx_status k)
              && accepts k))
  unfolding dispatch_pending_transaction
  contains-dispatch_pending_transaction p k =
      let cur = p.current_pending_tx_id in
      let count = p.last_tx - cur in
      let matches : ℕ → Bool = λ k. is_pending (p.tx_status k) in
      let txs = find matches (cur + 1) count in
      let found = contains-find matches k (cur + 1) count in
      let added = contains-add_jobs k txs p.seq_queue in
      elim (Option-cases (last_of txs)) [
        | inl nothing ↦
            let empty = contains-last_of k txs nothing in
            rw (nothing, dispatch_pending_transaction)
              (let r = range cur k p.last_tx in ground arith)
        | inr (l, last) ↦
            rw (last, dispatch_pending_transaction)
              (added ∙ (let r = range cur k p.last_tx in ground arith))
      ]
