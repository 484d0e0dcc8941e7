-- ===== src/Pipeline/Producer/Missed.antt =====
-- Rows that the dispatcher passes by.
use zk_obs.Common.{contains, ℕ, ◌+◌, ◌-◌, ◌≤◌, ◌≡◌, ◌∙◌, Bool, false, arith, Option-cases, inl, inr}
use zk_obs.Pipeline.Queries.{find, last_of, IsBetween-le, find-IsBetween, IsBetween-last_of}
use zk_obs.Pipeline.Producer.{
  Producer, is_pending, dispatch_pending_transaction, dispatch_pending_block, dispatch_proved_block,
  Step, Reach, poll_transactions, poll_blocks, poll_proved, tx_inserted, tx_changed, block_changed,
  here, next,
}
use zk_obs.Pipeline.Producer.Once.{contains-dispatch_pending_transaction}

-- The transaction's id was passed, and it has no job.
abbrev pub IsMissed : ℕ → Producer → Type 0
IsMissed k p = (k ≤ p.current_pending_tx_id) × (contains k p.seq_queue ≡ false)

module _ (accepts : ℕ → Bool) where
  poll_cursor :
      (p : Producer)
      → p.current_pending_tx_id ≤ (dispatch_pending_transaction accepts p).current_pending_tx_id
  unfolding dispatch_pending_transaction
  poll_cursor p =
      let cur = p.current_pending_tx_id in
      let matches : ℕ → Bool = λ k. is_pending (p.tx_status k) in
      let txs = find matches (cur + 1) (p.last_tx - cur) in
      elim (Option-cases (last_of txs)) [
        | inl nothing ↦ rw (nothing, dispatch_pending_transaction) (omega arith)
        | inr (l, last) ↦
            let between =
              IsBetween-last_of (cur + 1) (cur + 1 + (p.last_tx - cur)) l txs
                (find-IsBetween matches (cur + 1) (p.last_tx - cur)) last in
            let le = IsBetween-le (cur + 1) (l + 1) txs between in
            rw (last, dispatch_pending_transaction) (omega arith)
      ]

  poll_transactions-IsMissed :
      (p : Producer) (k : ℕ) → IsMissed k p → IsMissed k (dispatch_pending_transaction accepts p)
  poll_transactions-IsMissed p k h = (
    omega (arith, h.0, poll_cursor p),
    contains-dispatch_pending_transaction accepts p k ∙ ground (arith, h.0, h.1),
  )

  poll_blocks-IsMissed :
      (p : Producer) (k : ℕ) → IsMissed k p → IsMissed k (dispatch_pending_block accepts p)
  unfolding dispatch_pending_block
  poll_blocks-IsMissed p k h = ground arith

  poll_proved-IsMissed :
      (p : Producer) (k : ℕ) → IsMissed k p → IsMissed k (dispatch_proved_block accepts p)
  unfolding dispatch_proved_block
  poll_proved-IsMissed p k h = ground arith

  Step-IsMissed : (k : ℕ) {p q : Producer} → Step accepts p q → IsMissed k p → IsMissed k q
  Step-IsMissed k (poll_transactions p) h = poll_transactions-IsMissed p k h
  Step-IsMissed k (poll_blocks p) h = poll_blocks-IsMissed p k h
  Step-IsMissed k (poll_proved p) h = poll_proved-IsMissed p k h
  Step-IsMissed k (tx_inserted p j) h = h
  Step-IsMissed k (tx_changed p j status) h = h
  Step-IsMissed k (block_changed p j status) h = h

  -- A transaction without a job whose id is not above the last one dispatched never gets a job,
  -- whatever rows come and change and however often the service polls.
  pub Reach-IsMissed : (k : ℕ) {p q : Producer} → IsMissed k p → Reach accepts p q → IsMissed k q
  Reach-IsMissed k h here = h
  Reach-IsMissed k h (next r step) = Step-IsMissed k step (Reach-IsMissed k h r)
