-- ===== src/Ledger/Blocks.antt =====
-- How `doTransaction` and `endRollup` close a block with each other.
use zk_obs.Common.{
  ℕ, suc, ◌+◌, ◌-◌, ◌≡◌, refl, sym, ap, ◌∙◌, Option, some, arith, length, leb, if◌then◌else◌,
}
use zk_obs.Common.Action.{
  Action, Result, Holds, Ends, Runs, Refused, Returns, then-Ends, known-Ends, Refused-bind, ok,
  type_error, ◌>>=◌, ◌>>◌, pure,
}
use mathlib.Core.Path.{subst}
use zk_obs.Sequencer
use zk_obs.Sequencer.{
  Sequencer, Env, RollupStatus, TxLog, TsStatus, BlockInformation, CircuitInputs, running, idle,
  on_trees,
}
use zk_obs.Transaction.{TransactionInfo}
use zk_obs.Trees.{Trees}
use zk_obs.Sequencer.Rollup.{
  add_account_root_flow, add_order_root_flow, ensure_rollup, close_block, dispatch, do_transaction,
  end_rollup, fill_block, tx_noop, flush_block,
}
use zk_obs.Merkle.{put}
use zk_obs.Ledger.{Ledger}
use zk_obs.Ledger.Roots.{account_root-Runs, order_root-Runs, state_root-Runs}
use zk_obs.Ledger.Points.{rest_of, length-push}
use zk_obs.Ledger.Requests.{IsReady, Outcome}
use zk_obs.Sequencer.Orders.{update_order_row}
use zk_obs.Common.{Option-cases, inl, inr}

-- What the handling of requests leaves alone: the number of the block, and the statuses of requests.
pub record Frame : Type 0 where
  pub number : ℕ
  pub statuses : ℕ → TsStatus

-- The block is open, with `n` requests in it.
abbrev pub IsFilling : ℕ → Frame → BlockInformation → Sequencer → Type 0
IsFilling n k b s =
    IsReady s
    × (s.rollup_status ≡ running)
    × (length s.current_tx_logs ≡ n)
    × (s.new_block_number ≡ k.number)
    × (s.blocks k.number ≡ some b)
    × (s.tx_status ≡ k.statuses)

abbrev IsIdle : ℕ → Frame → Sequencer → Type 0
IsIdle n k s =
    (s.rollup_status ≡ idle) × (length s.current_tx_logs ≡ n) × (s.tx_status ≡ k.statuses)

-- The block is saved as executed, and no request is in the next one.
abbrev pub IsClosed : Frame → Sequencer → Type 0
IsClosed k s =
    (s.rollup_status ≡ idle)
    × (length s.current_tx_logs ≡ 0)
    × (s.tx_status ≡ k.statuses)
    × ((b : BlockInformation) × (s.blocks k.number ≡ some b)
        × (b.block_status ≡ Sequencer.l2_executed))

-- What a handler leaves alone of the state: the second is the first but for fields that no block
-- reads, such as the taker order on hold or the rows of the requests.
abbrev pub KeepsBlock : Sequencer → Sequencer → Type 0
KeepsBlock s r =
    (r.rollup_status ≡ s.rollup_status)
    × (r.current_tx_logs ≡ s.current_tx_logs)
    × (r.new_block_number ≡ s.new_block_number)
    × (r.blocks ≡ s.blocks)
    × (r.tx_status ≡ s.tx_status)

-- The row of a placed order.
pub update_order_row-KeepsBlock :
    (tx_id order_id : ℕ) (s : Sequencer)
    → KeepsBlock s (update_order_row tx_id order_id (rest_of s))
unfolding update_order_row
update_order_row-KeepsBlock tx_id order_id s = elim (Option-cases (s.order_row_leaf_id tx_id)) [
  | inl none_yet ↦ ground arith
  | inr (row, here) ↦ ground arith
]

put_same : {A : Type 0} (m : ℕ → Option A) (k : ℕ) (a : A) → put m k a k ≡ some a
put_same m k a = ground arith

module _ (env : Env) where
  -- A handler's outcome adds one request to the block.
  pub IsFilling-of_Outcome :
      (n : ℕ) (k : Frame) (b : BlockInformation) (s r : Sequencer) (l : Ledger) (log : TxLog)
      (s' : Sequencer)
      → IsFilling n k b s
      → KeepsBlock s r
      → Outcome r l log s'
      → IsFilling (n + 1) k b s'
  IsFilling-of_Outcome n k b s r l log s' (_, run, len, num, row, kept) (k0, k1, k2, k3, k4)
        (_, same, ready) =
      (
        ready,
        ap (λ (x : Sequencer). x.rollup_status) same ∙ (k0 ∙ run),
        ap (λ (x : Sequencer). length x.current_tx_logs) same
            ∙ (length-push log r.current_tx_logs ∙ omega (arith, ap length k1, len)),
        ap (λ (x : Sequencer). x.new_block_number) same ∙ (k2 ∙ num),
        ap (λ (x : Sequencer). x.blocks k.number) same ∙ (ap (λ f. f k.number) k3 ∙ row),
        ap (λ (x : Sequencer). x.tx_status) same ∙ (k4 ∙ kept),
      )

  -- Of a full block.
  pub close_block-Runs :
      (k : Frame) (b : BlockInformation)
      → Runs
          (λ s. (length s.current_tx_logs ≡ 10) × (s.tx_status ≡ k.statuses))
          (close_block env k.number b)
          (IsClosed k)
  unfolding close_block flush_block
  close_block-Runs k b =
      let keeps : (s : Sequencer) (x : Trees) → IsIdle 0 k s → IsIdle 0 k (record s { trees = x }) =
        λ s x p. p in
      let I = IsIdle 10 k in
      let J = IsIdle 0 k in
      let V : Result CircuitInputs → Sequencer → Type 0 = Holds (λ _ s. IsClosed k s) in
      then-Ends _ _ (λ s. (length s.current_tx_logs ≡ 10) × (s.tx_status ≡ k.statuses)) I V
        (λ s p. (refl, p.0, p.1))
        λ _.
          known-Ends 10 _ _ I I V (λ s p. (p.1, p))
            (then-Ends _ _ I I V (λ s p. p)
              λ _.
                then-Ends _ _ I I V (λ s p. p)
                  λ _.
                    then-Ends _ _ I I V (λ s p. p)
                      λ _.
                        then-Ends _ _ I J V (λ s p. (p.0, refl, p.2))
                          λ _. then-Ends _ _ J J V (state_root-Runs env J keeps) λ _.
                            then-Ends _ _ J J V (order_root-Runs env J keeps) λ _.
                              then-Ends _ _ J J V (λ s p. p)
                                λ _. then-Ends _ _ J J V (account_root-Runs env J keeps) λ _.
                                  then-Ends _ _ J J V (order_root-Runs env J keeps) λ _.
                                    then-Ends _ _ J (IsClosed k) V
                                      (λ s p.
                                        (p.0, p.1, p.2, (_, put_same s.blocks k.number _, refl)))
                                      λ _ s p. p)

  -- Of a block that is closed already.
  pub close_block-Refused :
      (k : Frame) (b : BlockInformation)
      → Ends (IsClosed k) (close_block env k.number b) (Refused type_error (IsClosed k))
  unfolding close_block
  close_block-Refused k b =
      let C = IsClosed k in
      let V : Result CircuitInputs → Sequencer → Type 0 = Refused type_error C in
      then-Ends _ _ C C V (λ s p. (refl, p.1, p.2, p.3))
        λ _.
          known-Ends 0 _ _ C C V (λ s p. (p.1, p))
            (Refused-bind _ _ type_error C C (λ s p. (refl, p)))

  pub end_rollup-Ends :
      (n : ℕ) (k : Frame) (b : BlockInformation) (noop : Action Sequencer TxLog)
      (V : Result CircuitInputs → Sequencer → Type 0)
      → Ends (IsFilling n k b) (fill_block env noop (10 - n) >> close_block env k.number b) V
      → Ends (IsFilling n k b) (end_rollup env noop) V
  unfolding end_rollup
  end_rollup-Ends n k b noop V h =
      let P = IsFilling n k b in
      known-Ends k.number _ _ P P V (λ s p. (p.3, p))
        (known-Ends (some b) _ _ P P V (λ s p. (p.4, p))
          (known-Ends b _ _ P P V (λ s p. (refl, p)) (known-Ends n _ _ P P V (λ s p. (p.2, p)) h)))

  ensure_rollup-eq : (s : Sequencer) → s.rollup_status ≡ running → ensure_rollup env s ≡ (ok tt, s)
  unfolding ensure_rollup ◌>>=◌
  ensure_rollup-eq s run = rw (run) refl

  ensure_rollup-Runs :
      (s : Sequencer)
      → s.rollup_status ≡ running
      → Runs (λ t. t ≡ s) (ensure_rollup env) (λ t. t ≡ s)
  ensure_rollup-Runs s run t same =
      subst (λ (x : Sequencer). Returns (ensure_rollup env) (λ _ u. u ≡ s) x) (sym same)
        (rw (ensure_rollup-eq s run) refl)

  -- The request is handled from the state, and the block has then `n` requests.
  abbrev pub Handles : ℕ → Frame → BlockInformation → TransactionInfo → Sequencer → Type 0
  Handles n k b req s = Returns (dispatch env req) (λ _ s'. IsFilling n k b s') s

  -- What `doTransaction` does with a handler's inputs.
  abbrev pub Rest : ℕ → ℕ → TxLog → Action Sequencer TxLog
  Rest n fuel log =
      if leb 11 (n + 3)
      then end_rollup env (do_transaction env fuel tx_noop) >> pure log
      else pure log

  pub do_transaction-Ends :
      (n : ℕ) (k : Frame) (b : BlockInformation) (fuel : ℕ) (req : TransactionInfo) (s : Sequencer)
      (V : Result TxLog → Sequencer → Type 0)
      → s.rollup_status ≡ running
      → Handles n k b req s
      → ((log : TxLog) → Ends (IsFilling n k b) (Rest n fuel log) V)
      → let (r, s') = do_transaction env (suc fuel) req s in V r s'
  unfolding do_transaction add_account_root_flow add_order_root_flow
  do_transaction-Ends n k b fuel req s V run handles h =
      let P = IsFilling n k b in
      let I : Sequencer → Type 0 = λ t. t ≡ s in
      let W : Result (Unit {0}) → Sequencer → Type 0 = Holds (λ _ t. P t) in
      let go : Ends I (do_transaction env (suc fuel) req) V =
        then-Ends _ _ I I V (ensure_rollup-Runs s run) λ _.
          then-Ends _ _ I P V
            (λ t same. subst (λ (x : Sequencer). Handles n k b req x) (sym same) handles)
            λ log.
              then-Ends _ _ P P V
                (then-Ends _ _ P P W (account_root-Runs env P (λ s x p. p)) λ _ s p. p)
                λ _.
                  then-Ends _ _ P P V
                    (then-Ends _ _ P P W (order_root-Runs env P (λ s x p. p)) λ _ s p. p)
                    λ _. known-Ends n _ _ P P V (λ s p. (p.2, p)) (h log) in
      go s refl
