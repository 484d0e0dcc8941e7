-- ===== src/Ledger/Processing.antt =====
-- What `process` leaves of a request: its status, and the block.
use zk_obs.Common.{
  ℕ, true, some, ap, ◌∙◌, Bool, ◌==◌, if◌then◌else◌, suc, ◌+◌, ◌≡◌, refl, sym, ◌<◌, arith,
}
use zk_obs.Common.Action.{
  Result, Holds, Refused, Returns, then-Ends, Refused-bind, Refused-map, type_error,
}
use mathlib.Core.Path.{subst}
use zk_obs.Transaction.{TransactionInfo}
use zk_obs.Sequencer
use zk_obs.Sequencer.{Sequencer, Env, TxLog, BlockInformation}
use zk_obs.Sequencer.Rollup.{dispatch, do_transaction, process, process_row}
use zk_obs.Ledger.{IsLow, Ledger}
use zk_obs.Ledger.Requests.{Outcome}
use zk_obs.Ledger.Closing.{do_transaction-Refused, do_transaction-Returns}
use zk_obs.Ledger.Blocks.{Frame, KeepsBlock, IsFilling, IsClosed}

-- The state after `process` has marked the request.
abbrev pub marked : TransactionInfo → Sequencer → Sequencer
marked req s = record s {
  tx_status = λ i. if i == req.tx_id then Sequencer.processing else s.tx_status i;
}

-- The state before `process` returns.
abbrev pub executed : TransactionInfo → Sequencer → Sequencer
executed req s = record s {
  tx_status = λ i. if i == req.tx_id then Sequencer.l2_executed else s.tx_status i;
}

-- The block is saved as executed, and the request's status is processing.
abbrev pub IsStuck : ℕ → ℕ → Sequencer → Type 0
IsStuck k tx_id s =
    (s.tx_status tx_id ≡ Sequencer.processing)
    × ((b : BlockInformation) × (s.blocks k ≡ some b) × (b.block_status ≡ Sequencer.l2_executed))

marked_lem :
    (req : TransactionInfo) (s : Sequencer)
    → (marked req s).tx_status req.tx_id ≡ Sequencer.processing
marked_lem req s = ground arith

module _ (env : Env) ⦃low : IsLow env.config⦄ where
  process-eq :
      (fuel tx_id : ℕ) (req : TransactionInfo) (s : Sequencer)
      → s.tx_rows tx_id ≡ some req
      → process env fuel tx_id s ≡ process_row env fuel req s
  unfolding process
  process-eq fuel tx_id req s row = rw (process, row) refl

  -- `process` of a request whose row is there, and whose handler returns as the eighth of the open
  -- block with its outcome, which may differ from the start in fields that no block reads
  -- (`KeepsBlock`), throws a type error, with any fuel from three on. The block is saved as executed, and the request's
  -- status stays processing.
  -- The heights of the trees are up to 47.
  pub process-Refused :
      (k : ℕ) (b : BlockInformation) (fuel tx_id : ℕ) (req : TransactionInfo) (l : Ledger)
      (s r : Sequencer)
      → s.tx_rows tx_id ≡ some req
      → IsFilling 7 (record { number = k; statuses = s.tx_status }) b s
      → KeepsBlock (marked req s) r
      → Returns (dispatch env req) (Outcome r l) (marked req s)
      → Refused type_error
          (IsStuck k req.tx_id)
          (process env (suc (suc (suc fuel))) tx_id s).0
          (process env (suc (suc (suc fuel))) tx_id s).1
  unfolding process_row
  process-Refused k b fuel tx_id req l s r row fills keeps out =
      let f : Frame = record { number = k; statuses = (marked req s).tx_status } in
      let m = marked req s in
      let C = IsStuck k req.tx_id in
      let V : Result Bool → Sequencer → Type 0 = Refused type_error C in
      let (x, s') = do_transaction env (suc (suc (suc fuel))) req m in
      let stuck : Refused type_error C x s' =
        Refused-map type_error (IsClosed f) C x s'
          (do_transaction-Refused env f b fuel req l m r
            (fills.0, fills.1, fills.2, fills.3, fills.4, refl) keeps out)
          λ p. (ap (λ st. st req.tx_id) p.2 ∙ marked_lem req s, p.3) in
      subst (λ (x : Result Bool × Sequencer). Refused type_error C x.0 x.1)
        (sym (process-eq (suc (suc (suc fuel))) tx_id req s row))
        (then-Ends _ _ (λ t. t ≡ s) (λ t. t ≡ m) V (λ t same. ap (marked req) same)
          (λ _.
            Refused-bind _ _ type_error (λ t. t ≡ m) C
              λ t same.
                subst
                  (λ (x : Sequencer).
                    let (r', t') = do_transaction env (suc (suc (suc fuel))) req x in
                    Refused type_error C r' t')
                  (sym same) stuck)
          s refl)

  -- `process` of a request whose row is there, and whose handler returns in an open block with fewer
  -- than seven requests with its outcome, which may differ from the start in fields that no block
  -- reads (`KeepsBlock`), returns true, with any fuel from one on. The block is open, with one request more,
  -- the request's status is L2EXECUTED, and the other statuses are as they were.
  -- The heights of the trees are up to 47.
  pub process-Returns :
      (n k : ℕ) (b : BlockInformation) (fuel tx_id : ℕ) (req : TransactionInfo) (l : Ledger)
      (s r : Sequencer)
      → n < 7
      → s.tx_rows tx_id ≡ some req
      → IsFilling n (record { number = k; statuses = s.tx_status }) b s
      → KeepsBlock (marked req s) r
      → Returns (dispatch env req) (Outcome r l) (marked req s)
      → Returns
          (process env (suc fuel) tx_id)
          (λ done s'.
            (done ≡ true)
            × IsFilling
                (n + 1)
                (record { number = k; statuses = (executed req (marked req s)).tx_status })
                b
                s')
          s
  unfolding process_row
  process-Returns n k b fuel tx_id req l s r few row fills keeps out =
      let m = marked req s in
      let f : Frame = record { number = k; statuses = m.tx_status } in
      let g : Frame = record { number = k; statuses = (executed req m).tx_status } in
      let P = IsFilling (n + 1) f b in
      let V : Result Bool → Sequencer → Type 0 =
        Holds (λ done t. (done ≡ true) × IsFilling (n + 1) g b t) in
      let handled : Returns (do_transaction env (suc fuel) req) (λ _ t. P t) m =
        do_transaction-Returns env n f b fuel req l m r few
          (fills.0, fills.1, fills.2, fills.3, fills.4, refl) keeps out in
      subst (λ (x : Result Bool × Sequencer). V x.0 x.1)
        (sym (process-eq (suc fuel) tx_id req s row))
        (then-Ends _ _ (λ t. t ≡ s) (λ t. t ≡ m) V (λ t same. ap (marked req) same)
          (λ _.
            then-Ends _ _ (λ t. t ≡ m) P V
              (λ t same.
                subst
                  (λ (x : Sequencer). Returns (do_transaction env (suc fuel) req) (λ _ u. P u) x)
                  (sym same) handled)
              λ _.
                then-Ends _ _ P (IsFilling (n + 1) g b) V
                  (λ t p. (
                    p.0,
                    p.1,
                    p.2,
                    p.3,
                    p.4,
                    ap (λ st i. if i == req.tx_id then Sequencer.l2_executed else st i) p.5,
                  ))
                  λ _ t p. (refl, p))
          s refl)
