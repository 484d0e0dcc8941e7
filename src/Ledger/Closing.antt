-- ===== src/Ledger/Closing.antt =====
-- How many requests `doTransaction` handles before it fails with the block that it closes.
use zk_obs.Common.{ℕ, suc, ◌+◌, ◌≡◌, refl, sym, leb, replicate, ◌<◌, arith, false}
use zk_obs.Common.Action.{
  Action, Result, Holds, Ends, Runs, Refused, Returns, Holds-map, then-Ends, Refused-bind,
  type_error,
}
use mathlib.Core.Path.{subst}
use zk_obs.Transaction.{TransactionInfo}
use zk_obs.Sequencer.{Sequencer, Env, TxLog, BlockInformation}
use zk_obs.Sequencer.Handlers.{do_noop}
use zk_obs.Sequencer.Rollup.{dispatch, do_transaction, end_rollup, fill_block, tx_noop}
use zk_obs.Ledger.{IsLow, Ledger, ledger_of}
use zk_obs.Ledger.Points.{rest_of}
use zk_obs.Ledger.Requests.{Outcome}
use zk_obs.Ledger.Requests.Opening.{do_noop-Outcome}
use zk_obs.Ledger.Blocks.{
  Frame, IsFilling, IsClosed, KeepsBlock, IsFilling-of_Outcome, close_block-Runs,
  close_block-Refused, end_rollup-Ends, do_transaction-Ends, Handles,
}

module _ (env : Env) ⦃low : IsLow env.config⦄ where
  Handles-of_Outcome :
      (n : ℕ) (k : Frame) (b : BlockInformation) (req : TransactionInfo) (s r : Sequencer)
      (l : Ledger)
      → IsFilling n k b s
      → KeepsBlock s r
      → Returns (dispatch env req) (Outcome r l) s
      → Handles env (n + 1) k b req s
  Handles-of_Outcome n k b req s r l fills keeps out =
      let (x, s') = dispatch env req s in
      Holds-map (Outcome r l) (λ _ t. IsFilling (n + 1) k b t) x s' s' out
        λ log. IsFilling-of_Outcome env n k b s r l log s' fills keeps

  dispatch-tx_noop : dispatch env tx_noop ≡ do_noop env
  unfolding dispatch tx_noop
  dispatch-tx_noop = refl

  noop-Handles :
      (n : ℕ) (k : Frame) (b : BlockInformation) (s : Sequencer)
      → IsFilling n k b s
      → Handles env (n + 1) k b tx_noop s
  noop-Handles n k b s fills =
      let O : TxLog → Sequencer → Type 0 = Outcome (rest_of s) (ledger_of s.trees) in
      let (r, s') = do_noop env s in
      Handles-of_Outcome n k b tx_noop s (rest_of s) (ledger_of s.trees) fills
        (refl, refl, refl, refl, refl)
        (subst (λ (m : Action Sequencer TxLog). Returns m O s) (sym dispatch-tx_noop)
          (Holds-map (λ log t. O log t × (log.req_data ≡ replicate 10 0)) O r s' s'
            (do_noop-Outcome env s (fills.0)) λ _ p. p.0))

  -- The last noop of a block closes it.
  last_noop-Runs :
      (k : Frame) (b : BlockInformation) (fuel : ℕ)
      → Runs (IsFilling 9 k b) (do_transaction env (suc fuel) tx_noop) (IsClosed k)
  unfolding fill_block
  last_noop-Runs k b fuel s fills =
      let V : Result TxLog → Sequencer → Type 0 = Holds (λ _ t. IsClosed k t) in
      do_transaction-Ends env 10 k b fuel tx_noop s V (fills.1) (noop-Handles 9 k b s fills) λ log.
        then-Ends _ _ (IsFilling 10 k b) (IsClosed k) V
          (end_rollup-Ends env 10 k b _ (Holds (λ _ t. IsClosed k t)) (
            then-Ends _ _ (IsFilling 10 k b) (IsFilling 10 k b) (Holds (λ _ t. IsClosed k t))
              (λ _ p. p) λ _ t p. close_block-Runs env k b t (p.2, p.5)))
          λ _ t p. p

  -- The call that waits for it finds no request.
  end_rollup_9-Refused :
      (k : Frame) (b : BlockInformation) (fuel : ℕ)
      → Ends
          (IsFilling 9 k b)
          (end_rollup env (do_transaction env (suc fuel) tx_noop))
          (Refused type_error (IsClosed k))
  unfolding fill_block
  end_rollup_9-Refused k b fuel =
      let C = IsClosed k in
      end_rollup-Ends env 9 k b _ (Refused type_error C) (
        then-Ends _ _ (IsFilling 9 k b) C (Refused type_error C)
          (then-Ends _ _ (IsFilling 9 k b) C (Holds (λ _ t. C t)) (last_noop-Runs k b fuel)
            λ _ s p. p)
          λ _. close_block-Refused env k b)

  end_rollup_8-Refused :
      (k : Frame) (b : BlockInformation) (fuel : ℕ)
      → Ends
          (IsFilling 8 k b)
          (end_rollup env (do_transaction env (suc (suc fuel)) tx_noop))
          (Refused type_error (IsClosed k))
  unfolding fill_block
  end_rollup_8-Refused k b fuel =
      let C = IsClosed k in
      let P = IsFilling 8 k b in
      end_rollup-Ends env 8 k b _ (Refused type_error C) (
        Refused-bind _ _ type_error P C (
          Refused-bind _ _ type_error P C λ s fills.
            do_transaction-Ends env 9 k b (suc fuel) tx_noop s (Refused type_error C) (fills.1)
              (noop-Handles 8 k b s fills)
              λ log.
                Refused-bind _ _ type_error (IsFilling 9 k b) C (end_rollup_9-Refused k b fuel)))

  -- Of a block with seven requests that is open, a request whose handler returns with its outcome,
  -- which may differ from the start in fields that no block reads (`KeepsBlock`), makes
  -- `doTransaction` throw a type error, with any fuel from three on, although the block is then saved
  -- as executed.
  -- The heights of the trees are up to 47.
  pub do_transaction-Refused :
      (k : Frame) (b : BlockInformation) (fuel : ℕ) (req : TransactionInfo) (l : Ledger)
      (s r : Sequencer)
      → IsFilling 7 k b s
      → KeepsBlock s r
      → Returns (dispatch env req) (Outcome r l) s
      → Refused type_error
          (IsClosed k)
          (do_transaction env (suc (suc (suc fuel))) req s).0
          (do_transaction env (suc (suc (suc fuel))) req s).1
  do_transaction-Refused k b fuel req l s r fills keeps out =
      let C = IsClosed k in
      do_transaction-Ends env 8 k b (suc (suc fuel)) req s (Refused type_error C) (fills.1)
        (Handles-of_Outcome 7 k b req s r l fills keeps out)
        λ log. Refused-bind _ _ type_error (IsFilling 8 k b) C (end_rollup_8-Refused k b fuel)

  -- Of an open block with fewer than seven requests, a request whose handler returns with its outcome,
  -- which may differ from the start in fields that no block reads (`KeepsBlock`), makes
  -- `doTransaction` return, with any fuel from one on. The block is open, with one request more.
  -- The heights of the trees are up to 47.
  pub do_transaction-Returns :
      (n : ℕ) (k : Frame) (b : BlockInformation) (fuel : ℕ) (req : TransactionInfo) (l : Ledger)
      (s r : Sequencer)
      → n < 7
      → IsFilling n k b s
      → KeepsBlock s r
      → Returns (dispatch env req) (Outcome r l) s
      → Returns (do_transaction env (suc fuel) req) (λ _ s'. IsFilling (n + 1) k b s') s
  do_transaction-Returns n k b fuel req l s r few fills keeps out =
      let V : Result TxLog → Sequencer → Type 0 = Holds (λ _ t. IsFilling (n + 1) k b t) in
      let open_yet : leb 11 (n + 1 + 3) ≡ false = ground arith in
      do_transaction-Ends env (n + 1) k b fuel req s V (fills.1)
        (Handles-of_Outcome n k b req s r l fills keeps out) λ log. rw (open_yet) λ s p. p
