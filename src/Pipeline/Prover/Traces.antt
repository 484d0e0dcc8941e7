-- ===== src/Pipeline/Prover/Traces.antt =====
-- Where the proofs in the block table come from, whatever jobs the prover serves.
use zk_obs.Common.{
  ℕ, zero, suc, ◌+◌, ◌≡◌, refl, sym, ap, ◌∙◌, Bool, true, none, some, List, [], ◌∷◌, Option-cases,
  ◌==◌, arith, Bool-cases, ==_iff, inl, inr, ◌⊎◌,
}
use zk_obs.Common.Action.{Result, Error, ok, err, ◌>>=◌}
use mathlib.Core.Path.{subst}
use zk_obs.Sequencer.{BlockInformation, CircuitInputs}
use zk_obs.Pipeline.Queries.{find_one}
use zk_obs.Pipeline.Prover.{Blocks, is_executed, first_executed, confirm, prove_current, process}
use zk_obs.Pipeline.Prover.Order.{confirmed}

Result-cases : {A : Type 0} (r : Result A) → ((a : A) × (r ≡ ok a)) ⊎ ((e : Error) × (r ≡ err e))
Result-cases (ok a) = inl (a, refl)
Result-cases (err e) = inr (e, refl)

find_one-holds : (p : ℕ → Bool) (start count k : ℕ) → find_one p start count ≡ some k → p k ≡ true
unfolding find_one
find_one-holds p start zero k e = cc
find_one-holds p start (suc count) k e = elim (Bool-cases (p start)) [
  | inl here ↦ let same : start ≡ k = ground arith in ap p (sym same) ∙ here
  | inr skip ↦ find_one-holds p (start + 1) count k (ground arith)
]

first_executed-holds :
    (s : Blocks) (k : ℕ) → first_executed s ≡ some k → is_executed (s.rows k) ≡ true
unfolding first_executed
first_executed-holds s k e = find_one-holds (λ j. is_executed (s.rows j)) 1 s.last_block k e

module _ (prove : ℕ → CircuitInputs → Result ℕ) where
  -- The proof was made of the inputs of a block that was executed, under that block's number.
  abbrev pub IsMade : Blocks → ℕ → Type 0
  IsMade s proof =
      (j : ℕ) × (c : BlockInformation) × (inputs : CircuitInputs) × (s.rows j ≡ some c)
      × (is_executed (some c) ≡ true)
      × (c.raw_data ≡ some inputs)
      × (prove j inputs ≡ ok proof)

  -- Block `b` has come from a block of the table.
  abbrev IsFrom : Blocks → ℕ → BlockInformation → Type 0
  IsFrom s k b =
      (c : BlockInformation) × (s.rows k ≡ some c)
      × (b.raw_data ≡ c.raw_data)
      × (is_executed (some b) ≡ true → is_executed (some c) ≡ true)
      × ((p : ℕ) → b.proof ≡ some p → IsMade s p)

  abbrev IsTraced : Blocks → Blocks → Type 0
  IsTraced s t = (k : ℕ) (b : BlockInformation) → t.rows k ≡ some b → IsFrom s k b

  -- What a job writes.
  process-state :
      (job : ℕ) (t : Blocks)
      → ((process prove job t).1 ≡ t)
        ⊎ ((current : ℕ) × (c : BlockInformation) × (inputs : CircuitInputs) × (proof : ℕ)
            × (first_executed t ≡ some current)
            × (t.rows current ≡ some c)
            × (c.raw_data ≡ some inputs)
            × (prove current inputs ≡ ok proof)
            × ((process prove job t).1 ≡ confirm job proof t))
  unfolding process prove_current ◌>>=◌
  process-state job t = elim (Option-cases (first_executed t)) [
    | inl nothing ↦ inl (ground arith)
    | inr (current, first) ↦ elim (Option-cases (t.rows current)) [
      | inl no_row ↦ inl (ground arith)
      | inr (c, row) ↦ elim (Option-cases c.raw_data) [
        | inl no_inputs ↦ inl (ground arith)
        | inr (inputs, raw) ↦ elim (Result-cases (prove current inputs)) [
          | inl (proof, made) ↦ inr (current, c, inputs, proof, first, row, raw, made, ground arith)
          | inr (e, failed) ↦ inl (ground arith)
        ]
      ]
    ]
  ]

  -- A proof that is made in the table has been made of a block of the first table.
  IsMade-of_IsTraced :
      (s t : Blocks) (current proof : ℕ) (c : BlockInformation) (inputs : CircuitInputs)
      → IsTraced s t
      → is_executed (t.rows current) ≡ true
      → t.rows current ≡ some c
      → c.raw_data ≡ some inputs
      → prove current inputs ≡ ok proof
      → IsMade s proof
  IsMade-of_IsTraced s t current proof c inputs traced executed row raw made =
      let (d, start, same, was, _) = traced current c row in
      (current, d, inputs, start, was (ap is_executed (sym row) ∙ executed), sym same ∙ raw, made)

  confirm-IsTraced :
      (s t : Blocks) (job proof : ℕ)
      → IsTraced s t
      → IsMade s proof
      → IsTraced s (confirm job proof t)
  unfolding confirm
  confirm-IsTraced s t job proof traced made k b here = elim (Option-cases (t.rows job)) [
    | inl missing ↦ traced k b (ground arith)
    | inr (old, row) ↦ elim (Bool-cases (k == job)) [
      | inl same ↦
          let k_job : k ≡ job = (==_iff k job).0 same in
          let (c, start, raw, _, _) = traced k old (ap t.rows k_job ∙ row) in
          let new : b ≡ confirmed proof old = ground arith in
          subst (IsFrom s k) (sym new)
            (c, start, raw, λ e. cc, λ p e. subst (IsMade s) (ground arith) made)
      | inr other ↦ traced k b (ground arith)
    ]
  ]

  process-IsTraced : (s t : Blocks) (job : ℕ) → IsTraced s t → IsTraced s (process prove job t).1
  process-IsTraced s t job traced = elim (process-state job t) [
    | inl same ↦ subst (IsTraced s) (sym same) traced
    | inr (current, c, inputs, proof, first, row, raw, made, same) ↦ subst (IsTraced s) (sym same) (
        confirm-IsTraced s t job proof traced (
          IsMade-of_IsTraced s t current proof c inputs traced
            (first_executed-holds t current first) row raw made))
  ]

  -- The jobs of a queue, one after the other, where a job that fails does not stop those behind it.
  abbrev pub serve : List ℕ → Blocks → Blocks
  serve [] s = s
  serve (job ∷ jobs) s = serve jobs (process prove job s).1

  serve-IsTraced : (jobs : List ℕ) (s t : Blocks) → IsTraced s t → IsTraced s (serve jobs t)
  serve-IsTraced [] s t traced = traced
  serve-IsTraced (job ∷ jobs) s t traced =
      serve-IsTraced jobs s (process prove job t).1 (process-IsTraced s t job traced)

  -- From a table without proofs, whatever jobs the prover gets and whichever of them fail: every proof
  -- that a block then has was made of the inputs, and under the number, of a block that was executed
  -- at the start, though perhaps not of the block that has it.
  pub serve-IsMade :
      (jobs : List ℕ) (s : Blocks) (k proof : ℕ) (b : BlockInformation)
      → ((j : ℕ) (c : BlockInformation) → s.rows j ≡ some c → c.proof ≡ none)
      → (serve jobs s).rows k ≡ some b
      → b.proof ≡ some proof
      → IsMade s proof
  serve-IsMade jobs s k proof b unproved row has =
      let start : IsTraced s s =
        λ j c here. (c, here, refl, λ e. e, λ p e. let no = unproved j c here in absurd (cc)) in
      let (_, _, _, _, from) = serve-IsTraced jobs s s start k b row in from proof has
