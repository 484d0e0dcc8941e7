-- ===== src/Ledger/Roots.antt =====
-- The reads of roots, which change no field of the sequencer but its trees: `getRoot` of the tree
-- services and `stateRoot`.
use zk_obs.Common.{ℕ, arith}
use zk_obs.Common.Action.{Action, Result, Holds, Runs, Returns, Holds-map, then-Ends}
use zk_obs.Sequencer.{Sequencer, Env, on_trees}
use zk_obs.Trees.{Trees}
use zk_obs.Trees.Account
use zk_obs.Trees.Order
use zk_obs.Sequencer.Rollup.{state_root}

module _ (env : Env) where
  on_trees-Runs :
      {A : Type 0} (m : Action Trees A) (P : Sequencer → Type 0)
      → ((t : Trees) → Returns m (λ _ _. Unit {0}) t)
      → ((s : Sequencer) (x : Trees) → P s → P (record s { trees = x }))
      → Runs P (on_trees m) P
  on_trees-Runs m P runs keeps s p =
      let (r, t) = m s.trees in
      Holds-map (λ _ _. Unit {0}) (λ _ s'. P s') r t (record s { trees = t }) (runs s.trees)
        λ _ _. keeps s t p

  account_root-Returns : (t : Trees) → Returns (Account.get_root env.config) (λ _ _. Unit {0}) t
  unfolding Account.get_root
  account_root-Returns t = ground arith

  order_root-Returns : (t : Trees) → Returns (Order.get_root env.config) (λ _ _. Unit {0}) t
  unfolding Order.get_root
  order_root-Returns t = ground arith

  pub account_root-Runs :
      (P : Sequencer → Type 0)
      → ((s : Sequencer) (x : Trees) → P s → P (record s { trees = x }))
      → Runs P (on_trees (Account.get_root env.config)) P
  account_root-Runs P = on_trees-Runs (Account.get_root env.config) P account_root-Returns

  pub order_root-Runs :
      (P : Sequencer → Type 0)
      → ((s : Sequencer) (x : Trees) → P s → P (record s { trees = x }))
      → Runs P (on_trees (Order.get_root env.config)) P
  order_root-Runs P = on_trees-Runs (Order.get_root env.config) P order_root-Returns

  pub state_root-Runs :
      (P : Sequencer → Type 0)
      → ((s : Sequencer) (x : Trees) → P s → P (record s { trees = x }))
      → Runs P (state_root env) P
  unfolding state_root
  state_root-Runs P keeps =
      let V : Result ℕ → Sequencer → Type 0 = Holds (λ _ s. P s) in
      then-Ends _ _ P P V (account_root-Runs P keeps) λ _.
        then-Ends _ _ P P V (order_root-Runs P keeps) λ _. then-Ends _ _ P P V (λ s p. p) λ _ s p. p
