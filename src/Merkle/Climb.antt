-- ===== src/Merkle/Climb.antt =====
-- The loop of `_updateLeaf` over the node rows, in trees of heights up to 47.
use zk_obs.Common.{◌≤◌, All, ℕ, suc, ◌/◌, ◌^◌, ◌<◌, List, [], ◌∷◌, arith}
use zk_obs.Common.Action.{Returns, Returns-bind, ◌>>=◌}
use zk_obs.Merkle.{
  Tree, Nodes, Writer, Isolation, climb_round, climb, update_path, find_node, floor_log2, proof_ids,
  leaf_id_in_tree,
}
use zk_obs.Merkle.Levels.{level-le, leaf_id-lt, All-proof_ids_from, hash_or_default-Holds}

module _ (t : Tree) (w : Writer) (iso : Isolation) (low : t.height ≤ 47) where
  climb_round-Returns :
      (id i p : ℕ) (n : Nodes)
      → i < 2 ^ suc t.height
      → p < 2 ^ suc t.height
      → Returns (climb_round t w iso id i p) (λ _ _. Unit {0}) n
  unfolding climb_round ◌>>=◌
  climb_round-Returns id i p n li lp =
      let hi =
        hash_or_default-Holds t (floor_log2 i) (find_node iso i n) n (level-le t.height i low li) in
      let hp =
        hash_or_default-Holds t (floor_log2 p) (find_node iso p n) n (level-le t.height p low lp) in
      ground arith

  climb-Returns :
      (id i : ℕ) (ps : List ℕ) (n : Nodes)
      → i < 2 ^ suc t.height
      → All (λ p. p < 2 ^ suc t.height) ps
      → Returns (climb t w iso id i ps) (λ _ _. Unit {0}) n
  unfolding climb
  climb-Returns id i [] n li lps = tt
  climb-Returns id i (p ∷ ps) n li lps =
      Returns-bind (climb_round t w iso id i p) (λ _. climb t w iso id (i / 2) ps) (λ _ _. Unit {0})
        (λ _ _. Unit {0}) n (climb_round-Returns id i p n li lps.0)
        (λ _ n' _. climb-Returns id (i / 2) ps n' (omega arith) lps.1)

  -- A leaf id within the tree's height: the update of its path returns.
  pub update_path-Returns :
      (leaf_id hash : ℕ) (n : Nodes)
      → leaf_id < 2 ^ t.height
      → Returns (update_path t w iso leaf_id hash) (λ _ _. Unit {0}) n
  unfolding update_path leaf_id_in_tree proof_ids ◌>>=◌
  update_path-Returns leaf_id hash n lt =
      let li = leaf_id-lt t.height leaf_id lt in
      climb-Returns _ _ _ _ li (All-proof_ids_from _ t.height _ li)
