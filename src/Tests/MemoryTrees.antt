-- ===== src/Tests/MemoryTrees.antt =====
-- The Merkle tree in memory, at concrete inputs.
use zk_obs.Common.{
  ℕ, ◌+◌, ◌*◌, ◌^◌, ◌≡◌, refl, Option, some, [], ◌∷◌, arith, get_elem?, if◌then◌else◌, ◌==◌,
}
use zk_obs.MerkleTreeDp.{
  parse, get_root, get_leaf, get_proof, update_leafs, update_leaf_node, new_tree,
}
use zk_obs.MerkleTreeDp.Rehash.{IsHashed}
use zk_obs.MerkleTreeDp.Updates.{parse-IsHashed, update_leaf_node-IsHashed}
use zk_obs.MerkleTreeDp.Reference.{leaf_or, merkle_root, new_tree-get_root}
use zk_obs.MerkleTreeDp.Verifying.{root_by_proof, get_proof-gives_root}

abbrev small_hash : Option ℕ → Option ℕ → ℕ
small_hash (some a) (some b) = a * 3 + b + 1
small_hash _ _ = 0

new_tree_runs : get_root (new_tree small_hash 2 (1 ∷ 2 ∷ 3 ∷ []) 9) ≡ some 38
unfolding get_root new_tree update_leafs update_leaf_node
new_tree_runs = refl

update_leaf_node-IsHashed_example :
    IsHashed small_hash (2 ^ 2) (update_leaf_node small_hash 2 3 7 (parse small_hash 2 9))
    × ((j : ℕ)
        → get_leaf 2 j (update_leaf_node small_hash 2 3 7 (parse small_hash 2 9))
          ≡ (if j == 3 then some 7 else get_leaf 2 j (parse small_hash 2 9)))
update_leaf_node-IsHashed_example =
    update_leaf_node-IsHashed small_hash 2 3 7 (parse small_hash 2 9) (omega arith)
      (parse-IsHashed small_hash 2 9)

new_tree-get_root_example :
    get_root (new_tree small_hash 2 (1 ∷ 2 ∷ 3 ∷ []) 9)
    ≡ merkle_root small_hash 2 (λ j. leaf_or 9 (get_elem? (1 ∷ 2 ∷ 3 ∷ []) j)) 0
new_tree-get_root_example = new_tree-get_root small_hash 2 (1 ∷ 2 ∷ 3 ∷ []) 9 (omega arith)

get_proof-gives_root_example :
    root_by_proof small_hash
      (1 + 2 ^ 2)
      (get_leaf 2 1 (parse small_hash 2 9))
      (get_proof 2 1 (parse small_hash 2 9))
    ≡ get_root (parse small_hash 2 9)
get_proof-gives_root_example =
    get_proof-gives_root small_hash 2 1 (parse small_hash 2 9) (omega arith)
      (parse-IsHashed small_hash 2 9)
