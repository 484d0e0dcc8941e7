-- ===== src/MerkleTreeDp.antt =====
-- The Merkle tree in memory: class `TsMerkleTree` of backend/ts-sdk/src/domain/lib/merkle-tree-dp.ts.
-- The node array is a function of the index; `none` stands for `undefined`, which the hash function
-- gets for an entry that is not there.
pub mod Rehash
pub mod Updates
pub mod Reference
pub mod Verifying
use zk_obs.Common.{
  ℕ, zero, suc, ◌+◌, ◌-◌, ◌*◌, ◌/◌, ◌%◌, ◌^◌, Option, none, some, List, [], ◌∷◌, ltb, ◌==◌,
  if◌then◌else◌,
}
use zk_obs.Merkle.{sibling}

abbrev pub set_node : {H : Type 0} → (ℕ → Option H) → ℕ → H → ℕ → Option H
set_node nodes k h j = if j == k then some h else nodes j

-- `prf[0]` and what is left of the proof.
abbrev pub first_of : {H : Type 0} → List (Option H) → Option H
first_of [] = none
first_of (h ∷ _) = h

abbrev pub tail_of : {H : Type 0} → List (Option H) → List (Option H)
tail_of [] = []
tail_of (_ ∷ hs) = hs

module _ {H : Type 0} where
  -- The loop of `getProof` from node `i`, on fuel: `i` rounds are enough.
  unfoldable pub proof_from : ℕ → ℕ → (ℕ → Option H) → List (Option H)
  unfolding sibling
  proof_from zero i nodes = []
  proof_from (suc fuel) i nodes =
      let rest = proof_from fuel (i / 2) nodes in if ltb 1 i then nodes (sibling i) ∷ rest else []

  unfoldable pub get_root : (ℕ → Option H) → Option H
  get_root nodes = nodes 1

module _ {H : Type 0} (tree_height : ℕ) where
  unfoldable pub get_leaf : ℕ → (ℕ → Option H) → Option H
  get_leaf leaf_id nodes = nodes (leaf_id + 2 ^ tree_height)

  unfoldable pub get_proof : ℕ → (ℕ → Option H) → List (Option H)
  unfolding proof_from
  get_proof leaf_id nodes = let i = leaf_id + 2 ^ tree_height in proof_from i i nodes

module _ {H : Type 0} (hash : Option H → Option H → H) where
  -- `parse`: the loop from node `i` down to node 1.
  unfoldable pub parse_from : ℕ → (ℕ → Option H) → ℕ → Option H
  parse_from zero nodes = nodes
  parse_from (suc k) nodes =
      parse_from k (set_node nodes (suc k) (hash (nodes (suc k * 2)) (nodes (suc k * 2 + 1))))

  -- `this.hash([[node, prf], [prf, node]][i % 2])`
  unfoldable pub hash_with : ℕ → Option H → Option H → H
  hash_with i node prf = if i % 2 == 0 then hash node prf else hash prf node

  -- The loop of `updateLeafNode` from node `i`, with the proof that is left, on fuel.
  unfoldable pub update_from : ℕ → ℕ → List (Option H) → (ℕ → Option H) → ℕ → Option H
  unfolding hash_with
  update_from zero i prf nodes = nodes
  update_from (suc fuel) i prf nodes =
      let rest =
        update_from fuel (i / 2) (tail_of prf)
          (set_node nodes (i / 2) (hash_with i (nodes i) (first_of prf))) in
      if ltb 1 i then rest else nodes

module _ {H : Type 0} (hash : Option H → Option H → H) (tree_height : ℕ) where
  unfoldable pub parse : H → ℕ → Option H
  unfolding parse_from
  parse default_leaf =
      parse_from hash (2 ^ tree_height - 1)
        (λ i. if ltb i (2 ^ (tree_height + 1)) then some default_leaf else none)

  unfoldable pub update_leaf_node : ℕ → H → (ℕ → Option H) → ℕ → Option H
  unfolding get_proof update_from
  update_leaf_node leaf_id value nodes =
      let prf = get_proof tree_height leaf_id nodes in
      let i = leaf_id + 2 ^ tree_height in update_from hash i i prf (set_node nodes i value)

  -- `leafs.forEach((leaf, i) => this.updateLeafNode(i, leaf))`, from leaf `i` on.
  unfoldable pub update_leafs : ℕ → List H → (ℕ → Option H) → ℕ → Option H
  unfolding update_leaf_node
  update_leafs i [] nodes = nodes
  update_leafs i (leaf ∷ leafs) nodes = update_leafs (i + 1) leafs (update_leaf_node i leaf nodes)

  -- The constructor.
  unfoldable pub new_tree : List H → H → ℕ → Option H
  unfolding parse update_leafs
  new_tree leafs default_leaf = update_leafs 0 leafs (parse default_leaf)
