-- ===== src/MerkleTreeDp/Verifying.antt =====
-- What a proof is worth: a leaf and its proof give the root again.
use zk_obs.Common.{
  ℕ, zero, suc, ◌+◌, ◌*◌, ◌/◌, ◌^◌, ◌≤◌, ◌<◌, ◌≡◌, sym, ap, ◌∙◌, Option, some, List, [], ◌∷◌, ltb,
  arith, Bool-cases, inl, inr, ltb→lt,
}
use zk_obs.Merkle.{sibling}
use zk_obs.MerkleTreeDp.{proof_from, get_root, get_leaf, get_proof, hash_with}
use zk_obs.MerkleTreeDp.Rehash.{IsHashed, hash_with-sibling}
use native.Mathlib.Nat.{one-le-pow}

module _ {H : Type 0} (hash : Option H → Option H → H) where
  -- A checker: from node `i` it hashes with each entry of the proof in turn.
  unfoldable pub root_by_proof : ℕ → Option H → List (Option H) → Option H
  unfolding hash_with
  root_by_proof i node [] = node
  root_by_proof i node (p ∷ prf) = root_by_proof (i / 2) (some (hash_with hash i node p)) prf

  proof_from-gives_root :
      (fuel n i : ℕ) (nodes : ℕ → Option H)
      → 0 < i
      → i ≤ fuel
      → i < n * 2
      → IsHashed hash n nodes
      → root_by_proof i (nodes i) (proof_from fuel i nodes) ≡ nodes 1
  unfolding root_by_proof proof_from
  proof_from-gives_root zero n i nodes pos en lt all = absurd (omega arith)
  proof_from-gives_root (suc fuel) n i nodes pos en lt all = elim (Bool-cases (ltb 1 i)) [
    | inl more ↦
        let two : 1 < i = ltb→lt 1 i more in
        let parent : some (hash_with hash i (nodes i) (nodes (sibling i))) ≡ nodes (i / 2) =
          ap (λ (x : H). some x) (hash_with-sibling hash i nodes)
          ∙ sym (all (i / 2) (omega arith) (omega arith) (omega arith)) in
        rw more (
          ap (λ node. root_by_proof (i / 2) node (proof_from fuel (i / 2) nodes)) parent
          ∙ proof_from-gives_root fuel n (i / 2) nodes (omega arith) (omega arith) (omega arith)
              all)
    | inr last ↦ let one : i ≡ 1 = ground arith in rw last (ap nodes one)
  ]

  -- In a tree whose inner nodes are the hashes of their children, a leaf of the tree and the proof
  -- that `getProof` gives for it hash to the root.
  pub get_proof-gives_root :
      (h leaf_id : ℕ) (nodes : ℕ → Option H)
      → leaf_id < 2 ^ h
      → IsHashed hash (2 ^ h) nodes
      → root_by_proof (leaf_id + 2 ^ h) (get_leaf h leaf_id nodes) (get_proof h leaf_id nodes)
        ≡ get_root nodes
  unfolding get_proof get_leaf get_root
  get_proof-gives_root h leaf_id nodes lt all =
      let one = one-le-pow h 2 (omega arith) in
      proof_from-gives_root (leaf_id + 2 ^ h) (2 ^ h) (leaf_id + 2 ^ h) nodes (omega arith)
        (omega arith) (omega arith) all
