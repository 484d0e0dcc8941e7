-- ===== src/Merkle/Proofs.antt =====
-- The ids of a leaf's proof: one for each level below the root.
use zk_obs.Common.{ℕ, zero, suc, ◌+◌, ◌/◌, ◌^◌, ◌<◌, ◌≤◌, ◌≡◌, arith, length}
use zk_obs.Merkle.{Tree, log2_from, proof_ids_from, proof_ids, leaf_id_in_tree}
use native.Mathlib.Nat.{pow-suc, pow-zero, one-le-pow}

length-proof_ids_from :
    (fuel h i : ℕ)
    → h ≤ fuel
    → 2 ^ h ≤ i
    → i < 2 ^ suc h
    → (length (proof_ids_from fuel i) ≡ h) × (log2_from fuel i ≡ h)
unfolding proof_ids_from log2_from
length-proof_ids_from zero h i en lo hi = (omega arith, omega arith)
length-proof_ids_from (suc fuel) zero i en lo hi =
    let e = pow-zero 2 in (ground arith, ground arith)
length-proof_ids_from (suc fuel) (suc h) i en lo hi =
    let (a, b) =
      length-proof_ids_from fuel h (i / 2) (omega arith) (omega (arith, pow-suc 2 h))
        (omega (arith, pow-suc 2 (suc h))) in
    let one = one-le-pow h 2 (omega arith) in let two = pow-suc 2 h in (ground arith, ground arith)

exponent-le : (h : ℕ) → h < 2 ^ h
exponent-le zero = omega (arith, pow-zero 2)
exponent-le (suc h) = omega (arith, exponent-le h, pow-suc 2 h)

-- For a leaf of the tree, the proof has one id for each level but the root's, and the leaf's node
-- stands at the last level: the fuel of both loops is enough.
pub length-proof_ids :
    (t : Tree) (leaf_id : ℕ)
    → leaf_id < 2 ^ t.height
    → (length (proof_ids t leaf_id) ≡ t.height)
      × (log2_from (leaf_id_in_tree t leaf_id) (leaf_id_in_tree t leaf_id) ≡ t.height)
unfolding proof_ids leaf_id_in_tree
length-proof_ids t leaf_id lt =
    length-proof_ids_from (leaf_id + 2 ^ t.height) t.height (leaf_id + 2 ^ t.height)
      (omega (arith, exponent-le t.height)) (omega arith) (omega (arith, pow-suc 2 t.height))
