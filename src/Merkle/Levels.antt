-- ===== src/Merkle/Levels.antt =====
-- The levels of the nodes on a path from a leaf, as the loop of `_updateLeaf` computes them, in trees
-- of heights up to 47.
use zk_obs.Common.{
  ◌≡◌, false, ◌==◌, Bool-cases, ==_iff, inl, inr, ap, ◌-◌, All, ℕ, zero, suc, ◌+◌, ◌/◌, ◌^◌, ◌<◌,
  ◌≤◌, Option, none, some, arith,
}
use zk_obs.Common.Action.{Holds}
use zk_obs.Merkle.{
  Tree, Nodes, log2_from, rounds_up, floor_log2, sibling, proof_ids_from, hash_or_default,
  default_hash_by_level,
}
use native.Mathlib.Nat.{pow-suc, pow-le-pow_right}

pub log2_from-le : (fuel h x : ℕ) → x < 2 ^ suc h → log2_from fuel x ≤ h
unfolding log2_from
log2_from-le zero h x lt = omega arith
log2_from-le (suc fuel) zero x lt = ground arith
log2_from-le (suc fuel) (suc h) x lt =
    let ih : log2_from fuel (x / 2) ≤ h =
      log2_from-le fuel h (x / 2) (omega (arith, pow-suc 2 (suc h))) in
    ground arith

pub sibling-lt : (h i : ℕ) → i < 2 ^ suc h → sibling i < 2 ^ suc h
unfolding sibling
sibling-lt h i lt = let e = pow-suc 2 h in grind arith

-- The node of a leaf of the tree.
pub leaf_id-lt : (h leaf_id : ℕ) → leaf_id < 2 ^ h → leaf_id + 2 ^ h < 2 ^ suc h
leaf_id-lt h leaf_id lt = omega (arith, pow-suc 2 h)

-- In a tree of a height up to 47 no logarithm rounds up to a level below the last one.
rounds_up-last : (h d : ℕ) → h ≤ 47 → 0 < d → rounds_up h d ≡ false
unfolding rounds_up
rounds_up-last h d low some_below =
    let e : log2_from h h ≤ 5 = log2_from-le h 5 h (omega arith) in
    let small : 2 ^ (h + 1 + log2_from h h) ≤ 2 ^ 53 =
      pow-le-pow_right {n = 2} (omega arith) {i = h + 1 + log2_from h h} {j = 53} (omega arith) in
    ground arith

pub level-le : (h i : ℕ) → h ≤ 47 → i < 2 ^ suc h → floor_log2 i ≤ h
unfolding floor_log2
level-le h i low lt =
    let k = log2_from i i in
    let le : k ≤ h = log2_from-le i h i lt in
    elim (Bool-cases (k == h)) [
      | inl same ↦
          let e : k ≡ h = (==_iff k h).0 same in
          let power : 2 ^ (k + 1) ≡ 2 ^ suc h = ap (λ n. 2 ^ n) (omega arith) in
          let down = rounds_up-last k (2 ^ (k + 1) - i) (omega arith) (omega arith) in ground arith
      | inr other ↦ ground arith
    ]

pub All-proof_ids_from :
    (fuel h i : ℕ) → i < 2 ^ suc h → All (λ p. p < 2 ^ suc h) (proof_ids_from fuel i)
unfolding proof_ids_from
All-proof_ids_from zero h i lt = tt
All-proof_ids_from (suc fuel) h i lt =
    let rest = All-proof_ids_from fuel h (i / 2) (omega arith) in
    let first = sibling-lt h i lt in ground arith

pub hash_or_default-Holds :
    (t : Tree) (level : ℕ) (v : Option ℕ) (n : Nodes)
    → level ≤ t.height
    → Holds (λ _ _. Unit {0}) (hash_or_default t level v) n
unfolding hash_or_default default_hash_by_level
hash_or_default-Holds t level (some h) n le = tt
hash_or_default-Holds t level none n le = ground arith
