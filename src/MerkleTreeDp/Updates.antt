-- ===== src/MerkleTreeDp/Updates.antt =====
-- `parse` makes a tree of hashes, and `updateLeafNode` keeps it one.
use zk_obs.Common.{
  ℕ, zero, suc, ◌+◌, ◌-◌, ◌*◌, ◌^◌, ◌<◌, ◌≡◌, ◌≢◌, refl, sym, ap, ◌∙◌, Option, none, some, ltb,
  ◌==◌, if◌then◌else◌, arith, Bool-cases, inl, inr, ==_iff,
}
use zk_obs.MerkleTreeDp.{
  set_node, parse_from, parse, get_leaf, get_proof, update_from, update_leaf_node,
}
use zk_obs.MerkleTreeDp.Rehash.{
  IsHashed, refresh, refresh-above, refresh-IsHashed, proof_from-set_self, update_from-eq-refresh,
  set_node-IsHashedBut,
}
use mathlib.Core.Path.{subst}
use native.Mathlib.Nat.{one-le-pow}

module _ {H : Type 0} (hash : Option H → Option H → H) where
  -- Of the inner nodes from `a` on, each is the hash of its children.
  abbrev HashedFrom : ℕ → ℕ → (ℕ → Option H) → Type 0
  HashedFrom n a nodes =
      (k : ℕ) → a < k → k < n → nodes k ≡ some (hash (nodes (k * 2)) (nodes (k * 2 + 1)))

  parse_step :
      (n a : ℕ) (nodes : ℕ → Option H)
      → HashedFrom n (suc a) nodes
      → HashedFrom n a (set_node nodes (suc a) (hash (nodes (suc a * 2)) (nodes (suc a * 2 + 1))))
  parse_step n a nodes all k lo hi = elim (Bool-cases (k == suc a)) [
    | inl e ↦ let same : k ≡ suc a = (==_iff k (suc a)).0 e in ground arith
    | inr e ↦
        let other : k ≢ suc a = λ same. cc (e, (==_iff k (suc a)).1 same) in
        let old = all k (omega arith) hi in ground arith
  ]

  parse_from-HashedFrom :
      (n a : ℕ) (nodes : ℕ → Option H)
      → HashedFrom n a nodes
      → HashedFrom n 0 (parse_from hash a nodes)
  unfolding parse_from
  parse_from-HashedFrom n zero nodes all = all
  parse_from-HashedFrom n (suc a) nodes all =
      parse_from-HashedFrom n a
        (set_node nodes (suc a) (hash (nodes (suc a * 2)) (nodes (suc a * 2 + 1))))
        (parse_step n a nodes all)

  pub parse_from-above :
      (a j : ℕ) (nodes : ℕ → Option H) → a < j → parse_from hash a nodes j ≡ nodes j
  unfolding parse_from
  parse_from-above zero j nodes lt = refl
  parse_from-above (suc a) j nodes lt =
      parse_from-above a j
        (set_node nodes (suc a) (hash (nodes (suc a * 2)) (nodes (suc a * 2 + 1)))) (omega arith)
      ∙ ground arith

  pub parse-IsHashed :
      (h : ℕ) (default_leaf : H) → IsHashed hash (2 ^ h) (parse hash h default_leaf)
  unfolding parse
  parse-IsHashed h default_leaf k lo hi ne =
      let start : ℕ → Option H = λ i. if ltb i (2 ^ (h + 1)) then some default_leaf else none in
      parse_from-HashedFrom (2 ^ h) (2 ^ h - 1) start (λ j l u. absurd (omega arith)) k lo hi

  update_leaf_node-eq-refresh :
      (h leaf_id : ℕ) (value : H) (nodes : ℕ → Option H)
      → update_leaf_node hash h leaf_id value nodes
        ≡ refresh hash (leaf_id + 2 ^ h) (leaf_id + 2 ^ h) (set_node nodes (leaf_id + 2 ^ h) value)
  unfolding update_leaf_node get_proof
  update_leaf_node-eq-refresh h leaf_id value nodes =
      let i = leaf_id + 2 ^ h in
      let m = set_node nodes i value in
      ap (λ prf. update_from hash i i prf m) (sym (proof_from-set_self hash i i value nodes))
      ∙ update_from-eq-refresh hash i i m

  -- `updateLeafNode` of a leaf of the tree, whose inner nodes are the hashes of their children, keeps
  -- them the hashes of their children. The leaf has the new value, and the other leaves stay.
  pub update_leaf_node-IsHashed :
      (h leaf_id : ℕ) (value : H) (nodes : ℕ → Option H)
      → leaf_id < 2 ^ h
      → IsHashed hash (2 ^ h) nodes
      → IsHashed hash (2 ^ h) (update_leaf_node hash h leaf_id value nodes)
        × ((j : ℕ)
            → get_leaf h j (update_leaf_node hash h leaf_id value nodes)
              ≡ (if j == leaf_id then some value else get_leaf h j nodes))
  unfolding get_leaf
  update_leaf_node-IsHashed h leaf_id value nodes lt all =
      let i = leaf_id + 2 ^ h in
      let one = one-le-pow h 2 (omega arith) in
      let e = update_leaf_node-eq-refresh h leaf_id value nodes in
      let new =
        refresh-IsHashed hash i (2 ^ h) i (set_node nodes i value) (omega arith) (omega arith)
          (set_node-IsHashedBut hash (2 ^ h) i value nodes (omega arith) all) in
      (
        subst (IsHashed hash (2 ^ h)) (sym e) new,
        λ j.
            ap (λ m. m (j + 2 ^ h)) e
            ∙ (refresh-above hash i (2 ^ h) i (j + 2 ^ h) (set_node nodes i value) (omega arith)
                  (omega arith)
                ∙ ground arith),
      )
