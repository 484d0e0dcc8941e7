-- ===== src/MerkleTreeDp/Reference.antt =====
-- The root of the tree in memory as a function of its leaves alone.
use zk_obs.Common.{
  ℕ, zero, suc, ◌+◌, ◌-◌, ◌*◌, ◌^◌, ◌≤◌, ◌<◌, ◌≡◌, refl, sym, ap, ◌∙◌, Option, none, some, List, [],
  ◌∷◌, ltb, ◌==◌, if◌then◌else◌, arith, Bool-cases, inl, inr, ==_iff, ltb→lt, lt→ltb, get_elem?,
  length,
}
use zk_obs.MerkleTreeDp.{parse, get_root, get_leaf, update_leaf_node, update_leafs, new_tree}
use zk_obs.MerkleTreeDp.Rehash.{IsHashed}
use zk_obs.MerkleTreeDp.Updates.{parse-IsHashed, parse_from-above, update_leaf_node-IsHashed}
use native.Mathlib.Nat.{mul-le-mul_left, pow-suc, pow-zero, one-le-pow}

-- The leaf of the list, or the default leaf behind its end.
abbrev pub leaf_or : {H : Type 0} → H → Option H → Option H
leaf_or d none = some d
leaf_or d (some h) = some h

-- The room below the two children of node `b` is that below the node.
children_room :
    (b q n r : ℕ) → r ≡ q * 2 → (b + 1) * r ≤ n → ((b * 2 + 1) * q ≤ n) × ((b * 2 + 1 + 1) * q ≤ n)
children_room b q n r e le = let le' : (b + 1) * (q * 2) ≤ n = rw (← e) le in omega arith

inner-lt : (i q n r : ℕ) → r ≡ q * 2 → 0 < q → (i + 1) * r ≤ n * 2 → i < n
inner-lt i q n r e pos le =
    let le' : (i + 1) * (q * 2) ≤ n * 2 = rw (← e) le in
    let more : i * 1 ≤ i * q = mul-le-mul_left i pos in omega arith

module _ {H : Type 0} (hash : Option H → Option H → H) where
  -- The root of the leaves from `b * 2 ^ d` on, up to `(b + 1) * 2 ^ d`.
  unfoldable pub merkle_root : ℕ → (ℕ → Option H) → ℕ → Option H
  merkle_root zero leaves b = leaves b
  merkle_root (suc d) leaves b =
      some (hash (merkle_root d leaves (b * 2)) (merkle_root d leaves (b * 2 + 1)))

  merkle_root_cong :
      (d b n : ℕ) (l l' : ℕ → Option H)
      → (b + 1) * 2 ^ d ≤ n
      → ((j : ℕ) → j < n → l j ≡ l' j)
      → merkle_root d l b ≡ merkle_root d l' b
  unfolding merkle_root
  merkle_root_cong zero b n l l' le same = same b (omega (arith, pow-zero 2))
  merkle_root_cong (suc d) b n l l' le same =
      let room = children_room b (2 ^ d) n (2 ^ suc d) (pow-suc 2 d) le in
      let left = merkle_root_cong d (b * 2) n l l' (room.0) same in
      let right = merkle_root_cong d (b * 2 + 1) n l l' (room.1) same in cc

  -- A node `d` levels above the leaves is the root of the leaves below it.
  node-eq-merkle_root :
      (d p b n : ℕ) (nodes : ℕ → Option H)
      → 0 < p
      → (p + b + 1) * 2 ^ d ≤ n * 2
      → IsHashed hash n nodes
      → nodes (p + b) ≡ merkle_root d (λ j. nodes (j + p * 2 ^ d)) b
  unfolding merkle_root
  node-eq-merkle_root zero p b n nodes pos le all = ap nodes (omega (arith, pow-zero 2))
  node-eq-merkle_root (suc d) p b n nodes pos le all =
      let q = 2 ^ d in
      let e = pow-suc 2 d in
      let one = one-le-pow d 2 (omega arith) in
      let room = children_room (p + b) q (n * 2) (2 ^ suc d) e le in
      let here =
        all (p + b) (omega arith) (inner-lt (p + b) q n (2 ^ suc d) e one le) (omega arith) in
      let base : p * 2 * q ≡ p * 2 ^ suc d = rw e (omega arith) in
      let leaves : (b' : ℕ)
          → merkle_root d (λ j. nodes (j + p * 2 * q)) b'
            ≡ merkle_root d (λ j. nodes (j + p * 2 ^ suc d)) b' =
        λ b'. ap (λ x. merkle_root d (λ j. nodes (j + x)) b') base in
      let shape : (p + b) * 2 ≡ p * 2 + b * 2 = omega arith in
      let after : (p + b) * 2 + 1 + 1 ≡ p * 2 + (b * 2 + 1) + 1 = omega arith in
      let left : nodes ((p + b) * 2) ≡ merkle_root d (λ j. nodes (j + p * 2 ^ suc d)) (b * 2) =
        ap nodes shape
        ∙ (node-eq-merkle_root d (p * 2) (b * 2) n nodes (omega arith) (rw (← shape) (room.0)) all
            ∙ leaves (b * 2)) in
      let right : nodes ((p + b) * 2 + 1)
          ≡ merkle_root d (λ j. nodes (j + p * 2 ^ suc d)) (b * 2 + 1) =
        ap nodes (omega arith)
        ∙ (node-eq-merkle_root d (p * 2) (b * 2 + 1) n nodes (omega arith) (rw (← after) (room.1))
              all
            ∙ leaves (b * 2 + 1)) in
      here ∙ (λ t. some (hash (left t) (right t)))

module _ {H : Type 0} (hash : Option H → Option H → H) (h : ℕ) where
  pub get_root-eq-merkle_root :
      (nodes : ℕ → Option H)
      → IsHashed hash (2 ^ h) nodes
      → get_root nodes ≡ merkle_root hash h (λ j. get_leaf h j nodes) 0
  unfolding get_root get_leaf
  get_root-eq-merkle_root nodes all =
      let at_one : 2 ^ h ≡ 1 * 2 ^ h = omega arith in
      node-eq-merkle_root hash h 1 0 (2 ^ h) nodes (omega arith) (omega arith) all
      ∙ ap (λ x. merkle_root hash h (λ j. nodes (j + x)) 0) (sym at_one)

  -- The leaf of the list that stands at `j`, or the leaf that was there.
  abbrev leaf_after : ℕ → List H → Option H → ℕ → Option H
  leaf_after i leafs old j =
      if ltb j i then old else elim (get_elem? leafs (j - i)) [ none ↦ old | some x ↦ some x ]

  leaf_after-suc :
      (i j : ℕ) (leaf : H) (leafs : List H) (old : Option H)
      → leaf_after (i + 1) leafs (if j == i then some leaf else old) j
        ≡ leaf_after i (leaf ∷ leafs) old j
  leaf_after-suc i j leaf leafs old = elim (Bool-cases (ltb i j)) [
    | inl after ↦
        let lt = ltb→lt i j after in
        let e : j - i ≡ suc (j - (i + 1)) = omega arith in rw e (ground arith)
    | inr upto ↦
        let le : j ≤ i = ground arith in
        elim (Bool-cases (j == i)) [
          | inl same ↦
              let e : j - i ≡ 0 = omega (arith, (==_iff j i).0 same) in
              let k : j ≡ i = (==_iff j i).0 same in rw (e, same) (ground arith)
          | inr other ↦ let before : j < i = ground arith in rw other (ground arith)
        ]
  ]

  update_leafs-IsHashed :
      (i : ℕ) (leafs : List H) (nodes : ℕ → Option H)
      → i + length leafs ≤ 2 ^ h
      → IsHashed hash (2 ^ h) nodes
      → IsHashed hash (2 ^ h) (update_leafs hash h i leafs nodes)
        × ((j : ℕ)
            → get_leaf h j (update_leafs hash h i leafs nodes)
              ≡ leaf_after i leafs (get_leaf h j nodes) j)
  unfolding update_leafs
  update_leafs-IsHashed i [] nodes le all = (all, λ j. ground arith)
  update_leafs-IsHashed i (leaf ∷ leafs) nodes le all =
      let step = update_leaf_node-IsHashed hash h i leaf nodes (omega arith) all in
      let (hashed, leaves) =
        update_leafs-IsHashed (i + 1) leafs (update_leaf_node hash h i leaf nodes) (omega arith)
          (step.0) in
      (
        hashed,
        λ j.
            leaves j
            ∙ (ap (λ old. leaf_after (i + 1) leafs old j) (step.1 j)
                ∙ leaf_after-suc i j leaf leafs (get_leaf h j nodes)),
      )

  parse_leaf : (d : H) (j : ℕ) → j < 2 ^ h → get_leaf h j (parse hash h d) ≡ some d
  unfolding get_leaf parse
  parse_leaf d j lt =
      let e = pow-suc 2 h in
      let start : ℕ → Option H = λ i. if ltb i (2 ^ (h + 1)) then some d else none in
      let pw : 2 ^ (h + 1) ≡ 2 ^ h * 2 = ap (λ x. 2 ^ x) (omega arith) ∙ e in
      let small = lt→ltb (j + 2 ^ h) (2 ^ (h + 1)) (rw pw (omega arith)) in
      parse_from-above hash (2 ^ h - 1) (j + 2 ^ h) start (omega arith) ∙ rw small refl

  -- The root of a tree that is built of at most `2 ^ treeHeight` leaves is the root of these leaves,
  -- and of default leaves behind them, hashed in pairs level by level.
  pub new_tree-get_root :
      (leafs : List H) (d : H)
      → length leafs ≤ 2 ^ h
      → get_root (new_tree hash h leafs d)
        ≡ merkle_root hash h (λ j. leaf_or d (get_elem? leafs j)) 0
  unfolding new_tree
  new_tree-get_root leafs d le =
      let (hashed, leaves) =
        update_leafs-IsHashed 0 leafs (parse hash h d) (omega arith) (parse-IsHashed hash h d) in
      get_root-eq-merkle_root (update_leafs hash h 0 leafs (parse hash h d)) hashed
      ∙ merkle_root_cong hash h 0 (2 ^ h) _ (λ j. leaf_or d (get_elem? leafs j)) (omega arith)
          λ j lt. let old = parse_leaf d j lt in let new = leaves j in ground arith
