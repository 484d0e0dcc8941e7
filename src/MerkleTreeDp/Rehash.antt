-- ===== src/MerkleTreeDp/Rehash.antt =====
-- The invariant of the tree in memory: each inner node is the hash of its children.
use zk_obs.Common.{
  ℕ, zero, suc, ◌+◌, ◌-◌, ◌*◌, ◌/◌, ◌%◌, ◌≤◌, ◌<◌, ◌≡◌, ◌≢◌, refl, sym, ap, ◌∙◌, Option, some, ltb,
  ◌==◌, if◌then◌else◌, arith, Bool-cases, inl, inr, ==_iff, ltb→lt,
}
use zk_obs.Merkle.{sibling}
use zk_obs.MerkleTreeDp.{set_node, proof_from, hash_with, update_from}

module _ {H : Type 0} (hash : Option H → Option H → H) where
  -- Of the inner nodes below `n`, each but node `except` is the hash of its children.
  abbrev pub IsHashedBut : ℕ → ℕ → (ℕ → Option H) → Type 0
  IsHashedBut n except nodes =
      (k : ℕ)
      → 0 < k
      → k < n
      → k ≢ except
      → nodes k ≡ some (hash (nodes (k * 2)) (nodes (k * 2 + 1)))

  abbrev pub IsHashed : ℕ → (ℕ → Option H) → Type 0
  IsHashed n nodes = IsHashedBut n 0 nodes

  -- A node is made the hash of its children.
  abbrev pub rehash : ℕ → (ℕ → Option H) → ℕ → Option H
  rehash k nodes = set_node nodes k (hash (nodes (k * 2)) (nodes (k * 2 + 1)))

  -- The nodes above node `i` are, one after the other.
  pub refresh : ℕ → ℕ → (ℕ → Option H) → ℕ → Option H
  refresh zero i nodes = nodes
  refresh (suc fuel) i nodes =
      let rest = refresh fuel (i / 2) (rehash (i / 2) nodes) in if ltb 1 i then rest else nodes

  pub set_node-IsHashedBut :
      (n i : ℕ) (h : H) (nodes : ℕ → Option H)
      → n ≤ i
      → IsHashed n nodes
      → IsHashedBut n (i / 2) (set_node nodes i h)
  set_node-IsHashedBut n i h nodes le all k lo hi ne =
      let e = all k lo hi (omega arith) in ground arith

  rehash-IsHashedBut :
      (n k : ℕ) (nodes : ℕ → Option H)
      → 0 < k
      → IsHashedBut n k nodes
      → IsHashedBut n (k / 2) (rehash k nodes)
  rehash-IsHashedBut n k nodes pos all j lo hi ne = elim (Bool-cases (j == k)) [
    | inl e ↦ let same : j ≡ k = (==_iff j k).0 e in ground arith
    | inr e ↦
        let other : j ≢ k = λ same. cc (e, (==_iff j k).1 same) in
        let old = all j lo hi other in ground arith
  ]

  -- The nodes from `n` on stay.
  pub refresh-above :
      (fuel n i j : ℕ) (nodes : ℕ → Option H) → i < n * 2 → n ≤ j → refresh fuel i nodes j ≡ nodes j
  unfolding refresh
  refresh-above zero n i j nodes lt le = refl
  refresh-above (suc fuel) n i j nodes lt le =
      let ih = refresh-above fuel n (i / 2) j (rehash (i / 2) nodes) (omega arith) le in
      ground arith

  pub refresh-IsHashed :
      (fuel n i : ℕ) (nodes : ℕ → Option H)
      → 0 < i
      → i ≤ fuel
      → IsHashedBut n (i / 2) nodes
      → IsHashed n (refresh fuel i nodes)
  unfolding refresh
  refresh-IsHashed zero n i nodes pos en all = absurd (omega arith)
  refresh-IsHashed (suc fuel) n i nodes pos en all = elim (Bool-cases (ltb 1 i)) [
    | inl more ↦
        let two : 1 < i = ltb→lt 1 i more in
        rw more (
          refresh-IsHashed fuel n (i / 2) (rehash (i / 2) nodes) (omega arith) (omega arith)
            (rehash-IsHashedBut n (i / 2) nodes (omega arith) all))
    | inr last ↦ let one : i ≡ 1 = ground arith in rw last (λ k lo hi ne. all k lo hi (omega arith))
  ]

  -- A node above those that the proof is made of is no part of it.
  proof_from-set_node :
      (fuel i k : ℕ) (h : H) (nodes : ℕ → Option H)
      → i + 1 < k
      → proof_from fuel i (set_node nodes k h) ≡ proof_from fuel i nodes
  unfolding proof_from sibling
  proof_from-set_node zero i k h nodes lt = refl
  proof_from-set_node (suc fuel) i k h nodes lt =
      let ih = proof_from-set_node fuel (i / 2) k h nodes (omega arith) in ground arith

  pub proof_from-set_self :
      (fuel i : ℕ) (h : H) (nodes : ℕ → Option H)
      → proof_from fuel i (set_node nodes i h) ≡ proof_from fuel i nodes
  unfolding proof_from sibling
  proof_from-set_self zero i h nodes = refl
  proof_from-set_self (suc zero) i h nodes = ground arith
  proof_from-set_self (suc (suc fuel)) i h nodes =
      let far = λ (lt : 1 < i / 2). proof_from-set_node fuel (i / 2 / 2) i h nodes (omega arith) in
      elim (Bool-cases (ltb 1 (i / 2))) [
        | inl more ↦ let e = far (ltb→lt 1 (i / 2) more) in ground arith
        | inr last ↦ ground arith
      ]

  pub hash_with-sibling :
      (i : ℕ) (nodes : ℕ → Option H)
      → hash_with hash i (nodes i) (nodes (sibling i))
        ≡ hash (nodes (i / 2 * 2)) (nodes (i / 2 * 2 + 1))
  unfolding hash_with sibling
  hash_with-sibling i nodes = elim (Bool-cases (i % 2 == 0)) [
    | inl even ↦
        let e : i ≡ i / 2 * 2 = ground arith in
        let f : i + 1 ≡ i / 2 * 2 + 1 = omega arith in
        rw even (λ t. hash (nodes (e t)) (nodes (f t)))
    | inr odd ↦
        let e : i ≡ i / 2 * 2 + 1 = ground arith in
        let f : i - 1 ≡ i / 2 * 2 = omega arith in rw odd (λ t. hash (nodes (f t)) (nodes (e t)))
  ]

  -- With the proof that `getProof` gives, the loop makes each node the hash of its children.
  pub update_from-eq-refresh :
      (fuel i : ℕ) (nodes : ℕ → Option H)
      → update_from hash fuel i (proof_from fuel i nodes) nodes ≡ refresh fuel i nodes
  unfolding update_from proof_from refresh sibling
  update_from-eq-refresh zero i nodes = refl
  update_from-eq-refresh (suc fuel) i nodes = elim (Bool-cases (ltb 1 i)) [
    | inl more ↦
        let k = i / 2 in
        let ih = update_from-eq-refresh fuel k (rehash k nodes) in
        let same : proof_from fuel k (rehash k nodes) ≡ proof_from fuel k nodes =
          proof_from-set_self fuel k (hash (nodes (k * 2)) (nodes (k * 2 + 1))) nodes in
        let value = hash_with-sibling i nodes in
        rw more (
          ap (λ v. update_from hash fuel k (proof_from fuel k nodes) (set_node nodes k v)) value
          ∙ (ap (λ prf. update_from hash fuel k prf (rehash k nodes)) (sym same) ∙ ih))
    | inr last ↦ rw last refl
  ]
