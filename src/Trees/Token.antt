-- ===== src/Trees/Token.antt =====
-- backend/common/ts-typeorm/src/account/tsTokenTree.service.ts: the token tree of each account.
use zk_obs.Common.{ℕ, none, some, List, [], ◌∷◌, reverse}
use zk_obs.Common.Int.{ℤ, pos}
use mathlib.Core.List.{filter_map}
use zk_obs.Common.Action.{
  pure, Action, ok, not_found, ◌>>=◌, ◌>>◌, gets, modify, of_result, or_throw,
}
use zk_obs.Merkle.{
  Nodes, proof_ids, repository, find_node, repository_upsert, manager_upsert, update_path,
  default_hash_by_level, floor_log2, leaf_id_in_tree,
}
use zk_obs.Trees.{
  Config, TokenLeaf, Trees, put_token, on_token_nodes, transaction, token_tree, default_root,
}

-- UpdateTokenTreeDto
pub record UpdateTokenTreeDto : Type 0 where
  pub leaf_id : ℕ
  pub account_id : ℕ
  pub locked_amt : ℤ
  pub available_amt : ℤ

-- `getRoot` on the rows of one account: a missing root row is inserted with the default root.
unfoldable pub root_of_nodes : Config → Action Nodes ℕ
unfolding default_root token_tree
root_of_nodes cfg n = elim (find_node cfg.isolation 1 n) [
  | some h ↦ (ok h, n)
  | none ↦ let h = default_root (token_tree cfg) in (ok h, repository_upsert cfg.isolation 1 h n)
]

module _ (cfg : Config) where
  unfoldable pub get_root : ℕ → Action Trees ℕ
  unfolding root_of_nodes
  get_root account = on_token_nodes account (root_of_nodes cfg)

  -- `_updateLeaf`: the leaf's hash takes the token, the locked and the available amount.
  unfoldable pub update_leaf_in : ℕ → UpdateTokenTreeDto → Action Trees ℕ
  unfolding update_path get_root token_tree
  update_leaf_in token v = do
    let hash = cfg.poseidon (pos v.leaf_id ∷ v.locked_amt ∷ v.available_amt ∷ [])
    let leaf : TokenLeaf = record { available_amt = v.available_amt; locked_amt = v.locked_amt }
    modify (λ s. record s { token_leaf = put_token s.token_leaf v.account_id token leaf })
    on_token_nodes v.account_id (update_path (token_tree cfg) repository cfg.isolation token hash)
    get_root v.account_id

  -- `updateLeaf`: nothing of it stays where it throws but what the repositories wrote.
  unfoldable pub update_leaf : ℕ → UpdateTokenTreeDto → Action Trees (Unit {0})
  unfolding transaction update_leaf_in
  update_leaf token v = do transaction (update_leaf_in token v); pure tt

  -- `getLeaf`: a missing leaf is written to both tables first.
  unfoldable pub get_leaf : ℕ → ℕ → Action Trees TokenLeaf
  unfolding transaction default_hash_by_level floor_log2 leaf_id_in_tree token_tree
  get_leaf token account s = elim (s.token_leaf account token) [
    | some l ↦ (ok l, s)
    | none ↦
        (do
          let id = leaf_id_in_tree (token_tree cfg) token
          hash ← of_result (default_hash_by_level (token_tree cfg) (floor_log2 id))
          let leaf : TokenLeaf = record { available_amt = pos 0; locked_amt = pos 0 }
          transaction do
            on_token_nodes account (modify (manager_upsert id hash))
            modify (λ u. record u { token_leaf = put_token u.token_leaf account token leaf })
          or_throw (← gets (λ u. u.token_leaf account token)) not_found)
          s
  ]

  -- `getMerklerProofByAccountId`: the rows that are there, in ascending order of their ids.
  unfoldable pub get_merkle_proof : ℕ → ℕ → Trees → List ℕ
  unfolding token_tree proof_ids
  get_merkle_proof token account s =
      filter_map (λ i. find_node cfg.isolation i (s.token_nodes account))
        (reverse (proof_ids (token_tree cfg) token))
