-- ===== src/Trees/Account.antt =====
-- backend/common/ts-typeorm/src/account/tsAccountTree.service.ts: the account tree.
use zk_obs.Common.{ℕ, Option, none, some, List, [], ◌∷◌, reverse}
use zk_obs.Common.Int.{pos}
use zk_obs.Common.Action.{Action, ok, ts_addr_null, ◌>>=◌, ◌>>◌, gets, modify, of_result, or_throw}
use zk_obs.Merkle.{
  manager, put, find_node, repository_upsert, manager_upsert, update_path, default_hash_by_level,
  floor_log2, leaf_id_in_tree, proof_ids,
}
use zk_obs.Trees.{
  Config, AccountLeaf, Trees, on_account_nodes, transaction, token_tree, account_tree, default_root,
}
use zk_obs.Trees.Token
use zk_obs.Trees.Token.{UpdateTokenTreeDto}
use mathlib.Core.List.{filter_map}

-- UpdateAccountTreeDto; a field that is left out is `none`.
pub record UpdateAccountTreeDto : Type 0 where
  pub leaf_id : ℕ
  pub ts_addr : Option ℕ
  pub nonce : Option ℕ
  pub token_root : Option ℕ

-- `value.field || originValue.field`
abbrev pub or_origin : Option ℕ → ℕ → ℕ
or_origin none origin = origin
or_origin (some v) _ = v

module _ (cfg : Config) where
  -- `getLeaf`: a missing row reads as an empty account, and nothing is written.
  unfoldable pub get_leaf : ℕ → Trees → AccountLeaf
  unfolding default_root token_tree
  get_leaf account s = elim (s.account_leaf account) [
    | some a ↦ a
    | none ↦ record { ts_addr = 0; nonce = 0; token_root = default_root (token_tree cfg) }
  ]

  -- `getRoot`: a missing root row is inserted with the default root.
  unfoldable pub get_root : Action Trees ℕ
  unfolding default_root account_tree
  get_root s = elim (find_node cfg.isolation 1 s.account_nodes) [
    | some h ↦ (ok h, s)
    | none ↦
        (let h = default_root (account_tree cfg) in
          (ok h, record s { account_nodes = repository_upsert cfg.isolation 1 h s.account_nodes }))
  ]

  -- `_updateLeaf`. The leaf's row and its node row stand in different tables.
  unfoldable pub update_leaf_in : ℕ → UpdateAccountTreeDto → Action Trees (Unit {0})
  unfolding get_leaf update_path account_tree
  update_leaf_in account v = do
    origin ← gets (get_leaf account)
    let leaf : AccountLeaf = record {
      ts_addr = or_origin v.ts_addr origin.ts_addr;
      nonce = or_origin v.nonce origin.nonce;
      token_root = or_origin v.token_root origin.token_root;
    }
    let hash = cfg.poseidon (pos leaf.ts_addr ∷ pos leaf.nonce ∷ pos leaf.token_root ∷ [])
    modify (λ s. record s { account_leaf = put s.account_leaf account leaf })
    on_account_nodes (update_path (account_tree cfg) manager cfg.isolation account hash)

  -- `updateLeaf`
  unfoldable pub update_leaf : ℕ → UpdateAccountTreeDto → Action Trees (Unit {0})
  unfolding update_leaf_in transaction
  update_leaf account v = transaction (update_leaf_in account v)

  -- `updateTokenLeaf`: the token's leaf and the account's, in one transaction.
  unfoldable pub update_token_leaf : ℕ → UpdateTokenTreeDto → Action Trees (Unit {0})
  unfolding update_leaf_in transaction Token.update_leaf_in
  update_token_leaf account v = transaction do
    token_root ← Token.update_leaf_in cfg v.leaf_id v
    update_leaf_in v.account_id
        (record { leaf_id = account; ts_addr = none; nonce = none; token_root = some token_root })

  -- `addLeaf`: the node row gets the default hash, and the path to the root is left alone.
  unfoldable pub add_leaf : UpdateAccountTreeDto → Action Trees (Unit {0})
  unfolding default_hash_by_level floor_log2 leaf_id_in_tree account_tree token_tree default_root
      transaction
  add_leaf v = do
    ts_addr ← or_throw v.ts_addr ts_addr_null
    let id = leaf_id_in_tree (account_tree cfg) v.leaf_id
    hash ← of_result (default_hash_by_level (account_tree cfg) (floor_log2 id))
    let leaf : AccountLeaf = record {
      ts_addr = ts_addr;
      nonce = 0;
      token_root = default_root (token_tree cfg);
    }
    transaction do
      on_account_nodes (modify (manager_upsert id hash))
      modify (λ s. record s { account_leaf = put s.account_leaf v.leaf_id leaf })

  -- `getMerklerProof`: the rows that are there, in ascending order of their ids. The proof ids
  -- descend, so the order is theirs reversed.
  unfoldable pub get_merkle_proof : ℕ → Trees → List ℕ
  unfolding account_tree proof_ids
  get_merkle_proof account s =
      filter_map (λ i. find_node cfg.isolation i s.account_nodes)
        (reverse (proof_ids (account_tree cfg) account))
