-- ===== src/Sequencer/Updates.antt =====
-- The hooks of backend/ts-sequencer/src/infrastructure/sequencer.processor.ts that record leaves,
-- roots and proofs in a block's payload, before and after each update of a tree.
use zk_obs.Common.{ℕ, none, some, [], ◌∷◌}
use zk_obs.Common.Action.{
  Action, account_not_found, type_error, ◌>>=◌, ◌>>◌, gets, modify, or_throw,
}
use zk_obs.Trees.{
  encode_account, encode_token, encode_order, default_account_leaf_message,
  default_token_leaf_message, default_obs_order_leaf_message, default_root, token_tree,
}
use zk_obs.Trees.Account
use zk_obs.Trees.Token
use zk_obs.Trees.Order
use zk_obs.Sequencer.{Sequencer, RootItem, root_object, root_hash, Env, on_trees, read_trees}
use zk_obs.Sequencer.Payload.{
  push, push_pair, push_at, last_index, on_account_payload, on_order_payload,
}
use zk_obs.Sequencer.Accounts.{get_account}

-- `payload.r_accountRootFlow[idx].push(root)`
abbrev pub push_account_root : ℕ → RootItem → Action Sequencer (Unit {0})
push_account_root idx root = do
  flow ←
      or_throw (← gets (λ s. push_at idx root s.current_account_payload.r_account_root_flow))
        type_error
  modify (on_account_payload (λ p. record p { r_account_root_flow = flow }))

-- `payload.r_tokenRootFlow[idx].push(root)`
abbrev pub push_token_root : ℕ → ℕ → Action Sequencer (Unit {0})
push_token_root idx root = do
  flow ←
      or_throw (← gets (λ s. push_at idx root s.current_account_payload.r_token_root_flow))
        type_error
  modify (on_account_payload (λ p. record p { r_token_root_flow = flow }))

abbrev push_account_id : ℕ → Action Sequencer (Unit {0})
push_account_id account = modify (
    on_account_payload
      (λ p. record p { r_account_leaf_id = push_pair account p.r_account_leaf_id }))

abbrev push_token_id : ℕ → Action Sequencer (Unit {0})
push_token_id token =
    modify
      (on_account_payload (λ p. record p { r_token_leaf_id = push_pair token p.r_token_leaf_id }))

module _ (env : Env) where
  -- `tokenBeforeUpdate`
  unfoldable pub token_before_update : ℕ → ℕ → Action Sequencer (Unit {0})
  unfolding push_pair get_account default_root token_tree default_token_leaf_message encode_token
      Token.get_leaf Token.get_root Token.get_merkle_proof
  token_before_update account token = do
    found ← read_trees (get_account env.config account)
    push_token_id token
    elim found [
      | none ↦ do
        mkp ← read_trees (Token.get_merkle_proof env.config 0 0)
        modify (
            on_account_payload (λ p. record p {
              r_token_root_flow =
                  push (default_root (token_tree env.config) ∷ []) p.r_token_root_flow;
              r_ori_token_leaf = push default_token_leaf_message p.r_ori_token_leaf;
              r_token_mk_prf = push mkp p.r_token_mk_prf;
            }))
      | some _ ↦ do
        token_info ← on_trees (Token.get_leaf env.config token account)
        token_root ← on_trees (Token.get_root env.config account)
        mk_prf ← read_trees (Token.get_merkle_proof env.config token account)
        modify (
            on_account_payload (λ p. record p {
              r_token_root_flow = push (token_root ∷ []) p.r_token_root_flow;
              r_ori_token_leaf = push (encode_token token_info) p.r_ori_token_leaf;
              r_token_mk_prf = push mk_prf p.r_token_mk_prf;
            }))
    ]

  -- `tokenAfterUpdate`
  unfoldable pub token_after_update : ℕ → ℕ → Action Sequencer (Unit {0})
  unfolding push_at get_account encode_token Token.get_leaf Token.get_root
  token_after_update account token = do
    _ ← or_throw (← read_trees (get_account env.config account)) account_not_found
    token_info ← on_trees (Token.get_leaf env.config token account)
    token_root ← on_trees (Token.get_root env.config account)
    idx ← gets (λ s. last_index s.current_account_payload.r_token_root_flow)
    modify (
        on_account_payload
          (λ p. record p { r_new_token_leaf = push (encode_token token_info) p.r_new_token_leaf }))
    push_token_root idx token_root

  -- `accountBeforeUpdate`: of an account that is not there the root's hash is pushed, else its row.
  unfoldable pub account_before_update : ℕ → Action Sequencer (Unit {0})
  unfolding push_pair get_account encode_account default_account_leaf_message Account.get_leaf
      Account.get_root Account.get_merkle_proof Token.get_root
  account_before_update account = do
    found ← read_trees (get_account env.config account)
    push_account_id account
    elim found [
      | none ↦ do
        mkp ← read_trees (Account.get_merkle_proof env.config 0)
        root ← on_trees (Account.get_root env.config)
        token_root ← on_trees (Token.get_root env.config account)
        modify (
            on_account_payload (λ p. record p {
              r_ori_account_leaf =
                  push (default_account_leaf_message token_root) p.r_ori_account_leaf;
              r_account_root_flow = push (root_hash root ∷ []) p.r_account_root_flow;
              r_account_mk_prf = push mkp p.r_account_mk_prf;
            }))
      | some _ ↦ do
        mkp ← read_trees (Account.get_merkle_proof env.config account)
        leaf ← read_trees (Account.get_leaf env.config account)
        root ← on_trees (Account.get_root env.config)
        modify (
            on_account_payload (λ p. record p {
              r_ori_account_leaf = push (encode_account leaf) p.r_ori_account_leaf;
              r_account_root_flow = push (root_object root ∷ []) p.r_account_root_flow;
              r_account_mk_prf = push mkp p.r_account_mk_prf;
            }))
    ]

  -- `accountAfterUpdate`
  unfoldable pub account_after_update : ℕ → Action Sequencer (Unit {0})
  unfolding push_at get_account encode_account Account.get_root
  account_after_update account = do
    leaf ← or_throw (← read_trees (get_account env.config account)) account_not_found
    idx ← gets (λ s. last_index s.current_account_payload.r_account_root_flow)
    root ← on_trees (Account.get_root env.config)
    modify (
        on_account_payload
          (λ p. record p { r_new_account_leaf = push (encode_account leaf) p.r_new_account_leaf }))
    push_account_root idx (root_object root)

  -- `accountAndTokenBeforeUpdate`
  unfoldable pub account_and_token_before_update : ℕ → ℕ → Action Sequencer (Unit {0})
  unfolding push_pair get_account encode_account encode_token default_account_leaf_message
      default_token_leaf_message default_root token_tree Account.get_leaf Account.get_root
      Account.get_merkle_proof Token.get_leaf Token.get_root Token.get_merkle_proof
  account_and_token_before_update account token = do
    found ← read_trees (get_account env.config account)
    push_account_id account
    push_token_id token
    root ← on_trees (Account.get_root env.config)
    modify (
        on_account_payload (λ p. record p {
          r_account_root_flow = push (root_object root ∷ []) p.r_account_root_flow;
        }))
    elim found [
      | none ↦ do
        token_root ← on_trees (Token.get_root env.config account)
        account_mkp ← read_trees (Account.get_merkle_proof env.config 0)
        token_mkp ← read_trees (Token.get_merkle_proof env.config 0 0)
        modify (
            on_account_payload (λ p. record p {
              r_ori_account_leaf =
                  push (default_account_leaf_message token_root) p.r_ori_account_leaf;
              r_account_mk_prf = push account_mkp p.r_account_mk_prf;
              r_token_root_flow =
                  push (default_root (token_tree env.config) ∷ []) p.r_token_root_flow;
              r_ori_token_leaf = push default_token_leaf_message p.r_ori_token_leaf;
              r_token_mk_prf = push token_mkp p.r_token_mk_prf;
            }))
      | some _ ↦ do
        account_mkp ← read_trees (Account.get_merkle_proof env.config account)
        account_leaf ← read_trees (Account.get_leaf env.config account)
        token_info ← on_trees (Token.get_leaf env.config token account)
        token_root ← on_trees (Token.get_root env.config account)
        token_mkp ← read_trees (Token.get_merkle_proof env.config token account)
        modify (
            on_account_payload (λ p. record p {
              r_ori_account_leaf = push (encode_account account_leaf) p.r_ori_account_leaf;
              r_account_mk_prf = push account_mkp p.r_account_mk_prf;
              r_token_root_flow = push (token_root ∷ []) p.r_token_root_flow;
              r_ori_token_leaf = push (encode_token token_info) p.r_ori_token_leaf;
              r_token_mk_prf = push token_mkp p.r_token_mk_prf;
            }))
    ]

  -- `accountAndTokenAfterUpdate`: both flows take their roots at the account flow's last entry.
  unfoldable pub account_and_token_after_update : ℕ → ℕ → Action Sequencer (Unit {0})
  unfolding push_at encode_account encode_token Account.get_leaf Account.get_root Token.get_leaf
      Token.get_root
  account_and_token_after_update account token = do
    token_info ← on_trees (Token.get_leaf env.config token account)
    token_root ← on_trees (Token.get_root env.config account)
    account_root ← on_trees (Account.get_root env.config)
    account_leaf ← read_trees (Account.get_leaf env.config account)
    idx ← gets (λ s. last_index s.current_account_payload.r_account_root_flow)
    modify (
        on_account_payload (λ p. record p {
          r_new_account_leaf = push (encode_account account_leaf) p.r_new_account_leaf;
        }))
    push_account_root idx (root_object account_root)
    modify (
        on_account_payload
          (λ p. record p { r_new_token_leaf = push (encode_token token_info) p.r_new_token_leaf }))
    push_token_root idx token_root

  -- `orderBeforeUpdate`
  unfoldable pub order_before_update : ℕ → Action Sequencer (Unit {0})
  unfolding encode_order default_obs_order_leaf_message Order.get_leaf Order.get_root
      Order.get_merkle_proof
  order_before_update order_leaf_id = do
    order ← read_trees (Order.get_leaf order_leaf_id)
    modify (
        on_order_payload
          (λ p. record p { r_order_leaf_id = push (order_leaf_id ∷ []) p.r_order_leaf_id }))
    root ← on_trees (Order.get_root env.config)
    order_mkp ← read_trees (Order.get_merkle_proof env.config order_leaf_id)
    modify (
        on_order_payload (λ p. record p {
          r_ori_order_leaf =
              push (elim order [ some o ↦ encode_order o | none ↦ default_obs_order_leaf_message ])
                p.r_ori_order_leaf;
          r_order_root_flow = push (root ∷ []) p.r_order_root_flow;
          r_order_mk_prf = push order_mkp p.r_order_mk_prf;
        }))

  -- `orderAfterUpdate`
  unfoldable pub order_after_update : ℕ → Action Sequencer (Unit {0})
  unfolding push_at encode_order default_obs_order_leaf_message Order.get_leaf Order.get_root
  order_after_update order_leaf_id = do
    order ← read_trees (Order.get_leaf order_leaf_id)
    root ← on_trees (Order.get_root env.config)
    flow ←
        or_throw
          (← gets (λ s.
            let flows = s.current_order_payload.r_order_root_flow in
            push_at (last_index flows) root flows))
          type_error
    modify (
        on_order_payload (λ p. record p {
          r_order_root_flow = flow;
          r_new_order_leaf =
              push (elim order [ some o ↦ encode_order o | none ↦ default_obs_order_leaf_message ])
                p.r_new_order_leaf;
        }))
