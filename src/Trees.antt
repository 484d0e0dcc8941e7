-- ===== src/Trees.antt =====
-- The tables behind the three tree services of backend/common/ts-typeorm/src (account, token and
-- order trees), the leaf entities with their encodings, and a database transaction over them.
pub mod Account
pub mod Token
pub mod Order
use zk_obs.Common.{ℕ, Option, some, List, [], ◌∷◌, ◌==◌, if◌then◌else◌, ◌&&◌}
use zk_obs.Common.Int.{ℤ, pos}
use zk_obs.Common.Action.{Action, ok, err}
use zk_obs.Merkle.{Isolation, Nodes, Tree, commit_nodes, drop_pending, default_hash_by_level}

-- The settings of the services, the hash of the `poseidon` package, and what a repository read
-- sees while a transaction is open.
pub record Config : Type 0 where
  pub poseidon : List ℤ → ℕ
  pub accounts_tree_height : ℕ
  pub tokens_tree_height : ℕ
  pub order_tree_height : ℕ
  pub isolation : Isolation

-- AccountLeafNode
pub record AccountLeaf : Type 0 where
  pub ts_addr : ℕ
  pub nonce : ℕ
  pub token_root : ℕ

-- TokenLeafNode; nothing keeps its amounts from falling below zero.
pub record TokenLeaf : Type 0 where
  pub available_amt : ℤ
  pub locked_amt : ℤ

-- ObsOrderLeafEntity
pub record ObsOrderLeaf : Type 0 where
  pub order_leaf_id : ℕ
  pub tx_id : ℕ
  pub req_type : ℕ
  pub sender : ℕ
  pub sell_token_id : ℕ
  pub sell_amt : ℕ
  pub nonce : ℕ
  pub buy_token_id : ℕ
  pub buy_amt : ℕ
  pub accumulated_sell_amt : ℕ
  pub accumulated_buy_amt : ℕ

-- `AccountLeafNode.encode`
unfoldable pub encode_account : AccountLeaf → List ℤ
encode_account a = pos a.ts_addr ∷ pos a.nonce ∷ pos a.token_root ∷ []

-- `TokenLeafNode.encode`
unfoldable pub encode_token : TokenLeaf → List ℤ
encode_token l = l.available_amt ∷ l.locked_amt ∷ []

-- `ObsOrderLeafEntity.encode`
unfoldable pub encode_order : ObsOrderLeaf → List ℤ
encode_order o =
    pos o.req_type
    ∷ pos o.sender
    ∷ pos o.sell_token_id
    ∷ pos o.sell_amt
    ∷ pos o.nonce
    ∷ pos 0
    ∷ pos 0
    ∷ pos o.buy_token_id
    ∷ pos o.buy_amt
    ∷ pos 0
    ∷ pos o.tx_id
    ∷ pos o.accumulated_sell_amt
    ∷ pos o.accumulated_buy_amt
    ∷ []

unfoldable pub default_account_leaf_message : ℕ → List ℤ
default_account_leaf_message token_root = pos 0 ∷ pos 0 ∷ pos token_root ∷ []

unfoldable pub default_token_leaf_message : List ℤ
default_token_leaf_message = pos 0 ∷ pos 0 ∷ []

unfoldable pub default_obs_order_leaf_message : List ℤ
default_obs_order_leaf_message =
    pos 0
    ∷ pos 0
    ∷ pos 0
    ∷ pos 0
    ∷ pos 0
    ∷ pos 0
    ∷ pos 0
    ∷ pos 0
    ∷ pos 0
    ∷ pos 0
    ∷ pos 0
    ∷ pos 0
    ∷ pos 0
    ∷ []

-- The tables, and the order service's counter, which is a field of the service in memory.
pub record Trees : Type 0 where
  pub account_leaf : ℕ → Option AccountLeaf
  pub account_nodes : Nodes
  pub token_leaf : ℕ → ℕ → Option TokenLeaf  -- by account, then by token
  pub token_nodes : ℕ → Nodes  -- by account
  pub order_leaf : ℕ → Option ObsOrderLeaf
  pub order_nodes : Nodes
  pub current_order_id : ℕ

abbrev pub put_token : (ℕ → ℕ → Option TokenLeaf) → ℕ → ℕ → TokenLeaf → ℕ → ℕ → Option TokenLeaf
put_token f account token v a k = if a == account && k == token then some v else f a k

abbrev pub put_nodes : (ℕ → Nodes) → ℕ → Nodes → ℕ → Nodes
put_nodes f account n a = if a == account then n else f a

-- An action on the node rows of one tree.
abbrev pub on_account_nodes : {A : Type 0} → Action Nodes A → Action Trees A
on_account_nodes act s = let (r, n) = act s.account_nodes in (r, record s { account_nodes = n })

abbrev pub on_token_nodes : {A : Type 0} → ℕ → Action Nodes A → Action Trees A
on_token_nodes account act s =
    let (r, n) = act (s.token_nodes account) in
    (r, record s { token_nodes = put_nodes s.token_nodes account n })

abbrev pub on_order_nodes : {A : Type 0} → Action Nodes A → Action Trees A
on_order_nodes act s = let (r, n) = act s.order_nodes in (r, record s { order_nodes = n })

abbrev pub commit : Trees → Trees
commit s = record s {
  account_nodes = commit_nodes s.account_nodes;
  token_nodes = λ a. commit_nodes (s.token_nodes a);
  order_nodes = commit_nodes s.order_nodes;
}

-- A rollback undoes what the transaction's own connection wrote; the token tree's rows that went
-- through the repository stay.
abbrev pub rollback : Trees → Trees → Trees
rollback before after = record before { token_nodes = λ a. drop_pending (after.token_nodes a) }

-- `connection.transaction(async (manager) => …)`
unfoldable pub transaction : {A : Type 0} → Action Trees A → Action Trees A
transaction act s =
    let (r, s') = act s in elim r [ ok a ↦ (ok a, commit s') | err e ↦ (err e, rollback s s') ]

-- The trees of the services. Their constructors throw where a tree has no level 1, so the value
-- that is taken there stands for no service.
unfoldable pub token_tree : Config → Tree
unfolding default_token_leaf_message
token_tree cfg = record {
  height = cfg.tokens_tree_height;
  hash_func = cfg.poseidon;
  leaf_default = cfg.poseidon default_token_leaf_message;
}

-- `getDefaultRoot`: the default hash of level 1.
unfoldable pub default_root : Tree → ℕ
unfolding default_hash_by_level
default_root t = elim (default_hash_by_level t 1) [ ok h ↦ h | err _ ↦ 0 ]

unfoldable pub account_tree : Config → Tree
unfolding default_account_leaf_message default_root token_tree
account_tree cfg = record {
  height = cfg.accounts_tree_height;
  hash_func = cfg.poseidon;
  leaf_default = cfg.poseidon (default_account_leaf_message (default_root (token_tree cfg)));
}

unfoldable pub order_tree : Config → Tree
unfolding default_obs_order_leaf_message
order_tree cfg = record {
  height = cfg.order_tree_height;
  hash_func = cfg.poseidon;
  leaf_default = cfg.poseidon default_obs_order_leaf_message;
}
