-- ===== src/Trees/Order.antt =====
-- backend/common/ts-typeorm/src/auctionOrder/obsOrderTree.service.ts: the order tree.
use zk_obs.Common.{ℕ, ◌+◌, Option, none, some, List, [], ◌∷◌, reverse}
use zk_obs.Common.Int.{ℤ, pos}
use zk_obs.Common.Action.{Action, ok, ◌>>◌, modify}
use zk_obs.Merkle.{manager, put, find_node, repository_upsert, update_path, proof_ids}
use zk_obs.Trees.{
  Config, ObsOrderLeaf, Trees, on_order_nodes, transaction, order_tree, default_root,
}
use mathlib.Core.List.{filter_map}

-- UpdateObsOrderTreeDto
pub record UpdateObsOrderTreeDto : Type 0 where
  pub order_leaf_id : ℕ
  pub tx_id : ℕ
  pub req_type : ℕ
  pub sender : ℕ
  pub sell_token_id : ℕ
  pub nonce : ℕ
  pub sell_amt : ℕ
  pub buy_token_id : ℕ
  pub buy_amt : ℕ
  pub accumulated_sell_amt : ℕ
  pub accumulated_buy_amt : ℕ

-- The row that `updateLeaf` writes.
unfoldable pub leaf_of_dto : UpdateObsOrderTreeDto → ObsOrderLeaf
leaf_of_dto v = record {
  order_leaf_id = v.order_leaf_id;
  tx_id = v.tx_id;
  req_type = v.req_type;
  sender = v.sender;
  sell_token_id = v.sell_token_id;
  sell_amt = v.sell_amt;
  nonce = v.nonce;
  buy_token_id = v.buy_token_id;
  buy_amt = v.buy_amt;
  accumulated_sell_amt = v.accumulated_sell_amt;
  accumulated_buy_amt = v.accumulated_buy_amt;
}

-- The message that `updateLeaf` hashes.
abbrev pub message_of_dto : UpdateObsOrderTreeDto → List ℤ
message_of_dto v =
    pos v.req_type
    ∷ pos v.sender
    ∷ pos v.sell_token_id
    ∷ pos v.sell_amt
    ∷ pos v.nonce
    ∷ pos 0
    ∷ pos 0
    ∷ pos v.buy_token_id
    ∷ pos v.buy_amt
    ∷ pos 0
    ∷ pos v.tx_id
    ∷ pos v.accumulated_sell_amt
    ∷ pos v.accumulated_buy_amt
    ∷ []

-- `ObsOrderLeafEntity.convertToObsOrderDto`
unfoldable pub convert_to_obs_order_dto : ObsOrderLeaf → UpdateObsOrderTreeDto
convert_to_obs_order_dto o = record {
  order_leaf_id = o.order_leaf_id;
  tx_id = o.tx_id;
  req_type = o.req_type;
  sender = o.sender;
  sell_token_id = o.sell_token_id;
  nonce = o.nonce;
  sell_amt = o.sell_amt;
  buy_token_id = o.buy_token_id;
  buy_amt = o.buy_amt;
  accumulated_sell_amt = o.accumulated_sell_amt;
  accumulated_buy_amt = o.accumulated_buy_amt;
}

-- `addCurrentOrderId`
unfoldable pub add_current_order_id : Trees → Trees
add_current_order_id s = record s { current_order_id = s.current_order_id + 1 }

-- `getLeaf`: the query's promise is tested before it is awaited and is never null, so the branch
-- that would write a missing leaf is not taken.
unfoldable pub get_leaf : ℕ → Trees → Option ObsOrderLeaf
get_leaf id s = s.order_leaf id

module _ (cfg : Config) where
  -- `updateLeaf`: the row goes to the order that the value names, the path to the leaf `leaf_id`.
  unfoldable pub update_leaf : ℕ → UpdateObsOrderTreeDto → Action Trees (Unit {0})
  unfolding leaf_of_dto order_tree update_path transaction
  update_leaf leaf_id v =
      let hash = cfg.poseidon (message_of_dto v) in
      transaction do
        modify (λ s. record s { order_leaf = put s.order_leaf v.order_leaf_id (leaf_of_dto v) })
        on_order_nodes (update_path (order_tree cfg) manager cfg.isolation leaf_id hash)

  -- `getRoot`
  unfoldable pub get_root : Action Trees ℕ
  unfolding default_root order_tree
  get_root s = elim (find_node cfg.isolation 1 s.order_nodes) [
    | some h ↦ (ok h, s)
    | none ↦
        (let h = default_root (order_tree cfg) in
          (ok h, record s { order_nodes = repository_upsert cfg.isolation 1 h s.order_nodes }))
  ]

  -- `getMerklerProof`
  unfoldable pub get_merkle_proof : ℕ → Trees → List ℕ
  unfolding order_tree proof_ids
  get_merkle_proof id s =
      filter_map (λ i. find_node cfg.isolation i s.order_nodes)
        (reverse (proof_ids (order_tree cfg) id))
