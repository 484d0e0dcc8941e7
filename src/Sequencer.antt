-- ===== src/Sequencer.antt =====
-- The state of `SequencerConsumer`, backend/ts-sequencer/src/infrastructure/sequencer.processor.ts:
-- its fields, the rows of the tables that it reads and writes, and the trees.
pub mod Payload
pub mod Accounts
pub mod Updates
pub mod Orders
pub mod Handlers
pub mod Matching
pub mod Rollup
use zk_obs.Common.{
  ℕ, ◌+◌, ◌≡◌, Bool, Option, some, none, List, [], ◌∷◌, ◌++◌, length, if◌then◌else◌,
}
use zk_obs.Common.Int.{ℤ}
use zk_obs.Common.Action.{Action, Result, Error, ok, err}
use zk_obs.Transaction.{TransactionInfo}
use zk_obs.TxCodec.{Fields}
use zk_obs.Trees.{Config, Trees, ObsOrderLeaf}

-- RollupStatus
pub data RollupStatus : Type 0 where
  unknown idle running : RollupStatus

-- TS_STATUS
pub data TsStatus : Type 0 where
  pending processing l2_executed l2_confirmed l1_confirmed failed rejected : TsStatus

-- BLOCK_STATUS
pub data BlockStatus : Type 0 where
  processing l2_executed l2_confirmed l1_confirmed : BlockStatus

-- AccountInformation, as far as the sequencer reads it.
pub record AccountInformation : Type 0 where
  pub ts_pub_key_x : ℕ
  pub ts_pub_key_y : ℕ
  pub hashed_ts_pub_key : ℕ

-- An entry of `r_accountRootFlow`: some pushes give the row of the root, some its hash.
pub data RootItem : Type 0 where
  root_object root_hash : ℕ → RootItem

-- CircuitAccountTxPayload
pub record AccountPayload : Type 0 where
  pub r_account_leaf_id : List (List ℕ)
  pub r_ori_account_leaf : List (List ℤ)
  pub r_new_account_leaf : List (List ℤ)
  pub r_account_root_flow : List (List RootItem)
  pub r_account_mk_prf : List (List ℕ)
  pub r_token_leaf_id : List (List ℕ)
  pub r_ori_token_leaf : List (List ℤ)
  pub r_new_token_leaf : List (List ℤ)
  pub r_token_root_flow : List (List ℕ)
  pub r_token_mk_prf : List (List ℕ)

-- CircuitOrderTxPayload
pub record OrderPayload : Type 0 where
  pub r_order_leaf_id : List (List ℕ)
  pub r_ori_order_leaf : List (List ℤ)
  pub r_new_order_leaf : List (List ℤ)
  pub r_order_root_flow : List (List ℕ)
  pub r_order_mk_prf : List (List ℕ)

-- `prepareTxAccountPayload`
unfoldable pub prepare_tx_account_payload : AccountPayload
prepare_tx_account_payload = record {
  r_account_leaf_id = [];
  r_ori_account_leaf = [];
  r_new_account_leaf = [];
  r_account_root_flow = [];
  r_account_mk_prf = [];
  r_token_leaf_id = [];
  r_ori_token_leaf = [];
  r_new_token_leaf = [];
  r_token_root_flow = [];
  r_token_mk_prf = [];
}

-- `prepareTxOrderPayload`
unfoldable pub prepare_tx_order_payload : OrderPayload
prepare_tx_order_payload = record {
  r_order_leaf_id = [];
  r_ori_order_leaf = [];
  r_new_order_leaf = [];
  r_order_root_flow = [];
  r_order_mk_prf = [];
}

-- An entry of `currentTxLogs`, without the payload: every entry of a block spreads references to
-- the block's one payload. A deposit's entry has no `tsPubKey`.
pub record TxLog : Type 0 where
  pub req_data : List ℕ
  pub ts_pub_key : Option (List ℕ)
  pub sig_r : List ℕ
  pub sig_s : ℕ
  pub r_chunks : List ℕ
  pub o_chunks : List ℕ
  pub is_critical_chunk : List ℕ

-- What `endRollup` writes into a block: the circuit's inputs, and the roots. In the inputs, `none`
-- in `r_accountRootFlow` is the text "[object Object]", which a root's row is turned into.
pub record CircuitInputs : Type 0 where
  pub logs : List TxLog
  pub r_account_root_flow : List (List (Option ℕ))
  pub account_payload : AccountPayload
  pub order_payload : OrderPayload
  pub ori_tx_num : ℕ
  pub account_root_flow : List ℕ
  pub order_root_flow : List ℕ

-- The column `state`. `endRollup` writes the four roots; the other fields are what the operator reads
-- of it, `none` where they are `undefined`.
pub record BlockState : Type 0 where
  pub state_root : ℕ
  pub ts_root : ℕ
  pub order_root : ℕ
  pub account_root : ℕ
  pub public_data : Option ℕ
  pub public_data_offsets : Option (List ℕ)
  pub commitment : Option ℕ

-- BlockInformation
pub record BlockInformation : Type 0 where
  pub block_status : BlockStatus
  pub raw_data : Option CircuitInputs
  pub state : Option BlockState
  pub proof : Option ℕ

-- The fields of the consumer, and the tables. `unhandled` holds the errors of the calls that are
-- not awaited, which reach no handler.
pub record Sequencer : Type 0 where
  pub trees : Trees
  pub rollup_status : RollupStatus
  pub block_number : ℕ
  pub ori_tx_id : ℕ
  pub new_block_number : ℕ
  pub current_tx_logs : List TxLog
  pub current_account_root_flow : List ℕ
  pub current_order_root_flow : List ℕ
  pub current_account_payload : AccountPayload
  pub current_order_payload : OrderPayload
  pub current_hold_taker_order : Option ObsOrderLeaf
  pub tx_rows : ℕ → Option TransactionInfo
  pub tx_status : ℕ → TsStatus
  pub account_info : ℕ → Option AccountInformation
  pub order_row_leaf_id : ℕ → Option (Option ℕ)  -- the rows ObsOrderEntity by txId: orderLeafId
  pub blocks : ℕ → Option BlockInformation
  pub last_block : ℕ  -- the last number that the block table gave out
  pub unhandled : List Error

-- The settings, the `solidityPack` of ethers, and whether a tree update that is not awaited is
-- committed by the time that the next query reads.
pub record Env : Type 0 where
  pub config : Config
  pub solidity_pack : Fields → Result (List ℕ)
  pub settles_first : Bool

abbrev pub on_trees : {A : Type 0} → Action Trees A → Action Sequencer A
on_trees act s = let (r, t) = act s.trees in (r, record s { trees = t })

abbrev pub read_trees : {A : Type 0} → (Trees → A) → Action Sequencer A
read_trees f s = (ok (f s.trees), s)

-- The state after a call that nothing awaits.
abbrev pub settle : Action Sequencer (Unit {0}) → Sequencer → Sequencer
settle act s =
    let (r, s') = act s in
    elim r [ ok _ ↦ s' | err e ↦ record s' { unhandled = s'.unhandled ++ e ∷ [] } ]

-- `act(); await rest()`: the call that is not awaited settles before or after the rest.
abbrev pub detached :
    {A : Type 0} → Env → Action Sequencer (Unit {0}) → Action Sequencer A → Action Sequencer A
detached env act rest s =
    if env.settles_first then rest (settle act s) else (let (r, s') = rest s in (r, settle act s'))

-- `get latestTxId`
unfoldable pub latest_tx_id : Sequencer → ℕ
latest_tx_id s = s.ori_tx_id + length s.current_tx_logs

-- `addTxLogs`
unfoldable pub add_tx_logs : TxLog → Sequencer → Sequencer
add_tx_logs tx s = record s { current_tx_logs = s.current_tx_logs ++ tx ∷ [] }
