-- ===== src/Tests.antt =====
-- Concrete inputs: a sequencer with one account, small trees and a packer that packs as documented.
pub mod Codec
pub mod Ledgers
pub mod Blocks
pub mod MemoryTrees
pub mod Pipelines
pub mod Auctions
pub mod Hashes
pub mod Events
use zk_obs.Common.{
  replicate, ℕ, ◌+◌, ◌*◌, Option, none, some, List, [], ◌∷◌, ◌==◌, if◌then◌else◌, true,
}
use zk_obs.Common.Int.{ℤ, pos, pos_part, neg_part}
use zk_obs.Common.Action.{ok}
use zk_obs.Merkle.{Nodes, read_committed, no_rows, put}
use zk_obs.Transaction.TsTxType
use zk_obs.Transaction.{TransactionInfo}
use zk_obs.TxCodec.Buffers.{tight}
use zk_obs.Trees.{Config, Trees, ObsOrderLeaf, put_token}
use zk_obs.Sequencer
use zk_obs.Sequencer.{
  Sequencer, Env, AccountInformation, BlockInformation, TxLog, running, idle, pending,
  prepare_tx_account_payload, prepare_tx_order_payload,
}
use zk_obs.Ledger.{emptied}
use zk_obs.Common.{arith}
use zk_obs.Ledger.{IsLow}
use mathlib.Core.List.{foldl}

abbrev pub small_config : Config
small_config = record {
  poseidon = foldl (λ h x. h * 31 + pos_part x + neg_part x) 7;
  accounts_tree_height = 4;
  tokens_tree_height = 3;
  order_tree_height = 4;
  isolation = read_committed;
}

abbrev pub small_env : Env
small_env = record {
  config = small_config;
  solidity_pack = λ fs. ok (tight fs);
  settles_first = true;
}

abbrev pub key_of_five : AccountInformation
key_of_five = record { ts_pub_key_x = 11; ts_pub_key_y = 12; hashed_ts_pub_key = 77 }

instance abbrev pub small_low : IsLow small_config
small_low = record { accounts = omega arith; tokens = omega arith; orders = omega arith }

-- Account 5 sells 40 of token 2 for 20 of token 3.
abbrev pub open_order : ObsOrderLeaf
open_order = record {
  order_leaf_id = 1;
  tx_id = 9;
  req_type = 4;
  sender = 5;
  sell_token_id = 2;
  sell_amt = 40;
  nonce = 1;
  buy_token_id = 3;
  buy_amt = 20;
  accumulated_sell_amt = 10;
  accumulated_buy_amt = 5;
}

abbrev no_nodes : Nodes
no_nodes = record { committed = no_rows; pending = no_rows }

-- Account 5 has 100 of token 2 available and 30 locked.
abbrev pub small_trees : Trees
small_trees = record {
  account_leaf = put (λ _. none) 5 (record { ts_addr = 77; nonce = 3; token_root = 8 });
  account_nodes = no_nodes;
  token_leaf =
      put_token (λ _ _. none) 5 2 (record { available_amt = pos 100; locked_amt = pos 30 });
  token_nodes = λ _. no_nodes;
  order_leaf = put (λ _. none) 1 open_order;
  order_nodes = no_nodes;
  current_order_id = 2;
}

abbrev pub small_sequencer : Sequencer
small_sequencer = record {
  trees = small_trees;
  rollup_status = idle;
  block_number = 0;
  ori_tx_id = 10;
  new_block_number = 0;
  current_tx_logs = [];
  current_account_root_flow = [];
  current_order_root_flow = [];
  current_account_payload = prepare_tx_account_payload;
  current_order_payload = prepare_tx_order_payload;
  current_hold_taker_order = none;
  tx_rows = λ _. none;
  tx_status = λ _. pending;
  account_info = put (λ _. none) 5 key_of_five;
  order_row_leaf_id = put (λ _. none) 9 none;
  blocks = λ _. none;
  last_block = 0;
  unhandled = [];
}

-- A request of account 5 about 40 of token 2, and about the order at leaf 1.
abbrev pub request : ℕ → TransactionInfo
request req_type = record {
  tx_id = 9;
  req_type = req_type;
  account_id = 5;
  token_id = 2;
  accumulated_sell_amt = 30;
  accumulated_buy_amt = 15;
  amount = 40;
  nonce = 3;
  eddsa_r8 = 1 ∷ 2 ∷ [];
  eddsa_s = 3;
  arg0 = 5;
  arg1 = 6;
  arg2 = 3;
  arg3 = 20;
  arg4 = 1;
}

-- The same sequencer after the order at leaf 1 was taken out and held.
abbrev pub holding_sequencer : Sequencer
holding_sequencer = record small_sequencer {
  trees = record small_trees { order_leaf = put (λ _. none) 1 (emptied 1) };
  current_hold_taker_order = some open_order;
}

abbrev pub open_block : BlockInformation
open_block = record {
  block_status = Sequencer.processing;
  raw_data = none;
  state = none;
  proof = none;
}

abbrev empty_log : TxLog
empty_log = record {
  req_data = [];
  ts_pub_key = none;
  sig_r = [];
  sig_s = 0;
  r_chunks = [];
  o_chunks = [];
  is_critical_chunk = [];
}

-- The first block is open, with so many requests.
abbrev pub filling_sequencer : ℕ → Sequencer
filling_sequencer n = record small_sequencer {
  rollup_status = running;
  current_tx_logs = replicate n empty_log;
  tx_rows = put (λ _. none) 9 (request TsTxType.deposit);
  new_block_number = 1;
  blocks = put (λ _. none) 1 open_block;
  last_block = 1;
}
