-- ===== src/Ledger.antt =====
-- What the sequencer promises of its accounts: balances, identities and orders, with no trees, no
-- rows and no payload, and how the tables of the three tree services stand for them.
pub mod Tables
pub mod Services
pub mod Accounts
pub mod Points
pub mod Hooks
pub mod Requests
pub mod Roots
pub mod Blocks
pub mod Closing
pub mod Processing
use zk_obs.Common.{ℕ, ◌≤◌, ◌+◌, Option, none, some, ◌==◌, ◌&&◌, if◌then◌else◌}
use zk_obs.Common.Int.{ℤ, pos, ◌+ℤ◌}
use zk_obs.Merkle.{put}
use zk_obs.Trees.{Config, Trees, AccountLeaf, TokenLeaf, ObsOrderLeaf}

-- An account that is not there has the address zero.
pub record Identity : Type 0 where
  pub ts_addr : ℕ
  pub nonce : ℕ

pub record Ledger : Type 0 where
  pub balance : ℕ → ℕ → TokenLeaf  -- by account, then by token
  pub identity : ℕ → Identity
  pub orders : ℕ → Option ObsOrderLeaf
  pub next_order_id : ℕ

-- The heights of the trees are up to 47: from 48 on, `Math.log2` of the last leaves of a tree rounds
-- up to a level that the tree does not have.
pub record IsLow (cfg : Config) : Type 0 where
  pub accounts : cfg.accounts_tree_height ≤ 47
  pub tokens : cfg.tokens_tree_height ≤ 47
  pub orders : cfg.order_tree_height ≤ 47

abbrev pub set_at : {A : Type 0} → ℕ → A → (ℕ → A) → ℕ → A
set_at i a f j = if j == i then a else f j

abbrev pub set_at_pair : {A : Type 0} → ℕ → ℕ → A → (ℕ → ℕ → A) → ℕ → ℕ → A
set_at_pair i k a f i' k' = if i' == i && k' == k then a else f i' k'

-- Amounts are added to the two parts of a balance.
abbrev pub added : ℤ → ℤ → TokenLeaf → TokenLeaf
added available locked b = record {
  available_amt = b.available_amt +ℤ available;
  locked_amt = b.locked_amt +ℤ locked;
}

abbrev pub set_balance : ℕ → ℕ → TokenLeaf → Ledger → Ledger
set_balance account token b l = record l { balance = set_at_pair account token b l.balance }

abbrev pub move : ℕ → ℕ → ℤ → ℤ → Ledger → Ledger
move account token available locked l =
    set_balance account token (added available locked (l.balance account token)) l

abbrev pub set_identity : ℕ → Identity → Ledger → Ledger
set_identity account i l = record l { identity = set_at account i l.identity }

abbrev pub set_nonce : ℕ → ℕ → Ledger → Ledger
set_nonce account nonce l =
    set_identity account (record { ts_addr = (l.identity account).ts_addr; nonce = nonce }) l

abbrev pub set_order : ℕ → ObsOrderLeaf → Ledger → Ledger
set_order order_id o l = record l { orders = put l.orders order_id o }

-- The order of an empty leaf.
abbrev pub emptied : ℕ → ObsOrderLeaf
emptied order_leaf_id = record {
  order_leaf_id = order_leaf_id;
  tx_id = 0;
  req_type = 0;
  sender = 0;
  sell_token_id = 0;
  sell_amt = 0;
  nonce = 0;
  buy_token_id = 0;
  buy_amt = 0;
  accumulated_sell_amt = 0;
  accumulated_buy_amt = 0;
}

-- A balance that has no row is zero.
abbrev pub balance_of : Option TokenLeaf → TokenLeaf
balance_of none = record { available_amt = pos 0; locked_amt = pos 0 }
balance_of (some b) = b

abbrev pub identity_of : Option AccountLeaf → Identity
identity_of none = record { ts_addr = 0; nonce = 0 }
identity_of (some a) = record { ts_addr = a.ts_addr; nonce = a.nonce }

unfoldable pub ledger_of : Trees → Ledger
ledger_of t = record {
  balance = λ account token. balance_of (t.token_leaf account token);
  identity = λ account. identity_of (t.account_leaf account);
  orders = t.order_leaf;
  next_order_id = t.current_order_id;
}
