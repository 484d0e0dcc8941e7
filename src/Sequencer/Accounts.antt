-- ===== src/Sequencer/Accounts.antt =====
-- Accounts in the sequencer: `getAccount`, `addAccount`, `updateAccountToken` and
-- `updateAccountNonce` of backend/ts-sequencer/src/infrastructure/sequencer.processor.ts.
use zk_obs.Common.{ℕ, Option, none, some, ◌==◌, if◌then◌else◌}
use zk_obs.Common.Int.{ℤ, ◌+ℤ◌}
use zk_obs.Common.Action.{Action, account_not_found, ◌>>=◌, ◌>>◌, or_throw}
use zk_obs.Trees.{Config, Trees, AccountLeaf}
use zk_obs.Trees.Account
use zk_obs.Trees.Token

module _ (cfg : Config) where
  -- `getAccount`: an account whose `tsAddr` is zero is not there.
  unfoldable pub get_account : ℕ → Trees → Option AccountLeaf
  unfolding Account.get_leaf
  get_account account t =
      let a = Account.get_leaf cfg account t in if a.ts_addr == 0 then none else some a

  -- `addAccount`
  unfoldable pub add_account : ℕ → ℕ → Action Trees (Unit {0})
  unfolding Account.add_leaf
  add_account l2_addr ts_addr =
      Account.add_leaf cfg
        (record { leaf_id = l2_addr; ts_addr = some ts_addr; nonce = none; token_root = none })

  -- `updateAccountToken`: the two amounts are added to the available and to the locked one.
  unfoldable pub update_account_token : ℕ → ℕ → ℤ → ℤ → Action Trees (Unit {0})
  unfolding Token.get_leaf Account.update_token_leaf ◌+ℤ◌
  update_account_token account token token_amt locked_amt = do
    token_info ← Token.get_leaf cfg token account
    Account.update_token_leaf cfg account (record {
      leaf_id = token;
      account_id = account;
      locked_amt = token_info.locked_amt +ℤ locked_amt;
      available_amt = token_info.available_amt +ℤ token_amt;
    })

  -- `updateAccountNonce`
  unfoldable pub update_account_nonce : ℕ → ℕ → Action Trees (Unit {0})
  unfolding get_account Account.update_leaf
  update_account_nonce account nonce t =
      (or_throw (get_account account t) account_not_found
          >> Account.update_leaf cfg account
              (record { leaf_id = account; ts_addr = none; nonce = some nonce; token_root = none }))
        t
