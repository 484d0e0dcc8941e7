-- ===== src/Ledger/Accounts.antt =====
-- `getAccount`, `addAccount`, `updateAccountToken` and `updateAccountNonce` as steps of the ledger.
use zk_obs.Common.{ℕ, ◌+◌, ◌^◌, ◌<◌, ◌≡◌, ◌≢◌, ap, ◌∙◌, none, some, arith}
use zk_obs.Common.Int.{ℤ, ◌+ℤ◌}
use zk_obs.Common.Action.{Returns, Returns-bind, ◌>>=◌}
use zk_obs.Merkle.{floor_log2, leaf_id_in_tree, hash_or_default}
use zk_obs.Merkle.Levels.{level-le, leaf_id-lt, hash_or_default-Holds}
use zk_obs.Trees.{
  Config, Trees, AccountLeaf, TokenLeaf, account_tree, transaction, default_root, token_tree,
}
use zk_obs.Trees.Token
use zk_obs.Trees.Token.{UpdateTokenTreeDto}
use zk_obs.Trees.Account
use zk_obs.Sequencer.Accounts.{get_account, add_account, update_account_token, update_account_nonce}
use zk_obs.Ledger.{IsLow, Ledger, ledger_of, added, move, set_balance, set_nonce, set_identity}
use zk_obs.Ledger.Tables.{ledger_of-put_account}
use zk_obs.Ledger.Services.{Steps, update_leaf-Steps, update_token_leaf-Steps, token_leaf-Returns}
use mathlib.Core.Path.{subst}

module _ (cfg : Config) ⦃low : IsLow cfg⦄ where
  -- An account with an address is found, with the ledger's nonce.
  pub get_account-found :
      (a : ℕ) (t : Trees) (l : Ledger)
      → ledger_of t ≡ l
      → (l.identity a).ts_addr ≢ 0
      → (leaf : AccountLeaf) × (get_account cfg a t ≡ some leaf)
        × (leaf.nonce ≡ (l.identity a).nonce)
  unfolding get_account Account.get_leaf ledger_of
  get_account-found a t l e found =
      let same = ap (λ (k : Ledger). k.identity a) e in
      (Account.get_leaf cfg a t, ground arith, ground arith)

  pub update_account_token-Steps :
      (a k : ℕ) (available locked : ℤ) (l : Ledger)
      → a < 2 ^ cfg.accounts_tree_height
      → k < 2 ^ cfg.tokens_tree_height
      → Steps (update_account_token cfg a k available locked) l (move a k available locked l)
  unfolding update_account_token
  update_account_token-Steps a k available locked l la lk t e =
      let dto : TokenLeaf → UpdateTokenTreeDto = λ b. record {
        leaf_id = k;
        account_id = a;
        locked_amt = b.locked_amt +ℤ locked;
        available_amt = b.available_amt +ℤ available;
      } in
      Returns-bind (Token.get_leaf cfg k a) (λ b. Account.update_token_leaf cfg a (dto b))
        (λ b t'. (ledger_of t' ≡ l) × (b ≡ l.balance a k))
        (λ _ t'. ledger_of t' ≡ move a k available locked l) t (token_leaf-Returns cfg k a l t lk e)
        λ b t' h.
          subst
            (λ (x : TokenLeaf).
              Returns (Account.update_token_leaf cfg a (dto b))
                (λ _ u. ledger_of u ≡ set_balance a k (added available locked x) l) t')
            h.1 (update_token_leaf-Steps cfg (dto b) l la lk t' h.0)

  pub update_account_nonce-Steps :
      (a nonce : ℕ) (l : Ledger)
      → a < 2 ^ cfg.accounts_tree_height
      → (l.identity a).ts_addr ≢ 0
      → Steps (update_account_nonce cfg a nonce) l (set_nonce a nonce l)
  unfolding update_account_nonce ◌>>=◌
  update_account_nonce-Steps a nonce l la found t e =
      let (leaf, here, _) = get_account-found a t l e found in
      let step =
        update_leaf-Steps cfg a
          (record { leaf_id = a; ts_addr = none; nonce = some nonce; token_root = none }) l la t
          e in
      ground arith

  pub add_account-Steps :
      (a ts_addr : ℕ) (l : Ledger)
      → a < 2 ^ cfg.accounts_tree_height
      → Steps
          (add_account cfg a ts_addr)
          l
          (set_identity a (record { ts_addr = ts_addr; nonce = 0 }) l)
  unfolding add_account Account.add_leaf account_tree leaf_id_in_tree hash_or_default transaction
      ledger_of ◌>>=◌
  add_account-Steps a ts_addr l la t e =
      let h =
        hash_or_default-Holds (account_tree cfg) (floor_log2 (a + 2 ^ cfg.accounts_tree_height))
          none t.account_nodes
          (level-le cfg.accounts_tree_height _ low.accounts
            (leaf_id-lt cfg.accounts_tree_height a la)) in
      let leaf : AccountLeaf = record {
        ts_addr = ts_addr;
        nonce = 0;
        token_root = default_root (token_tree cfg);
      } in
      let put =
        ledger_of-put_account t a leaf
        ∙ ap (set_identity a (record { ts_addr = ts_addr; nonce = 0 })) e in
      ground arith
