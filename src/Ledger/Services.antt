-- ===== src/Ledger/Services.antt =====
-- The tree services return within the bounds of their trees, and what they do to the ledger.
use zk_obs.Common.{
  ℕ, ◌+◌, ◌^◌, ◌<◌, ◌≡◌, sym, ap, ◌∙◌, Option, none, some, [], ◌∷◌, arith, inl, inr, Option-cases,
}
use zk_obs.Common.Int.{pos}
use zk_obs.Common.Action.{Action, Returns, Returns-bind, ◌>>=◌}
use zk_obs.Merkle.{
  Nodes, manager, repository, update_path, put, leaf_id_in_tree, floor_log2, hash_or_default,
}
use mathlib.Core.Path.{subst}
use zk_obs.Merkle.Levels.{level-le, leaf_id-lt, hash_or_default-Holds}
use zk_obs.Merkle.Climb.{update_path-Returns}
use zk_obs.Trees.{
  Config, Trees, AccountLeaf, TokenLeaf, on_account_nodes, on_token_nodes, on_order_nodes,
  transaction, token_tree, account_tree, order_tree, put_token,
}
use zk_obs.Trees.Token
use zk_obs.Trees.Token.{UpdateTokenTreeDto}
use zk_obs.Trees.Account
use zk_obs.Trees.Account.{UpdateAccountTreeDto, or_origin}
use zk_obs.Trees.Order
use zk_obs.Trees.Order.{UpdateObsOrderTreeDto, leaf_of_dto, message_of_dto}
use zk_obs.Ledger.{
  IsLow, Ledger, ledger_of, Identity, set_balance, set_identity, set_order, balance_of, identity_of,
}
use zk_obs.Ledger.Tables.{set_at_self, set_at_pair_self, ledger_of-put_token, ledger_of-put_account}

-- From tables that stand for the first ledger the call returns with tables that stand for the second.
abbrev pub Steps : {A : Type 0} → Action Trees A → Ledger → Ledger → Type 0
Steps act l l' = (t : Trees) → ledger_of t ≡ l → Returns act (λ _ t'. ledger_of t' ≡ l') t

pub Steps-bind :
    {A B : Type 0} (m : Action Trees A) (f : A → Action Trees B) (l l' l'' : Ledger)
    → Steps m l l'
    → ((a : A) → Steps (f a) l' l'')
    → Steps (m >>= f) l l''
Steps-bind m f l l' l'' h k t e =
    Returns-bind m f (λ _ t'. ledger_of t' ≡ l') (λ _ t'. ledger_of t' ≡ l'') t (h t e)
      (λ a t' e'. k a t' e')

on_account_nodes-Steps :
    {A : Type 0} (act : Action Nodes A) (l : Ledger)
    → ((n : Nodes) → Returns act (λ _ _. Unit {0}) n)
    → Steps (on_account_nodes act) l l
unfolding ledger_of
on_account_nodes-Steps act l h t e = let r = h t.account_nodes in ground arith

on_token_nodes-Steps :
    {A : Type 0} (a : ℕ) (act : Action Nodes A) (l : Ledger)
    → ((n : Nodes) → Returns act (λ _ _. Unit {0}) n)
    → Steps (on_token_nodes a act) l l
unfolding ledger_of
on_token_nodes-Steps a act l h t e = let r = h (t.token_nodes a) in ground arith

on_order_nodes-Steps :
    {A : Type 0} (act : Action Nodes A) (l : Ledger)
    → ((n : Nodes) → Returns act (λ _ _. Unit {0}) n)
    → Steps (on_order_nodes act) l l
unfolding ledger_of
on_order_nodes-Steps act l h t e = let r = h t.order_nodes in ground arith

-- A commit moves node rows only.
transaction-Steps :
    {A : Type 0} (act : Action Trees A) (l l' : Ledger)
    → Steps act l l'
    → Steps (transaction act) l l'
unfolding ledger_of transaction
transaction-Steps act l l' h t e = let r = h t e in ground arith

module _ (cfg : Config) where
  pub token_root-Steps : (a : ℕ) (l : Ledger) → Steps (Token.get_root cfg a) l l
  unfolding Token.get_root Token.root_of_nodes
  token_root-Steps a l = on_token_nodes-Steps a (Token.root_of_nodes cfg) l (λ n. ground arith)

  pub account_root-Steps : (l : Ledger) → Steps (Account.get_root cfg) l l
  unfolding Account.get_root ledger_of
  account_root-Steps l t e = ground arith

  pub order_root-Steps : (l : Ledger) → Steps (Order.get_root cfg) l l
  unfolding Order.get_root ledger_of
  order_root-Steps l t e = ground arith

module _ (cfg : Config) ⦃low : IsLow cfg⦄ where
  token_update-Steps :
      (token : ℕ) (v : UpdateTokenTreeDto) (l : Ledger)
      → token < 2 ^ cfg.tokens_tree_height
      → Steps (Token.update_leaf_in cfg token v) l (
          set_balance v.account_id token
            (record { available_amt = v.available_amt; locked_amt = v.locked_amt })
            l)
  unfolding Token.update_leaf_in token_tree ◌>>=◌
  token_update-Steps token v l lt t e =
      let b : TokenLeaf = record { available_amt = v.available_amt; locked_amt = v.locked_amt } in
      let l' : Ledger = set_balance v.account_id token b l in
      let hash : ℕ = cfg.poseidon (pos v.leaf_id ∷ v.locked_amt ∷ v.available_amt ∷ []) in
      let path : Action Nodes (Unit {0}) =
        update_path (token_tree cfg) repository cfg.isolation token hash in
      Steps-bind (on_token_nodes v.account_id path) (λ _. Token.get_root cfg v.account_id) l' l' l'
        (on_token_nodes-Steps v.account_id path l' (λ n.
          update_path-Returns (token_tree cfg) repository cfg.isolation low.tokens token hash n lt))
        (λ _. token_root-Steps cfg v.account_id l') _
        (ledger_of-put_token t v.account_id token b ∙ ap (set_balance v.account_id token b) e)

  -- What an update gives the account of a ledger.
  abbrev updated : UpdateAccountTreeDto → Identity → Identity
  updated v i = record {
    ts_addr = or_origin v.ts_addr i.ts_addr;
    nonce = or_origin v.nonce i.nonce;
  }

  leaf-identity :
      (a : ℕ) (t : Trees)
      → ((Account.get_leaf cfg a t).ts_addr ≡ ((ledger_of t).identity a).ts_addr)
        × ((Account.get_leaf cfg a t).nonce ≡ ((ledger_of t).identity a).nonce)
  unfolding Account.get_leaf ledger_of
  leaf-identity a t = ground arith

  account_update-Steps :
      (a : ℕ) (v : UpdateAccountTreeDto) (l : Ledger)
      → a < 2 ^ cfg.accounts_tree_height
      → Steps (Account.update_leaf_in cfg a v) l (set_identity a (updated v (l.identity a)) l)
  unfolding Account.update_leaf_in account_tree ◌>>=◌
  account_update-Steps a v l lt t e =
      let origin = Account.get_leaf cfg a t in
      let leaf : AccountLeaf = record {
        ts_addr = or_origin v.ts_addr origin.ts_addr;
        nonce = or_origin v.nonce origin.nonce;
        token_root = or_origin v.token_root origin.token_root;
      } in
      let (same_addr, same_nonce) = leaf-identity a t in
      let same : identity_of (some leaf) ≡ updated v ((ledger_of t).identity a) = cc in
      let hash : ℕ = cfg.poseidon (pos leaf.ts_addr ∷ pos leaf.nonce ∷ pos leaf.token_root ∷ []) in
      on_account_nodes-Steps (update_path (account_tree cfg) manager cfg.isolation a hash) _
        (λ n. update_path-Returns (account_tree cfg) manager cfg.isolation low.accounts a hash n lt)
        _
        (ledger_of-put_account t a leaf
          ∙ (ap (λ (i : Identity). set_identity a i (ledger_of t)) same
              ∙ ap (λ (k : Ledger). set_identity a (updated v (k.identity a)) k) e))

  pub update_leaf-Steps :
      (a : ℕ) (v : UpdateAccountTreeDto) (l : Ledger)
      → a < 2 ^ cfg.accounts_tree_height
      → Steps (Account.update_leaf cfg a v) l (set_identity a (updated v (l.identity a)) l)
  unfolding Account.update_leaf
  update_leaf-Steps a v l lt =
      transaction-Steps (Account.update_leaf_in cfg a v) l _ (account_update-Steps a v l lt)

  pub order_update-Steps :
      (id : ℕ) (v : UpdateObsOrderTreeDto) (l : Ledger)
      → id < 2 ^ cfg.order_tree_height
      → Steps (Order.update_leaf cfg id v) l (set_order v.order_leaf_id (leaf_of_dto v) l)
  unfolding Order.update_leaf order_tree ledger_of ◌>>=◌
  order_update-Steps id v l lt =
      let path : Action Nodes (Unit {0}) =
        update_path (order_tree cfg) manager cfg.isolation id (cfg.poseidon (message_of_dto v)) in
      let l' : Ledger = set_order v.order_leaf_id (leaf_of_dto v) l in
      let act : Action Trees (Unit {0}) = λ t.
        on_order_nodes path
          (record t { order_leaf = put t.order_leaf v.order_leaf_id (leaf_of_dto v) }) in
      transaction-Steps act l l' λ t e.
        on_order_nodes-Steps path l'
          (λ n. update_path-Returns (order_tree cfg) manager cfg.isolation low.orders id _ n lt) _
          (ap (set_order v.order_leaf_id (leaf_of_dto v)) e)

  pub update_token_leaf-Steps :
      (v : UpdateTokenTreeDto) (l : Ledger)
      → v.account_id < 2 ^ cfg.accounts_tree_height
      → v.leaf_id < 2 ^ cfg.tokens_tree_height
      → Steps (Account.update_token_leaf cfg v.account_id v) l (
          set_balance v.account_id v.leaf_id
            (record { available_amt = v.available_amt; locked_amt = v.locked_amt })
            l)
  unfolding Account.update_token_leaf
  update_token_leaf-Steps v l la lt =
      let a = v.account_id in
      let b : TokenLeaf = record { available_amt = v.available_amt; locked_amt = v.locked_amt } in
      let l' : Ledger = set_balance a v.leaf_id b l in
      let with_root : ℕ → UpdateAccountTreeDto = λ token_root. record {
        leaf_id = a;
        ts_addr = none;
        nonce = none;
        token_root = some token_root;
      } in
      let kept : set_identity a (l'.identity a) l' ≡ l' =
        ap (λ (f : ℕ → Identity). record l' { identity = f }) (set_at_self a l'.identity) in
      transaction-Steps
        (Token.update_leaf_in cfg v.leaf_id v >>= λ token_root.
          Account.update_leaf_in cfg a (with_root token_root))
        l l'
        (Steps-bind (Token.update_leaf_in cfg v.leaf_id v)
          (λ token_root. Account.update_leaf_in cfg a (with_root token_root)) l l' l'
          (token_update-Steps v.leaf_id v l lt)
          (λ token_root.
            subst (Steps (Account.update_leaf_in cfg a (with_root token_root)) l') kept
              (account_update-Steps a (with_root token_root) l' la)))

  -- A row of zeros for a balance that has none.
  ledger_of-put_zero :
      (t : Trees) (a token : ℕ)
      → t.token_leaf a token ≡ none
      → ledger_of (record t { token_leaf = put_token t.token_leaf a token (balance_of none) })
        ≡ ledger_of t
  unfolding ledger_of
  ledger_of-put_zero t a token missing =
      let l = ledger_of t in
      ledger_of-put_token t a token (balance_of none)
      ∙ (ap (λ (o : Option TokenLeaf). set_balance a token (balance_of o) l) (sym missing)
          ∙ ap (λ (f : ℕ → ℕ → TokenLeaf). record l { balance = f })
              (set_at_pair_self a token l.balance))

  put_token-here :
      (t : Trees) (a token : ℕ) (b : TokenLeaf) → put_token t.token_leaf a token b a token ≡ some b
  put_token-here t a token b = ground arith

  -- The leaf that is read is the ledger's balance, whether or not it had a row.
  pub token_leaf-Returns :
      (token a : ℕ) (l : Ledger) (t : Trees)
      → token < 2 ^ cfg.tokens_tree_height
      → ledger_of t ≡ l
      → Returns
          (Token.get_leaf cfg token a)
          (λ b t'. (ledger_of t' ≡ l) × (b ≡ l.balance a token))
          t
  unfolding Token.get_leaf token_tree leaf_id_in_tree hash_or_default transaction ledger_of ◌>>=◌
  token_leaf-Returns token a l t lt e =
      let h =
        hash_or_default-Holds (token_tree cfg) (floor_log2 (token + 2 ^ cfg.tokens_tree_height))
          none (t.token_nodes a)
          (level-le cfg.tokens_tree_height _ low.tokens
            (leaf_id-lt cfg.tokens_tree_height token lt)) in
      let balance : (ledger_of t).balance a token ≡ l.balance a token =
        ap (λ (k : Ledger). k.balance a token) e in
      elim (Option-cases (t.token_leaf a token)) [
        | inl missing ↦
            let kept = ledger_of-put_zero t a token missing in
            let here = put_token-here t a token (balance_of none) in ground arith
        | inr (b, found) ↦ ground arith
      ]
