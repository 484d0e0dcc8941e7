-- ===== src/Ledger/Tables.antt =====
-- How writes to the rows of the tables show in the ledger.
use zk_obs.Common.{ℕ, ◌≡◌, refl, ap, Option, some, arith, ◌==◌, ◌&&◌, Bool-cases, inl, inr}
use zk_obs.Merkle.{put}
use zk_obs.Trees.{Trees, AccountLeaf, TokenLeaf, put_token}
use zk_obs.Ledger.{
  Identity, set_at, set_at_pair, set_balance, set_identity, balance_of, identity_of, ledger_of,
}
use mathlib.Core.Path.{fun_ext}

-- What a function of an optional row gives of a row that was put.
put_row :
    {A B : Type 0} (f : Option A → B) (rows : ℕ → Option A) (i : ℕ) (a : A) (j : ℕ)
    → f (put rows i a j) ≡ set_at i (f (some a)) (λ k. f (rows k)) j
put_row f rows i a j = elim (Bool-cases (j == i)) [ inl e ↦ rw e refl | inr e ↦ rw e refl ]

put_token_row :
    {B : Type 0} (f : Option TokenLeaf → B) (rows : ℕ → ℕ → Option TokenLeaf) (a k : ℕ)
    (l : TokenLeaf) (a' k' : ℕ)
    → f (put_token rows a k l a' k') ≡ set_at_pair a k (f (some l)) (λ i j. f (rows i j)) a' k'
put_token_row f rows a k l a' k' = elim (Bool-cases (a' == a && k' == k)) [
  | inl e ↦ rw e refl
  | inr e ↦ rw e refl
]

-- Setting what is there changes nothing.
pub set_at_self : {A : Type 0} (i : ℕ) (f : ℕ → A) → set_at i (f i) f ≡ f
set_at_self i f = fun_ext λ j. ground arith

pub set_at_pair_self : {A : Type 0} (i k : ℕ) (f : ℕ → ℕ → A) → set_at_pair i k (f i k) f ≡ f
set_at_pair_self i k f = fun_ext λ i'. fun_ext λ k'. ground arith

pub ledger_of-put_token :
    (t : Trees) (a k : ℕ) (b : TokenLeaf)
    → ledger_of (record t { token_leaf = put_token t.token_leaf a k b })
      ≡ set_balance a k b (ledger_of t)
unfolding ledger_of
ledger_of-put_token t a k b =
    ap (λ (f : ℕ → ℕ → TokenLeaf). record (ledger_of t) { balance = f })
      (fun_ext λ a'. fun_ext λ k'. put_token_row balance_of t.token_leaf a k b a' k')

pub ledger_of-put_account :
    (t : Trees) (i : ℕ) (a : AccountLeaf)
    → ledger_of (record t { account_leaf = put t.account_leaf i a })
      ≡ set_identity i (identity_of (some a)) (ledger_of t)
unfolding ledger_of
ledger_of-put_account t i a =
    ap (λ (f : ℕ → Identity). record (ledger_of t) { identity = f })
      (fun_ext λ j. put_row identity_of t.account_leaf i a j)
