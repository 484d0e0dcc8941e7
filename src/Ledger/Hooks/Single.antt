-- ===== src/Ledger/Hooks/Single.antt =====
-- The hooks of the sequencer that record an account or a token alone, and how handlers find an
-- account.
use zk_obs.Common.{ℕ, ◌+◌, ◌^◌, ◌<◌, ◌≡◌, ◌≢◌, ◌∙◌, some, List, length, arith}
use zk_obs.Common.Action.{Error, or_throw, Action, ◌>>=◌}
use zk_obs.Sequencer.{Sequencer, Env, RootItem, read_trees}
use zk_obs.Sequencer.Payload.{push}
use zk_obs.Sequencer.Updates.{
  account_before_update, account_after_update, token_before_update, token_after_update,
}
use zk_obs.Trees.{AccountLeaf}
use zk_obs.Sequencer.Accounts.{get_account}
use zk_obs.Ledger.{IsLow}
use zk_obs.Ledger.Accounts.{get_account-found}
use zk_obs.Ledger.Points.{
  To, value-bind, or_throw-Gives, Point, At, Goes, Goes-bind, Gives-bind, length-push,
}
use zk_obs.Ledger.Hooks.{
  account_more, token_more, keeps, push_account_root-Goes, push_token_root-Goes, found-Goes,
  token_leaf-Goes, token_root-Goes, account_root-Goes,
}

module _ (env : Env) ⦃low : IsLow env.config⦄ where
  pub token_before_update-Goes :
      (a k : ℕ) (p : Point)
      → k < 2 ^ env.config.tokens_tree_height
      → Goes (token_before_update env a k) p (token_more p)
  unfolding token_before_update
  token_before_update-Goes a k p lk =
      let q = token_more p in
      let pushed : (s : Sequencer) (x : List ℕ)
          → At p s
          → length (push x s.current_account_payload.r_token_root_flow) ≡ p.token_flows + 1 =
        λ s x at. length-push x s.current_account_payload.r_token_root_flow ∙ omega (arith, at.2) in
      Goes-bind _ _ p p q (keeps p) λ found. Goes-bind _ _ p p q (keeps p) λ _.
        found-Goes found _ _ p q
          (Goes-bind _ _ p p q (keeps p) λ _. λ s at. (at.0, at.1, pushed s _ at, at.3, at.4))
          λ _. Goes-bind _ _ p p q (token_leaf-Goes env a k p lk) λ _.
            Goes-bind _ _ p p q (token_root-Goes env a p) λ _.
              Goes-bind _ _ p p q (keeps p) λ _. λ s at. (at.0, at.1, pushed s _ at, at.3, at.4)

  pub account_before_update-Goes :
      (a : ℕ) (p : Point) → Goes (account_before_update env a) p (account_more p)
  unfolding account_before_update
  account_before_update-Goes a p =
      let q = account_more p in
      let pushed : (s : Sequencer) (x : List RootItem)
          → At p s
          → length (push x s.current_account_payload.r_account_root_flow) ≡ p.account_flows + 1 =
        λ s x at.
          length-push x s.current_account_payload.r_account_root_flow ∙ omega (arith, at.1) in
      Goes-bind _ _ p p q (keeps p) λ found. Goes-bind _ _ p p q (keeps p) λ _.
        found-Goes found _ _ p q
          (Goes-bind _ _ p p q (keeps p) λ _. Goes-bind _ _ p p q (account_root-Goes env p) λ _.
            Goes-bind _ _ p p q (token_root-Goes env a p)
              λ _. λ s at. (at.0, pushed s _ at, at.2, at.3, at.4))
          λ _. Goes-bind _ _ p p q (keeps p) λ _. Goes-bind _ _ p p q (keeps p) λ _.
            Goes-bind _ _ p p q (account_root-Goes env p)
              λ _. λ s at. (at.0, pushed s _ at, at.2, at.3, at.4)

  -- An account with an address is found in every state at the point, and not thrown about.
  pub account-bind :
      {B : Type 0} (a : ℕ) (error : Error) (f : AccountLeaf → Action Sequencer B) (p : Point)
      (Q : B → Sequencer → Type 0)
      → (p.ledger.identity a).ts_addr ≢ 0
      → ((leaf : AccountLeaf) → leaf.nonce ≡ (p.ledger.identity a).nonce → To (f leaf) p Q)
      → To (read_trees (get_account env.config a) >>= λ o. or_throw o error >>= f) p Q
  account-bind a error f p Q found k =
      let Same : AccountLeaf → Type 0 = λ leaf. leaf.nonce ≡ (p.ledger.identity a).nonce in
      value-bind _ _ (λ o. (leaf : AccountLeaf) × (o ≡ some leaf) × Same leaf) p p Q
        (λ s at. (get_account-found env.config a s.trees p.ledger at.0 found, at))
        λ o here. value-bind _ _ Same p p Q (or_throw-Gives o error Same p here) k

  pub token_after_update-Goes :
      (a k : ℕ) (p : Point)
      → k < 2 ^ env.config.tokens_tree_height
      → (p.ledger.identity a).ts_addr ≢ 0
      → 0 < p.token_flows
      → Goes (token_after_update env a k) p p
  unfolding token_after_update
  token_after_update-Goes a k p lk found some_flow =
      account-bind a _ _ p (λ _ s. At p s) found
        λ _ _. Goes-bind _ _ p p p (token_leaf-Goes env a k p lk) λ _.
          Goes-bind _ _ p p p (token_root-Goes env a p) λ _.
            Gives-bind _ _ (λ idx. idx < p.token_flows) p p p (λ s at. (omega (arith, at.2), at))
              λ idx lt. Goes-bind _ _ p p p (keeps p) λ _. push_token_root-Goes idx _ p lt

  pub account_after_update-Goes :
      (a : ℕ) (p : Point)
      → (p.ledger.identity a).ts_addr ≢ 0
      → 0 < p.account_flows
      → Goes (account_after_update env a) p p
  unfolding account_after_update
  account_after_update-Goes a p found some_flow =
      account-bind a _ _ p (λ _ s. At p s) found
        λ _ _.
          Gives-bind _ _ (λ idx. idx < p.account_flows) p p p (λ s at. (omega (arith, at.1), at))
            λ idx lt.
              Goes-bind _ _ p p p (account_root-Goes env p)
                λ _. Goes-bind _ _ p p p (keeps p) λ _. push_account_root-Goes idx _ p lt
