-- ===== src/Ledger/Hooks.antt =====
-- The update hooks of the sequencer leave the ledger as it is, and each pushes one entry on the root
-- flows of the payload before an update, which the one after it finds.
pub mod Single
use zk_obs.Common.{
  ℕ, ◌+◌, ◌-◌, ◌^◌, ◌<◌, ◌≤◌, ◌≡◌, ◌≢◌, ◌∙◌, Option, none, some, List, length, arith,
}
use zk_obs.Common.Action.{Action, Returns, Holds-map, ◌>>=◌, pure, modify, gets}
use zk_obs.Sequencer.{Sequencer, Env, RootItem, on_trees, read_trees}
use zk_obs.Sequencer.Payload.{push, push_at, last_index}
use zk_obs.Sequencer.Updates.{
  push_account_root, push_token_root, account_and_token_before_update,
  account_and_token_after_update, account_before_update, account_after_update, token_before_update,
  token_after_update, order_before_update, order_after_update,
}
use zk_obs.Trees.Token
use zk_obs.Trees.Account
use zk_obs.Trees.{AccountLeaf}
use zk_obs.Sequencer.Accounts.{get_account}
use zk_obs.Ledger.Accounts.{get_account-found}
use zk_obs.Ledger.Services.{
  Steps, token_root-Steps, account_root-Steps, order_root-Steps, token_leaf-Returns,
}
use zk_obs.Trees.Order
use zk_obs.Ledger.{IsLow, Ledger, ledger_of}
use zk_obs.Ledger.Points.{
  or_throw-Gives, Point, At, Goes, Gives, Goes-bind, Gives-bind, on_trees-Goes, length-push,
  push_at-found,
}

abbrev pub account_more : Point → Point
account_more p = record p { account_flows = p.account_flows + 1 }

abbrev pub token_more : Point → Point
token_more p = record p { token_flows = p.token_flows + 1 }

abbrev pub both_more : Point → Point
both_more p = account_more (token_more p)

abbrev pub order_more : Point → Point
order_more p = record p { order_flows = p.order_flows + 1 }

-- A read, or a write of what no point mentions.
abbrev pub keeps : (p : Point) (s : Sequencer) → At p s → At p s
keeps p s at = at

pub push_account_root-Goes :
    (idx : ℕ) (root : RootItem) (p : Point)
    → idx < p.account_flows
    → Goes (push_account_root idx root) p p
unfolding ◌>>=◌
push_account_root-Goes idx root p lt s (l, a, t, o, r) =
    let (flow, here, same) =
      push_at-found idx root s.current_account_payload.r_account_root_flow (omega (arith, a)) in
    rw here (l, same ∙ a, t, o, r)

pub push_token_root-Goes :
    (idx root : ℕ) (p : Point) → idx < p.token_flows → Goes (push_token_root idx root) p p
unfolding ◌>>=◌
push_token_root-Goes idx root p lt s (l, a, t, o, r) =
    let (flow, here, same) =
      push_at-found idx root s.current_account_payload.r_token_root_flow (omega (arith, t)) in
    rw here (l, a, same ∙ t, o, r)

pub found-Goes :
    {A B : Type 0} (o : Option A) (x : Action Sequencer B) (f : A → Action Sequencer B)
    (p q : Point)
    → Goes x p q
    → ((a : A) → Goes (f a) p q)
    → Goes (elim o [ none ↦ x | some a ↦ f a ]) p q
found-Goes none x f p q h k = h
found-Goes (some a) x f p q h k = k a

module _ (env : Env) ⦃low : IsLow env.config⦄ where
  pub token_leaf-Goes :
      (a k : ℕ) (p : Point)
      → k < 2 ^ env.config.tokens_tree_height
      → Goes (on_trees (Token.get_leaf env.config k a)) p p
  token_leaf-Goes a k p lk = on_trees-Goes (Token.get_leaf env.config k a) p p.ledger λ t e.
      let (r, t') = Token.get_leaf env.config k a t in
      Holds-map (λ b u. (ledger_of u ≡ p.ledger) × (b ≡ p.ledger.balance a k))
        (λ _ u. ledger_of u ≡ p.ledger) r t' t' (token_leaf-Returns env.config k a p.ledger t lk e)
        λ _ h. h.0

  pub token_root-Goes : (a : ℕ) (p : Point) → Goes (on_trees (Token.get_root env.config a)) p p
  token_root-Goes a p =
      on_trees-Goes (Token.get_root env.config a) p p.ledger
        (token_root-Steps env.config a p.ledger)

  pub account_root-Goes : (p : Point) → Goes (on_trees (Account.get_root env.config)) p p
  account_root-Goes p =
      on_trees-Goes (Account.get_root env.config) p p.ledger
        (account_root-Steps env.config p.ledger)

  pub order_root-Goes : (p : Point) → Goes (on_trees (Order.get_root env.config)) p p
  order_root-Goes p =
      on_trees-Goes (Order.get_root env.config) p p.ledger (order_root-Steps env.config p.ledger)

  pub account_and_token_before_update-Goes :
      (a k : ℕ) (p : Point)
      → k < 2 ^ env.config.tokens_tree_height
      → Goes (account_and_token_before_update env a k) p (account_more (token_more p))
  unfolding account_and_token_before_update
  account_and_token_before_update-Goes a k p lk =
      let q = account_more p in
      let q' = account_more (token_more p) in
      let pushed : (s : Sequencer) (x : List ℕ)
          → At q s
          → length (push x s.current_account_payload.r_token_root_flow) ≡ p.token_flows + 1 =
        λ s x at. length-push x s.current_account_payload.r_token_root_flow ∙ omega (arith, at.2) in
      Goes-bind _ _ p p q' (keeps p) λ found. Goes-bind _ _ p p q' (keeps p) λ _.
        Goes-bind _ _ p p q' (keeps p) λ _. Goes-bind _ _ p p q' (account_root-Goes p) λ root.
          Goes-bind _ _ p q q'
            (λ s at. (at.0, length-push _ _ ∙ omega (arith, at.1), at.2, at.3, at.4))
            λ _.
              found-Goes found _ _ q q'
                (Goes-bind _ _ q q q' (token_root-Goes a q) λ _. Goes-bind _ _ q q q' (keeps q) λ _.
                  Goes-bind _ _ q q q' (keeps q)
                    λ _. λ s at. (at.0, at.1, pushed s _ at, at.3, at.4))
                λ _. Goes-bind _ _ q q q' (keeps q) λ _. Goes-bind _ _ q q q' (keeps q) λ _.
                  Goes-bind _ _ q q q' (token_leaf-Goes a k q lk) λ _.
                    Goes-bind _ _ q q q' (token_root-Goes a q) λ _.
                      Goes-bind _ _ q q q' (keeps q)
                        λ _. λ s at. (at.0, at.1, pushed s _ at, at.3, at.4)

  pub account_and_token_after_update-Goes :
      (a k : ℕ) (p : Point)
      → k < 2 ^ env.config.tokens_tree_height
      → 0 < p.account_flows
      → p.account_flows ≤ p.token_flows
      → Goes (account_and_token_after_update env a k) p p
  unfolding account_and_token_after_update
  account_and_token_after_update-Goes a k p lk some_flow le =
      Goes-bind _ _ p p p (token_leaf-Goes a k p lk) λ _.
        Goes-bind _ _ p p p (token_root-Goes a p) λ _.
          Goes-bind _ _ p p p (account_root-Goes p) λ _. Goes-bind _ _ p p p (keeps p) λ _.
            Gives-bind _ _ (λ idx. idx < p.account_flows) p p p (λ s at. (omega (arith, at.1), at))
              λ idx lt. Goes-bind _ _ p p p (keeps p) λ _.
                Goes-bind _ _ p p p (push_account_root-Goes idx _ p lt)
                  λ _. Goes-bind _ _ p p p (keeps p) λ _. push_token_root-Goes idx _ p (omega arith)

  pub order_before_update-Goes :
      (id : ℕ) (p : Point) → Goes (order_before_update env id) p (order_more p)
  unfolding order_before_update
  order_before_update-Goes id p =
      let q = order_more p in
      Goes-bind _ _ p p q (keeps p) λ _. Goes-bind _ _ p p q (keeps p) λ _.
        Goes-bind _ _ p p q (order_root-Goes p) λ _.
          Goes-bind _ _ p p q (keeps p)
            λ _. λ s at. (at.0, at.1, at.2, length-push _ _ ∙ omega (arith, at.3), at.4)

  pub order_after_update-Goes :
      (id : ℕ) (p : Point) → 0 < p.order_flows → Goes (order_after_update env id) p p
  unfolding order_after_update
  order_after_update-Goes id p some_flow =
      let flows : Sequencer → List (List ℕ) = λ s. s.current_order_payload.r_order_root_flow in
      let Same : List (List ℕ) → Type 0 = λ flow. length flow ≡ p.order_flows in
      Goes-bind _ _ p p p (keeps p) λ _. Goes-bind _ _ p p p (order_root-Goes p) λ root.
        Gives-bind _ _ (λ o. (flow : List (List ℕ)) × (o ≡ some flow) × Same flow) p p p
          (λ s at.
            let (flow, here, same) =
              push_at-found (last_index (flows s)) root (flows s) (omega (arith, at.3)) in
            ((flow, here, same ∙ at.3), at))
          λ o found.
            Gives-bind _ _ Same p p p (or_throw-Gives o _ Same p found)
              λ flow same. λ s at. (at.0, at.1, at.2, same, at.4)
