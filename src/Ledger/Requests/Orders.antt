-- ===== src/Ledger/Requests/Orders.antt =====
-- The sequencer's order calls as steps of the ledger, awaited or not.
use mathlib.Core.Path.{subst}
use zk_obs.Common.{
  ℕ, [], ◌∷◌, ◌++◌, if◌then◌else◌, ◌^◌, ◌<◌, ◌==◌, ◌≡◌, ◌≢◌, refl, sym, ap, ◌∙◌, Bool, true, false,
  Option, none, some, arith,
}
use zk_obs.Common.Action.{
  order_not_found, Action, Error, Result, ok, err, Holds, Holds-map, throw_if, or_throw, modify,
  ◌>>◌, ◌>>=◌,
}
use zk_obs.Transaction.TsTxType
use zk_obs.Merkle.{put}
use zk_obs.Trees.{ObsOrderLeaf}
use zk_obs.Trees.Order
use zk_obs.Trees.Order.{UpdateObsOrderTreeDto, leaf_of_dto}
use zk_obs.Sequencer.{Sequencer, Env, on_trees, read_trees, settle, detached}
use zk_obs.Sequencer.Orders.{update_order_row, empty_order, remove_obs_order, update_obs_order}
use zk_obs.Ledger.{IsLow, Ledger, ledger_of, emptied, set_order}
use zk_obs.Ledger.Services.{order_update-Steps}
use zk_obs.Ledger.Points.{Point, At, Goes, To, To-bind, value-bind, on_trees-Goes, or_throw-Gives}

-- A call that returns leaves, unawaited too, the state at its point.
settled :
    (p : Point) (r : Result (Unit {0})) (s : Sequencer)
    → Holds (λ _ s'. At p s') r s
    → At p (elim r [ ok _ ↦ s | err e ↦ record s { unhandled = s.unhandled ++ e ∷ [] } ])
settled p (ok _) s h = h
settled p (err e) s h = absurd h

-- A call that nothing awaits leads from the first point to the second, by a return or by an error.
abbrev pub Settles : Action Sequencer (Unit {0}) → Point → Point → Type 0
Settles act p p' = (s : Sequencer) → At p s → At p' (settle act s)

pub settle-Settles :
    (act : Action Sequencer (Unit {0})) (p p' : Point) → Goes act p p' → Settles act p p'
settle-Settles act p p' h s at = let (r, s') = act s in settled p' r s' (h s at)

detached_either :
    {A : Type 0} (b : Bool) (act : Action Sequencer (Unit {0})) (rest : Action Sequencer A)
    (p p1 p2 q : Point)
    → Settles act p p1
    → Goes rest p1 q
    → Goes rest p p2
    → Settles act p2 q
    → Goes
        (λ s. if b then rest (settle act s) else (let (r, s') = rest s in (r, settle act s')))
        p
        q
detached_either true act rest p p1 p2 q first then_rest before then_act s at =
    then_rest (settle act s) (first s at)
detached_either false act rest p p1 p2 q first then_rest before then_act s at =
    let (r, s') = rest s in
    Holds-map (λ _ u. At p2 u) (λ _ u. At q u) r s' (settle act s') (before s at)
      λ _ at'. then_act s' at'

-- A call that is not awaited settles before the rest or after it: if both orders lead to the same
-- point, it is reached.
pub detached-Goes :
    {A : Type 0} (env : Env) (act : Action Sequencer (Unit {0})) (rest : Action Sequencer A)
    (p p1 p2 q : Point)
    → Settles act p p1
    → Goes rest p1 q
    → Goes rest p p2
    → Settles act p2 q
    → Goes (detached env act rest) p q
detached-Goes env act rest p p1 p2 q = detached_either env.settles_first act rest p p1 p2 q

module _ (env : Env) ⦃low : IsLow env.config⦄ where
  update_order_row-At :
      (tx_id id : ℕ) (p : Point) (s : Sequencer) (o : Option (Option ℕ))
      → At p s
      → At
          (record p {
            rest = elim o [
              | none ↦ p.rest
              | some _ ↦ record p.rest {
                order_row_leaf_id = put p.rest.order_row_leaf_id tx_id (some id);
              }
            ];
          })
          (elim o [
            | none ↦ s
            | some _ ↦ record s { order_row_leaf_id = put s.order_row_leaf_id tx_id (some id) }
          ])
  update_order_row-At tx_id id p s none at = at
  update_order_row-At tx_id id p s (some _) at = (
    at.0,
    at.1,
    at.2,
    at.3,
    ap (λ (r : Sequencer). record r { order_row_leaf_id = put r.order_row_leaf_id tx_id (some id) })
        at.4,
  )

  pub update_order_row-Goes :
      (tx_id id : ℕ) (p : Point)
      → Goes
          (modify (update_order_row tx_id id))
          p
          (record p { rest = update_order_row tx_id id p.rest })
  unfolding update_order_row
  update_order_row-Goes tx_id id p s at =
      let row = ap (λ (r : Sequencer). r.order_row_leaf_id tx_id) at.4 in
      subst
        (λ (o : Option (Option ℕ)).
          At
            (record p {
              rest = elim o [
                | none ↦ p.rest
                | some _ ↦ record p.rest {
                  order_row_leaf_id = put p.rest.order_row_leaf_id tx_id (some id);
                }
              ];
            })
            (update_order_row tx_id id s))
        row (update_order_row-At tx_id id p s (s.order_row_leaf_id tx_id) at)

  pub order-Goes :
      (id : ℕ) (v : UpdateObsOrderTreeDto) (p : Point)
      → id < 2 ^ env.config.order_tree_height
      → Goes
          (on_trees (Order.update_leaf env.config id v))
          p
          (record p { ledger = set_order v.order_leaf_id (leaf_of_dto v) p.ledger })
  order-Goes id v p lt =
      on_trees-Goes (Order.update_leaf env.config id v) p _
        (order_update-Steps env.config id v p.ledger lt)

  -- The order that the ledger has is read, and not thrown about.
  pub order-bind :
      {B : Type 0} (id : ℕ) (order : ObsOrderLeaf) (error : Error)
      (f : ObsOrderLeaf → Action Sequencer B) (p : Point) (Q : B → Sequencer → Type 0)
      → p.ledger.orders id ≡ some order
      → To (f order) p Q
      → To (read_trees (Order.get_leaf id) >>= λ o. or_throw o error >>= f) p Q
  unfolding Order.get_leaf ledger_of
  order-bind id order error f p Q here k =
      value-bind _ _ (λ o. o ≡ some order) p p Q
        (λ s at. (ap (λ (l : Ledger). l.orders id) at.0 ∙ here, at))
        λ o found.
          value-bind _ _ (λ x. x ≡ order) p p Q
            (or_throw-Gives o error (λ x. x ≡ order) p (order, found, refl))
            λ x same. subst (λ (y : ObsOrderLeaf). To (f y) p Q) (sym same) k

  pub throw_if-Goes :
      (b : Bool) (error : Error) (p : Point) → b ≡ false → Goes (throw_if b error) p p
  throw_if-Goes true error p e s at = ground arith
  throw_if-Goes false error p e s at = at

  pub remove_obs_order-Goes :
      (id : ℕ) (order : ObsOrderLeaf) (p : Point)
      → p.ledger.orders id ≡ some order
      → order.req_type ≢ 0
      → order.order_leaf_id < 2 ^ env.config.order_tree_height
      → Goes (remove_obs_order env id) p (record p {
        ledger =
            set_order order.order_leaf_id (leaf_of_dto (empty_order order.order_leaf_id)) p.ledger;
      })
  unfolding remove_obs_order
  remove_obs_order-Goes id order p here live lt =
      let q : Point = record p {
        ledger =
            set_order order.order_leaf_id (leaf_of_dto (empty_order order.order_leaf_id)) p.ledger;
      } in
      order-bind id order _ _ p (λ _ s. At q s) here
        (To-bind _ _ p p (λ _ s. At q s)
          (throw_if-Goes (order.req_type == TsTxType.unknown) _ p (ground arith))
          λ _. order-Goes order.order_leaf_id (empty_order order.order_leaf_id) p lt)

  pub update_obs_order-Goes :
      (v : UpdateObsOrderTreeDto) (p : Point)
      → v.order_leaf_id < 2 ^ env.config.order_tree_height
      → Goes
          (update_obs_order env v)
          p
          (record p { ledger = set_order v.order_leaf_id (leaf_of_dto v) p.ledger })
  unfolding update_obs_order
  update_obs_order-Goes v p lt = order-Goes v.order_leaf_id v p lt

  -- An empty leaf cannot be removed: the error of a removal that nothing awaits is handled by none.
  pub remove_obs_order-Settles :
      (id : ℕ) (p : Point)
      → p.ledger.orders id ≡ some (emptied id)
      → Settles (remove_obs_order env id) p (record p {
        rest = record p.rest { unhandled = p.rest.unhandled ++ order_not_found ∷ [] };
      })
  unfolding remove_obs_order ◌>>=◌ Order.get_leaf ledger_of
  remove_obs_order-Settles id p here s at =
      let found : s.trees.order_leaf id ≡ some (emptied id) =
        ap (λ (l : Ledger). l.orders id) at.0 ∙ here in
      let remove : Option ObsOrderLeaf → Action Sequencer (Unit {0}) = λ o.
        or_throw o order_not_found >>= λ order.
        throw_if (order.req_type == TsTxType.unknown) order_not_found
        >> on_trees
            (Order.update_leaf env.config order.order_leaf_id (empty_order order.order_leaf_id)) in
      let fails : remove_obs_order env id s ≡ (err order_not_found, s) =
        ap (λ (o : Option ObsOrderLeaf). remove o s) found in
      let rest =
        ap (λ (r : Sequencer). record r { unhandled = r.unhandled ++ order_not_found ∷ [] }) at.4 in
      subst
        (λ (out : Result (Unit {0}) × Sequencer).
          At
            (record p {
              rest = record p.rest { unhandled = p.rest.unhandled ++ order_not_found ∷ [] };
            })
            (elim (out.0) [
              | ok _ ↦ out.1
              | err e ↦ record (out.1) { unhandled = (out.1).unhandled ++ e ∷ [] }
            ]))
        (sym fails) (at.0, at.1, at.2, at.3, rest)
