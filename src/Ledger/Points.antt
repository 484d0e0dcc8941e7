-- ===== src/Ledger/Points.antt =====
-- What the calls of the sequencer promise one another: the ledger, how many entries the root flows
-- of the block's payload have, and the fields that are neither trees nor payload.
use mathlib.Core.Path.{subst, sym}
use zk_obs.Common.{
  ℕ, zero, suc, ◌+◌, ◌<◌, ◌≡◌, refl, Option, none, some, List, [], ◌∷◌, ◌++◌, arith, length,
}
use zk_obs.Common.Action.{Action, Error, or_throw, Returns, Returns-bind, Holds-map, ◌>>=◌}
use zk_obs.Merkle.{Nodes, no_rows}
use zk_obs.Trees.{Trees}
use zk_obs.Sequencer.{Sequencer, on_trees, prepare_tx_account_payload, prepare_tx_order_payload}
use zk_obs.Sequencer.Payload.{push, push_at}
use zk_obs.Ledger.{Ledger, ledger_of}
use zk_obs.Ledger.Services.{Steps}

abbrev no_nodes : Nodes
no_nodes = record { committed = no_rows; pending = no_rows }

abbrev no_trees : Trees
no_trees = record {
  account_leaf = λ _. none;
  account_nodes = no_nodes;
  token_leaf = λ _ _. none;
  token_nodes = λ _. no_nodes;
  order_leaf = λ _. none;
  order_nodes = no_nodes;
  current_order_id = 0;
}

-- A sequencer without its trees and its payload.
abbrev pub rest_of : Sequencer → Sequencer
rest_of s = record s {
  trees = no_trees;
  current_account_payload = prepare_tx_account_payload;
  current_order_payload = prepare_tx_order_payload;
}

pub record Point : Type 0 where
  pub ledger : Ledger
  pub account_flows : ℕ
  pub token_flows : ℕ
  pub order_flows : ℕ
  pub rest : Sequencer

-- The state stands at the point.
abbrev pub At : Point → Sequencer → Type 0
At p s =
    (ledger_of s.trees ≡ p.ledger)
    × (length s.current_account_payload.r_account_root_flow ≡ p.account_flows)
    × (length s.current_account_payload.r_token_root_flow ≡ p.token_flows)
    × (length s.current_order_payload.r_order_root_flow ≡ p.order_flows)
    × (rest_of s ≡ p.rest)

-- From a state at the first point the call returns, at the second point.
abbrev pub Goes : {A : Type 0} → Action Sequencer A → Point → Point → Type 0
Goes act p p' = (s : Sequencer) → At p s → Returns act (λ _ s'. At p' s') s

-- The same with what is known of the value.
abbrev pub Gives : {A : Type 0} → Action Sequencer A → Point → (A → Type 0) → Point → Type 0
Gives act p V p' = (s : Sequencer) → At p s → Returns act (λ a s'. V a × At p' s') s

pub Goes-bind :
    {A B : Type 0} (m : Action Sequencer A) (f : A → Action Sequencer B) (p p' p'' : Point)
    → Goes m p p'
    → ((a : A) → Goes (f a) p' p'')
    → Goes (m >>= f) p p''
Goes-bind m f p p' p'' h k s at =
    Returns-bind m f (λ _ s'. At p' s') (λ _ s'. At p'' s') s (h s at) (λ a s' at'. k a s' at')

pub Gives-bind :
    {A B : Type 0} (m : Action Sequencer A) (f : A → Action Sequencer B) (V : A → Type 0)
    (p p' p'' : Point)
    → Gives m p V p'
    → ((a : A) → V a → Goes (f a) p' p'')
    → Goes (m >>= f) p p''
Gives-bind m f V p p' p'' h k s at =
    Returns-bind m f (λ a s'. V a × At p' s') (λ _ s'. At p'' s') s (h s at)
      (λ a s' at'. k a at'.0 s' at'.1)

-- From a state at the point the call returns, with a property of what it returns and leaves.
abbrev pub To : {A : Type 0} → Action Sequencer A → Point → (A → Sequencer → Type 0) → Type 0
To act p Q = (s : Sequencer) → At p s → Returns act Q s

pub To-bind :
    {A B : Type 0} (m : Action Sequencer A) (f : A → Action Sequencer B) (p p' : Point)
    (Q : B → Sequencer → Type 0)
    → Goes m p p'
    → ((a : A) → To (f a) p' Q)
    → To (m >>= f) p Q
To-bind m f p p' Q h k s at =
    Returns-bind m f (λ _ s'. At p' s') Q s (h s at) (λ a s' at'. k a s' at')

pub value-bind :
    {A B : Type 0} (m : Action Sequencer A) (f : A → Action Sequencer B) (V : A → Type 0)
    (p p' : Point) (Q : B → Sequencer → Type 0)
    → Gives m p V p'
    → ((a : A) → V a → To (f a) p' Q)
    → To (m >>= f) p Q
value-bind m f V p p' Q h k s at =
    Returns-bind m f (λ a s'. V a × At p' s') Q s (h s at) (λ a s' at'. k a at'.0 s' at'.1)

-- A call of which it is known what it returns.
pub known-bind :
    {A B : Type 0} (c : A) (m : Action Sequencer A) (f : A → Action Sequencer B) (p : Point)
    (Q : B → Sequencer → Type 0)
    → Gives m p (λ a. a ≡ c) p
    → To (f c) p Q
    → To (m >>= f) p Q
known-bind c m f p Q h k =
    value-bind m f (λ a. a ≡ c) p p Q h λ a same. subst (λ (x : _). To (f x) p Q) (sym same) k

pub To-weaken :
    {A : Type 0} (act : Action Sequencer A) (p : Point) (Q Q' : A → Sequencer → Type 0)
    → To act p Q
    → ((a : A) (s : Sequencer) → Q a s → Q' a s)
    → To act p Q'
To-weaken act p Q Q' h k s at =
    let (r, s') = act s in Holds-map Q Q' r s' s' (h s at) λ a q. k a s' q

-- The point of a state.
abbrev pub point_of : Sequencer → Point
point_of s = record {
  ledger = ledger_of s.trees;
  account_flows = length s.current_account_payload.r_account_root_flow;
  token_flows = length s.current_account_payload.r_token_root_flow;
  order_flows = length s.current_order_payload.r_order_root_flow;
  rest = rest_of s;
}

pub At-point_of : (s : Sequencer) → At (point_of s) s
At-point_of s = (refl, refl, refl, refl, refl)

-- A value that is there is not thrown about.
pub or_throw-Gives :
    {A : Type 0} (o : Option A) (error : Error) (V : A → Type 0) (p : Point)
    → (a : A) × (o ≡ some a) × V a
    → Gives (or_throw o error) p V p
or_throw-Gives o error V p (a, here, v) s at = rw here (v, at)

pub on_trees-Goes :
    {A : Type 0} (act : Action Trees A) (p : Point) (l' : Ledger)
    → Steps act p.ledger l'
    → Goes (on_trees act) p (record p { ledger = l' })
on_trees-Goes act p l' h s at =
    let (r, t) = act s.trees in
    Holds-map (λ _ t'. ledger_of t' ≡ l') (λ _ s'. At (record p { ledger = l' }) s') r t
      (record s { trees = t }) (h s.trees at.0) λ _ e. (e, at.1, at.2, at.3, at.4)

pub length-push : {A : Type 0} (a : A) (xs : List A) → length (push a xs) ≡ length xs + 1
length-push a [] = omega arith
length-push a (x ∷ xs) = omega (arith, length-push a xs)

-- An entry that is there can be pushed onto.
pub push_at-found :
    {A : Type 0} (i : ℕ) (a : A) (xss : List (List A))
    → i < length xss
    → (yss : List (List A)) × (push_at i a xss ≡ some yss) × (length yss ≡ length xss)
unfolding push_at
push_at-found i a [] lt = ground arith
push_at-found zero a (xs ∷ xss) lt = ((xs ++ a ∷ []) ∷ xss, refl, refl)
push_at-found (suc i) a (xs ∷ xss) lt =
    let (yss, here, same) = push_at-found i a xss (omega arith) in
    (xs ∷ yss, ground arith, ground arith)
