-- ===== src/Sequencer/Payload.antt =====
-- How the sequencer's update hooks push onto the arrays of a block's payload.
use zk_obs.Common.{
  ℕ, zero, suc, ◌-◌, Option, none, some, List, [], ◌∷◌, ◌++◌, length, ◌==◌, if◌then◌else◌,
}
use zk_obs.Sequencer.{Sequencer, AccountPayload, OrderPayload}

-- `arr.push(a)`
abbrev pub push : {A : Type 0} → A → List A → List A
push a xs = xs ++ a ∷ []

-- Onto the last entry if it has one element, else a new entry.
unfoldable pub push_pair : {A : Type 0} → A → List (List A) → List (List A)
push_pair a [] = (a ∷ []) ∷ []
push_pair a (xs ∷ []) = if length xs == 1 then (xs ++ a ∷ []) ∷ [] else xs ∷ (a ∷ []) ∷ []
push_pair a (xs ∷ ys ∷ zss) = xs ∷ push_pair a (ys ∷ zss)

-- `arr[i].push(a)`; an entry that is not there is `undefined`.
unfoldable pub push_at : {A : Type 0} → ℕ → A → List (List A) → Option (List (List A))
push_at i a [] = none
push_at zero a (xs ∷ xss) = some ((xs ++ a ∷ []) ∷ xss)
push_at (suc i) a (xs ∷ xss) = elim (push_at i a xss) [ none ↦ none | some yss ↦ some (xs ∷ yss) ]

-- `arr.length - 1`, as an index. Of no entries the source's index is -1, which has no entry either.
abbrev pub last_index : {A : Type 0} → List A → ℕ
last_index xs = length xs - 1

abbrev pub on_account_payload : (AccountPayload → AccountPayload) → Sequencer → Sequencer
on_account_payload f s = record s { current_account_payload = f s.current_account_payload }

abbrev pub on_order_payload : (OrderPayload → OrderPayload) → Sequencer → Sequencer
on_order_payload f s = record s { current_order_payload = f s.current_order_payload }
