-- ===== src/Common/Action.antt =====
-- An async method of a service: it passes the state on, and it returns or throws. What was written
-- before a throw stays written, since JavaScript undoes nothing.

use mathlib.Core.Path.{◌≡◌, sym, subst}
use mathlib.Core.Bool.{Bool, true, false}
use mathlib.Core.Option.{Option, none, some}

-- The errors that the modelled code throws, by the place of the `throw`; `type_error` is what the
-- language raises for a property of `undefined`, `not_found` what `findOneOrFail` raises,
-- and `out_of_fuel` stands for a call that the fuel of the model does not reach.
pub data Error : Type 0 where
  default_hash_null ts_addr_null account_not_found account_not_match order_not_found : Error
  not_new_block rollup_running unknown_req_type call_rejected : Error
  arg_required tx_offset_required buy_amt_required value_out_of_bounds : Error
  type_error not_found out_of_fuel : Error

pub data Result (A : Type 0) : Type 0 where
  ok : A → Result A
  err : Error → Result A

abbrev pub Action : Type 0 → Type 0 → Type 0
Action S A = S → Result A × S

abbrev pub pure : {S A : Type 0} → A → Action S A
pure a s = (ok a, s)

abbrev pub throw : {S A : Type 0} → Error → Action S A
throw e s = (err e, s)

infixl 5 ◌>>=◌ ◌>>◌
unfoldable pub ◌>>=◌ : {S A B : Type 0} → Action S A → (A → Action S B) → Action S B
◌>>=◌ m f s = let (r, s') = m s in elim r [ ok a ↦ f a s' | err e ↦ (err e, s') ]

abbrev pub ◌>>◌ : {S A B : Type 0} → Action S A → Action S B → Action S B
m >> k = m >>= λ _. k

abbrev pub gets : {S A : Type 0} → (S → A) → Action S A
gets f s = (ok (f s), s)

abbrev pub modify : {S : Type 0} → (S → S) → Action S (Unit {0})
modify f s = (ok tt, f s)

abbrev pub throw_if : {S : Type 0} → Bool → Error → Action S (Unit {0})
throw_if true e s = (err e, s)
throw_if false e s = (ok tt, s)

abbrev pub or_throw : {S A : Type 0} → Option A → Error → Action S A
or_throw none e s = (err e, s)
or_throw (some a) e s = (ok a, s)

-- A result or an error, with no state.
abbrev pub of_result : {S A : Type 0} → Result A → Action S A
of_result r s = (r, s)

-- A result is a value, and the value and the state have the property.
abbrev pub Holds : {S A : Type 0} → (A → S → Type 0) → Result A → S → Type 0
Holds Q (ok a) s = Q a s
Holds Q (err e) s = ⊥

-- The call returns, and what it returns and leaves has the property.
abbrev pub Returns : {S A : Type 0} → Action S A → (A → S → Type 0) → S → Type 0
Returns m Q s = let (r, s') = m s in Holds Q r s'

Holds-continue :
    {S A B : Type 0} (f : A → Action S B) (P : A → S → Type 0) (Q : B → S → Type 0) (r : Result A)
    (s : S)
    → Holds P r s
    → ((a : A) (s' : S) → P a s' → Returns (f a) Q s')
    → Returns (λ (t : S). elim r [ ok a ↦ f a t | err e ↦ (err e, t) ]) Q s
Holds-continue f P Q (ok a) s h k = k a s h
Holds-continue f P Q (err e) s h k = h

pub Returns-bind :
    {S A B : Type 0} (m : Action S A) (f : A → Action S B) (P : A → S → Type 0) (Q : B → S → Type 0)
    (s : S)
    → Returns m P s
    → ((a : A) (s' : S) → P a s' → Returns (f a) Q s')
    → Returns (m >>= f) Q s
unfolding ◌>>=◌
Returns-bind m f P Q s h k = let (r, s') = m s in Holds-continue f P Q r s' h k

pub Holds-map :
    {S T A : Type 0} (P : A → S → Type 0) (Q : A → T → Type 0) (r : Result A) (s : S) (t : T)
    → Holds P r s
    → ((a : A) → P a s → Q a t)
    → Holds Q r t
Holds-map P Q (ok a) s t h k = k a h
Holds-map P Q (err e) s t h k = h

-- From a state with the first property the call ends, and what it ends in has the second.
abbrev pub Ends : {S A : Type 0} → (S → Type 0) → Action S A → (Result A → S → Type 0) → Type 0
Ends {S} P m V = (s : S) → P s → let (r, s') = m s in V r s'

-- The call returns, and the state has the property.
abbrev pub Runs : {S A : Type 0} → (S → Type 0) → Action S A → (S → Type 0) → Type 0
Runs P m Q = Ends P m (Holds (λ _ s. Q s))

-- A result is the error, and the state has the property.
abbrev pub Refused : {S A : Type 0} → Error → (S → Type 0) → Result A → S → Type 0
Refused e Q (ok a) s = ⊥
Refused e Q (err e') s = (e' ≡ e) × Q s

Ends-continue :
    {S A B : Type 0} (f : A → Action S B) (P : A → S → Type 0) (V : Result B → S → Type 0)
    (r : Result A) (s : S)
    → Holds P r s
    → ((a : A) → Ends (P a) (f a) V)
    → let (r', s') : Result B × S = elim r [ ok a ↦ f a s | err e ↦ (err e, s) ] in V r' s'
Ends-continue f P V (ok a) s h k = k a s h
Ends-continue f P V (err e) s h k = absurd h

pub value-Ends :
    {S A B : Type 0} (m : Action S A) (f : A → Action S B) (P : S → Type 0) (R : A → S → Type 0)
    (V : Result B → S → Type 0)
    → ((s : S) → P s → Returns m R s)
    → ((a : A) → Ends (R a) (f a) V)
    → Ends P (m >>= f) V
unfolding ◌>>=◌
value-Ends m f P R V h k s p = let (r, s') = m s in Ends-continue f R V r s' (h s p) k

-- After a call that returns.
pub then-Ends :
    {S A B : Type 0} (m : Action S A) (f : A → Action S B) (P R : S → Type 0)
    (V : Result B → S → Type 0)
    → Runs P m R
    → ((a : A) → Ends R (f a) V)
    → Ends P (m >>= f) V
then-Ends m f P R V = value-Ends m f P (λ _. R) V

-- After a call of which it is known what it returns.
pub known-Ends :
    {S A B : Type 0} (c : A) (m : Action S A) (f : A → Action S B) (P R : S → Type 0)
    (V : Result B → S → Type 0)
    → ((s : S) → P s → Returns m (λ a s'. (a ≡ c) × R s') s)
    → Ends R (f c) V
    → Ends P (m >>= f) V
known-Ends c m f P R V h k =
    value-Ends m f P (λ a s. (a ≡ c) × R s) V h
      λ a s at. subst (λ (x : _). let (r, s') = f x s in V r s') (sym at.0) (k s at.1)

Refused-continue :
    {S A B : Type 0} (f : A → Action S B) (e : Error) (Q : S → Type 0) (r : Result A) (s : S)
    → Refused e Q r s
    → let (r', s') : Result B × S = elim r [ ok a ↦ f a s | err e' ↦ (err e', s) ] in
      Refused e Q r' s'
Refused-continue f e Q (ok a) s h = absurd h
Refused-continue f e Q (err e') s h = h

-- What throws, throws with anything behind it.
pub Refused-bind :
    {S A B : Type 0} (m : Action S A) (f : A → Action S B) (e : Error) (P Q : S → Type 0)
    → Ends P m (Refused e Q)
    → Ends P (m >>= f) (Refused e Q)
unfolding ◌>>=◌
Refused-bind m f e P Q h s p = let (r, s') = m s in Refused-continue f e Q r s' (h s p)

pub Refused-map :
    {S A : Type 0} (e : Error) (P Q : S → Type 0) (r : Result A) (s : S)
    → Refused e P r s
    → (P s → Q s)
    → Refused e Q r s
Refused-map e P Q (ok a) s h k = h
Refused-map e P Q (err e') s h k = (h.0, k h.1)
