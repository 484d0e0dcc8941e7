-- ===== src/Auction/InterestMap.antt =====
-- `getLendOrderInterestMap` of backend/ts-sdk/src/domain/lib/ts-auction-engine.ts: the lend orders by
-- their interest rate. An order is given by its position among the lend orders.
pub mod Ascending
pub mod Grouping
use zk_obs.Common.{
  ℕ, ◌+◌, ◌-◌, ◌^◌, Bool, not, Option, none, some, List, [], ◌∷◌, ◌++◌, leb, ltb, if◌then◌else◌,
}
use zk_obs.Merkle.{put}
use zk_obs.Auction.{AuctionOrder}

-- An object whose keys are rates, in the order in which they were added.
pub record InterestMap : Type 0 where
  pub rates : List ℕ
  pub at : ℕ → Option (List ℕ)

abbrev pub empty_map : InterestMap
empty_map = record { rates = []; at = λ rate. none }

-- `map[rate]`, with the empty list for `undefined`.
abbrev pub orders_at : InterestMap → ℕ → List ℕ
orders_at m rate = elim (m.at rate) [ none ↦ [] | some is ↦ is ]

-- The body of the loop.
unfoldable pub push_order : InterestMap → ℕ → ℕ → InterestMap
push_order m rate i = elim (m.at rate) [
  | none ↦ record { rates = m.rates ++ rate ∷ []; at = put m.at rate (i ∷ []) }
  | some is ↦ record m { at = put m.at rate (is ++ i ∷ []) }
]

-- The loop, from position `i` on.
unfoldable pub push_orders : ℕ → List AuctionOrder → InterestMap → InterestMap
unfolding push_order
push_orders i [] m = m
push_orders i (o ∷ os) m = push_orders (i + 1) os (push_order m o.interest_rate i)

abbrev pub filter : (ℕ → Bool) → List ℕ → List ℕ
filter p [] = []
filter p (x ∷ xs) = if p x then x ∷ filter p xs else filter p xs

-- A stable sort by a key.
module _ {A : Type 0} (key : A → ℕ) where
  abbrev pub insert_by : A → List A → List A
  insert_by x [] = x ∷ []
  insert_by x (y ∷ ys) = if leb (key x) (key y) then x ∷ y ∷ ys else y ∷ insert_by x ys

  abbrev pub sort_by : List A → List A
  sort_by [] = []
  sort_by (x ∷ xs) = insert_by x (sort_by xs)

-- The order of the keys of an object: first those that are array indices, then the others.
unfoldable pub object_keys : InterestMap → List ℕ
object_keys m =
    sort_by (λ k. k) (filter (λ k. ltb k (2 ^ 32 - 1)) m.rates)
    ++ filter (λ k. not (ltb k (2 ^ 32 - 1))) m.rates

unfoldable pub get_lend_order_interest_map : List AuctionOrder → InterestMap
unfolding push_orders
get_lend_order_interest_map lend_orders = push_orders 0 lend_orders empty_map

-- `lendOrderInterestList`
unfoldable pub interest_list : InterestMap → List ℕ
unfolding object_keys
interest_list m = sort_by (λ k. k) (object_keys m)
