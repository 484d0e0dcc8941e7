-- ===== src/Auction/InterestMap/Grouping.antt =====
-- Which orders the map has under which rate.
use zk_obs.Common.{
  ℕ, zero, suc, ◌+◌, ◌-◌, ◌^◌, ◌≡◌, refl, ap, ◌∙◌, Bool, true, false, ◌&&◌, ◌||◌, not, Option, none,
  some, List, [], ◌∷◌, ltb, ◌==◌, arith, Bool-cases, Option-cases, ==_iff, inl, inr, get_elem?, ◌<◌,
  contains, contains-append,
}
use zk_obs.Auction.{AuctionOrder}
use zk_obs.Auction.InterestMap.{
  InterestMap, empty_map, orders_at, push_order, push_orders, filter, sort_by, object_keys,
  get_lend_order_interest_map, interest_list,
}
use zk_obs.Auction.InterestMap.Ascending.{
  contains-filter, contains-sort_by, IsAscending, IsDistinct, sort_by-IsAscending,
  filter-IsDistinct, append-IsDistinct, IsAscending-IsDistinct,
}

-- The list has the keys of the object.
contains-interest_list :
    (k : ℕ) (m : InterestMap) → contains k (interest_list m) ≡ contains k m.rates
unfolding interest_list object_keys
contains-interest_list k m =
    let index : ℕ → Bool = λ k. ltb k (2 ^ 32 - 1) in
    let other : ℕ → Bool = λ k. not (ltb k (2 ^ 32 - 1)) in
    let all = contains-sort_by k (object_keys m) in
    let split =
      contains-append k (sort_by (λ k. k) (filter index m.rates)) (filter other m.rates) in
    let sorted = contains-sort_by k (filter index m.rates) in
    let low = contains-filter index k m.rates in
    let high = contains-filter other k m.rates in ground arith

-- Whether the order at position `i` is among the orders from position `j` on and has the rate.
abbrev stands : ℕ → ℕ → ℕ → List AuctionOrder → Bool
stands i rate j [] = false
stands i rate j (o ∷ os) = (i == j && rate == o.interest_rate) || stands i rate (j + 1) os

contains-push_order :
    (i rate r j : ℕ) (m : InterestMap)
    → contains i (orders_at (push_order m r j) rate)
      ≡ (contains i (orders_at m rate) || (i == j && rate == r))
unfolding push_order contains
contains-push_order i rate r j m = elim (Bool-cases (rate == r)) [
  | inl same ↦
      let e : m.at rate ≡ m.at r = ap m.at ((==_iff rate r).0 same) in
      elim (Option-cases (m.at r)) [
        | inl missing ↦ ground arith
        | inr (is, found) ↦ let app = contains-append i is (j ∷ []) in ground arith
      ]
  | inr other ↦ elim (Option-cases (m.at r)) [
    | inl missing ↦ ground arith
    | inr (is, found) ↦ ground arith
  ]
]

contains-push_orders :
    (i rate j : ℕ) (os : List AuctionOrder) (m : InterestMap)
    → contains i (orders_at (push_orders j os m) rate)
      ≡ (contains i (orders_at m rate) || stands i rate j os)
unfolding push_orders
contains-push_orders i rate j [] m = ground arith
contains-push_orders i rate j (o ∷ os) m =
    let one = contains-push_order i rate o.interest_rate j m in
    let rest = contains-push_orders i rate (j + 1) os (push_order m o.interest_rate j) in
    ground arith

abbrev is_some : Option (List ℕ) → Bool
is_some none = false
is_some (some is) = true

-- The keys are the rates that have a list.
abbrev IsKeyed : InterestMap → Type 0
IsKeyed m = (rate : ℕ) → contains rate m.rates ≡ is_some (m.at rate)

push_order-IsKeyed : (m : InterestMap) (r j : ℕ) → IsKeyed m → IsKeyed (push_order m r j)
unfolding push_order contains
push_order-IsKeyed m r j keyed rate =
    let was = keyed rate in
    let app = contains-append rate m.rates (r ∷ []) in
    elim (Bool-cases (rate == r)) [
      | inl same ↦
          let e : m.at rate ≡ m.at r = ap m.at ((==_iff rate r).0 same) in
          elim (Option-cases (m.at r)) [
            | inl missing ↦ ground arith
            | inr (is, found) ↦ ground arith
          ]
      | inr other ↦ elim (Option-cases (m.at r)) [
        | inl missing ↦ ground arith
        | inr (is, found) ↦ ground arith
      ]
    ]

push_orders-IsKeyed :
    (j : ℕ) (os : List AuctionOrder) (m : InterestMap) → IsKeyed m → IsKeyed (push_orders j os m)
unfolding push_orders
push_orders-IsKeyed j [] m keyed = keyed
push_orders-IsKeyed j (o ∷ os) m keyed =
    push_orders-IsKeyed (j + 1) os (push_order m o.interest_rate j)
      (push_order-IsKeyed m o.interest_rate j keyed)

-- Whether an order is there and has the rate.
abbrev pub has_rate : ℕ → Option AuctionOrder → Bool
has_rate rate none = false
has_rate rate (some o) = rate == o.interest_rate

stands_before : (i rate j : ℕ) (os : List AuctionOrder) → i < j → stands i rate j os ≡ false
stands_before i rate j [] less = refl
stands_before i rate j (o ∷ os) less =
    let ih = stands_before i rate (j + 1) os (omega arith) in ground arith

has_rate-get_elem? :
    (i rate j : ℕ) (os : List AuctionOrder)
    → stands (j + i) rate j os ≡ has_rate rate (get_elem? os i)
has_rate-get_elem? i rate j [] = refl
has_rate-get_elem? zero rate j (o ∷ os) =
    let ih = stands_before (j + 0) rate (j + 1) os (omega arith) in ground arith
has_rate-get_elem? (suc i) rate j (o ∷ os) =
    let shift : j + suc i ≡ j + 1 + i = omega arith in
    let ih = has_rate-get_elem? i rate (j + 1) os in
    let moved : stands (j + suc i) rate (j + 1) os ≡ stands (j + 1 + i) rate (j + 1) os =
      ap (λ k. stands k rate (j + 1) os) shift in
    ground arith

push_order-IsDistinct :
    (m : InterestMap) (r j : ℕ)
    → IsKeyed m
    → IsDistinct m.rates
    → IsDistinct (push_order m r j).rates
unfolding push_order contains
push_order-IsDistinct m r j keyed distinct = elim (Option-cases (m.at r)) [
  | inl missing ↦
      rw (missing, push_order)
        (append-IsDistinct m.rates (r ∷ []) distinct (refl, tt)
          (λ k known. elim (Bool-cases (k == r)) [
            | inl same ↦
                let e : contains k m.rates ≡ contains r m.rates =
                  ap (λ k. contains k m.rates) ((==_iff k r).0 same) in
                let key = keyed r in absurd (ground arith)
            | inr other ↦ ground arith
          ]))
  | inr (is, found) ↦ rw (found, push_order) distinct
]

push_orders-IsDistinct :
    (j : ℕ) (os : List AuctionOrder) (m : InterestMap)
    → IsKeyed m
    → IsDistinct m.rates
    → IsDistinct (push_orders j os m).rates
unfolding push_orders
push_orders-IsDistinct j [] m keyed distinct = distinct
push_orders-IsDistinct j (o ∷ os) m keyed distinct =
    push_orders-IsDistinct (j + 1) os (push_order m o.interest_rate j)
      (push_order-IsKeyed m o.interest_rate j keyed)
      (push_order-IsDistinct m o.interest_rate j keyed distinct)

interest_list-IsAscending : (m : InterestMap) → IsDistinct m.rates → IsAscending 0 (interest_list m)
unfolding interest_list object_keys
interest_list-IsAscending m distinct =
    let index : ℕ → Bool = λ k. ltb k (2 ^ 32 - 1) in
    let other : ℕ → Bool = λ k. not (ltb k (2 ^ 32 - 1)) in
    sort_by-IsAscending (object_keys m) (
      append-IsDistinct (sort_by (λ k. k) (filter index m.rates)) (filter other m.rates)
        (IsAscending-IsDistinct 0 (sort_by (λ k. k) (filter index m.rates))
          (sort_by-IsAscending (filter index m.rates) (filter-IsDistinct index m.rates distinct)))
        (filter-IsDistinct other m.rates distinct)
        (λ k known.
          let sorted = contains-sort_by k (filter index m.rates) in
          let low = contains-filter index k m.rates in
          let high = contains-filter other k m.rates in ground arith))

-- The map has a position under a rate exactly when an order is there with that rate.
pub contains-orders_at :
    (lends : List AuctionOrder) (i rate : ℕ)
    → contains i (orders_at (get_lend_order_interest_map lends) rate)
      ≡ has_rate rate (get_elem? lends i)
unfolding get_lend_order_interest_map contains
contains-orders_at lends i rate =
    let stood = contains-push_orders i rate 0 lends empty_map in
    let place : stands i rate 0 lends ≡ has_rate rate (get_elem? lends i) =
      ap (λ k. stands k rate 0 lends) (omega arith) ∙ has_rate-get_elem? i rate 0 lends in
    ground arith

-- The list of rates is strictly ascending, so no rate stands in it twice, and the map has the
-- position of an order under a rate of the list exactly when the order is there and has that rate.
pub get_lend_order_interest_map_lem :
    (lends : List AuctionOrder) (i rate : ℕ)
    → IsAscending 0 (interest_list (get_lend_order_interest_map lends))
      × ((contains rate (interest_list (get_lend_order_interest_map lends))
            && contains i (orders_at (get_lend_order_interest_map lends) rate))
          ≡ has_rate rate (get_elem? lends i))
unfolding get_lend_order_interest_map contains
get_lend_order_interest_map_lem lends i rate =
    let m = push_orders 0 lends empty_map in
    let keyed = push_orders-IsKeyed 0 lends empty_map (λ r. refl) in
    let key = keyed rate in
    let listed = contains-interest_list rate m in
    let there = contains-orders_at lends i rate in
    (
      interest_list-IsAscending m (push_orders-IsDistinct 0 lends empty_map (λ r. refl) tt),
      elim (Option-cases (m.at rate)) [
        | inl missing ↦ ground arith
        | inr (is, found) ↦ ground arith
      ],
    )
