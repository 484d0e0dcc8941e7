-- ===== src/Auction/Matching.antt =====
-- `getMatchedOrders` and `doMatchAuctionOrders` of
-- backend/ts-sdk/src/domain/lib/ts-auction-engine.ts.
pub mod Sums
pub mod Steps
pub mod Loops
pub mod Rounds
pub mod Filling
pub mod Exhausting
pub mod Crossing
pub mod Rates
pub mod RateLoops
pub mod Settling
pub mod Prices
use zk_obs.Common.{
  ℕ, ◌+◌, ◌-◌, Bool, true, false, Option, none, some, List, [], ◌∷◌, ◌++◌, leb, ltb, ◌==◌,
  if◌then◌else◌, map, get_elem?, set,
}
use mathlib.Core.List.{foldl}
use zk_obs.Auction.{
  MatchedAuctionDetail, AuctionOrder, AuctionEngine, matched_amount, remain_amount,
  add_matched_detail,
}
use zk_obs.Auction.InterestMap.{
  InterestMap, orders_at, object_keys, sort_by, get_lend_order_interest_map, interest_list,
}

-- What the loops change: the lend orders, the details by their address, of which those from `next`
-- on are free, the count of clock readings, the borrow orders that are through, and of the borrow
-- order whose turn it is `remainBorrowAmount` and `matchDetailList`.
pub record Pass : Type 0 where
  pub lends : List AuctionOrder
  pub details : ℕ → MatchedAuctionDetail
  pub next : ℕ
  pub ticks : ℕ
  pub borrows : List AuctionOrder
  pub remain_borrow : ℕ
  pub match_details : List ℕ

abbrev pub set_detail :
    (ℕ → MatchedAuctionDetail) → ℕ → MatchedAuctionDetail → ℕ → MatchedAuctionDetail
set_detail details k d j = if j == k then d else details j

-- `bigIntMax` of the rates.
unfoldable pub max_rate : List ℕ → Option ℕ
max_rate [] = none
max_rate (r ∷ rs) = some (foldl (λ max e. if ltb max e then e else max) r (r ∷ rs))

-- `matchDetailList.forEach(...)`
unfoldable pub set_rates : ℕ → List ℕ → (ℕ → MatchedAuctionDetail) → ℕ → MatchedAuctionDetail
set_rates rate [] details = details
set_rates rate (k ∷ ks) details =
    set_rates rate ks (set_detail details k (record (details k) { matched_interest_rate = rate }))

-- The rates of the details become the highest of them.
unfoldable pub settle_rates : Pass → Pass
unfolding max_rate set_rates
settle_rates s = elim (max_rate (map (λ k. (s.details k).matched_interest_rate) s.match_details)) [
  | none ↦ s
  | some rate ↦ record s { details = set_rates rate s.match_details s.details }
]

-- `Date.now()` is the clock, by how often it was read.
module _ (clock : ℕ → ℕ) where
  -- A lend order with the rest of the borrow order.
  unfoldable pub match_lend : ℕ → ℕ → AuctionOrder → Pass → Pass
  unfolding remain_amount add_matched_detail
  match_lend rate i lend s =
      let remain = remain_amount s.details lend in
      let lend_amount = if leb remain s.remain_borrow then remain else s.remain_borrow in
      record s {
        lends = set s.lends i (add_matched_detail (clock s.ticks) (s.next ∷ []) lend);
        details =
            set_detail s.details s.next
              (record { id = lend.id; matched_amount = lend_amount; matched_interest_rate = rate });
        next = s.next + 1;
        ticks = s.ticks + 1;
        remain_borrow = s.remain_borrow - lend_amount;
        match_details = s.match_details ++ s.next ∷ [];
      }

  -- The loop over the lend orders of one rate.
  unfoldable pub match_lends : ℕ → List ℕ → Pass → Pass
  unfolding match_lend
  match_lends rate [] s = s
  match_lends rate (i ∷ is) s = elim (ltb 0 s.remain_borrow) [
    | false ↦ s
    | true ↦ elim (get_elem? s.lends i) [
      | none ↦ match_lends rate is s
      | some lend ↦ match_lends rate is (match_lend rate i lend s)
    ]
  ]

  -- The loop over the rates.
  unfoldable pub match_rates : InterestMap → ℕ → List ℕ → Pass → Pass
  unfolding match_lends
  match_rates m limit [] s = s
  match_rates m limit (rate ∷ rates) s = elim (ltb 0 s.remain_borrow) [
    | false ↦ s
    | true ↦
        match_rates m limit rates
          (if leb rate limit then match_lends rate (orders_at m rate) s else s)
  ]

  unfoldable pub match_borrow : InterestMap → AuctionOrder → Pass → Pass
  unfolding match_rates settle_rates remain_amount add_matched_detail
  match_borrow m borrow s =
      let start = record s { remain_borrow = remain_amount s.details borrow; match_details = [] } in
      let t = settle_rates (match_rates m borrow.interest_rate (interest_list m) start) in
      record t {
        borrows = t.borrows ++ add_matched_detail (clock t.ticks) t.match_details borrow ∷ [];
        ticks = t.ticks + 1;
      }

  -- The loop over the borrow orders.
  unfoldable pub match_borrows : InterestMap → List AuctionOrder → Pass → Pass
  unfolding match_borrow
  match_borrows m [] s = s
  match_borrows m (b ∷ bs) s = match_borrows m bs (match_borrow m b s)

  -- `getMatchedOrders` up to its results, where `details` are given below `next`.
  unfoldable pub run_matching :
      (ℕ → MatchedAuctionDetail) → ℕ → List AuctionOrder → List AuctionOrder → Pass
  unfolding match_borrows
  run_matching details next borrow_orders lend_orders =
      match_borrows (get_lend_order_interest_map lend_orders)
        (sort_by (λ order. order.created_time) borrow_orders)
        (record {
          lends = lend_orders;
          details = details;
          next = next;
          ticks = 0;
          borrows = [];
          remain_borrow = 0;
          match_details = [];
        })

-- The orders with a match.
unfoldable pub with_match : (ℕ → MatchedAuctionDetail) → List AuctionOrder → List AuctionOrder
unfolding matched_amount
with_match details [] = []
with_match details (o ∷ os) =
    let rest = with_match details os in if ltb 0 (matched_amount details o) then o ∷ rest else rest

-- The orders at the positions.
unfoldable pub orders_of : List AuctionOrder → List ℕ → List AuctionOrder
orders_of orders [] = []
orders_of orders (i ∷ is) = elim (get_elem? orders i) [
  | none ↦ orders_of orders is
  | some o ↦ o ∷ orders_of orders is
]

-- `Object.values(lendOrderInterestMap)`, one after the other, by the keys of the object.
unfoldable pub orders_by_rate : InterestMap → List AuctionOrder → List ℕ → List AuctionOrder
unfolding orders_of
orders_by_rate m orders [] = []
orders_by_rate m orders (rate ∷ rates) =
    orders_of orders (orders_at m rate) ++ orders_by_rate m orders rates

-- The two results of `getMatchedOrders`.
unfoldable pub matched_borrow_orders : Pass → List AuctionOrder
unfolding with_match
matched_borrow_orders s = with_match s.details s.borrows

unfoldable pub matched_lend_orders : InterestMap → Pass → List AuctionOrder
unfolding with_match orders_by_rate
matched_lend_orders m s = with_match s.details (orders_by_rate m s.lends (object_keys m))

pub record MatchedOrders : Type 0 where
  pub matched_borrows : List AuctionOrder
  pub matched_lends : List AuctionOrder

-- `doMatchAuctionOrders` of an engine whose orders have no details yet. The clones are what the pass
-- works on; the orders of the engine stay as they are.
unfoldable pub do_match_auction_orders :
    (ℕ → ℕ) → (ℕ → MatchedAuctionDetail) → AuctionEngine → MatchedOrders
unfolding run_matching matched_borrow_orders matched_lend_orders
do_match_auction_orders clock details e =
    let s = run_matching clock details 0 e.borrow_orders e.lend_orders in
    record {
      matched_borrows = sort_by (λ order. order.id) (matched_borrow_orders s);
      matched_lends =
          sort_by (λ order. order.id)
            (matched_lend_orders (get_lend_order_interest_map e.lend_orders) s);
    }
