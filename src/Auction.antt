-- ===== src/Auction.antt =====
-- The matching engine of auction orders, backend/ts-sdk/src/domain/lib/ts-auction-engine.ts: the
-- orders, their details and the two lists of class AuctionEngine. The amounts and rates are natural
-- numbers. A detail is an object that a lend order and a borrow order share, so orders hold
-- addresses of details, and a store gives the detail at an address.
pub mod InterestMap
pub mod Matching
use zk_obs.Common.{
  ℕ, ◌+◌, ◌-◌, ◌*◌, ◌/◌, ◌≡◌, Bool, Option, none, some, List, [], ◌∷◌, ◌++◌, ◌==◌, if◌then◌else◌,
}
use zk_obs.Transaction.TsTxType
use zk_obs.Merkle.{or_else}

-- `ITsAuctionOrder` of ts-rollup/ts-obs-order.ts, without the signature and the dates.
pub record TsAuctionOrder : Type 0 where
  pub order_id : ℕ
  pub tx_id : ℕ
  pub req_type : ℕ
  pub l2_addr_from : ℕ
  pub l2_token_addr_lending : ℕ
  pub l2_token_addr_tsl : ℕ
  pub interest : ℕ
  pub lending_amt : ℕ
  pub l2_token_addr_collateral : ℕ
  pub collateral_amt : ℕ
  pub nonce : ℕ
  pub timestamp : ℕ

pub record MatchedAuctionDetail : Type 0 where
  pub id : ℕ
  pub matched_amount : ℕ
  pub matched_interest_rate : ℕ

-- `matched_details` and `last_matched_time` are `none` where the source has `undefined`.
pub record AuctionOrder : Type 0 where
  pub id : ℕ
  pub order_type : ℕ
  pub interest_rate : ℕ
  pub amount : ℕ
  pub created_time : ℕ
  pub address : ℕ
  pub matched_details : Option (List ℕ)
  pub last_matched_time : Option ℕ

-- The constructor.
unfoldable pub new_order : ℕ → TsAuctionOrder → AuctionOrder
new_order id order = record {
  id = id;
  order_type = order.req_type;
  interest_rate = order.interest;
  amount = order.lending_amt;
  created_time = order.timestamp;
  address = order.l2_addr_from;
  matched_details = none;
  last_matched_time = none;
}

-- The addresses of an order's details.
abbrev pub details_of : AuctionOrder → List ℕ
details_of order = elim order.matched_details [ none ↦ [] | some ks ↦ ks ]

abbrev pub sum_by : (ℕ → ℕ) → List ℕ → ℕ
sum_by f [] = 0
sum_by f (k ∷ ks) = f k + sum_by f ks

module _ (details : ℕ → MatchedAuctionDetail) where
  abbrev pub amount_at : ℕ → ℕ
  amount_at k = (details k).matched_amount

  unfoldable pub matched_amount : AuctionOrder → ℕ
  matched_amount order = sum_by amount_at (details_of order)

  -- For an order that has matched no more than its amount; the source's difference is below 0 for
  -- another one.
  unfoldable pub remain_amount : AuctionOrder → ℕ
  unfolding matched_amount
  remain_amount order = order.amount - matched_amount order

  -- `matchedInterestRate`: an error where it divides by 0.
  unfoldable pub matched_interest_rate : AuctionOrder → Option ℕ
  unfolding matched_amount
  matched_interest_rate order = elim order.matched_details [
    | none ↦ some 0
    | some ks ↦
        if matched_amount order == 0
        then none
        else some (
            sum_by (λ k. (details k).matched_interest_rate * (details k).matched_amount) ks
            / matched_amount order)
  ]

-- `addMatchedDetail` at the time `now`, of one detail or a list of them.
unfoldable pub add_matched_detail : ℕ → List ℕ → AuctionOrder → AuctionOrder
add_matched_detail now ks order = record order {
  matched_details = some (details_of order ++ ks);
  last_matched_time = some now;
}

pub record AuctionEngine : Type 0 where
  pub borrow_orders : List AuctionOrder
  pub lend_orders : List AuctionOrder

unfoldable pub add_borrow_order : ℕ → TsAuctionOrder → AuctionEngine → AuctionEngine
unfolding new_order
add_borrow_order id order e = record e {
  borrow_orders = e.borrow_orders ++ new_order id order ∷ [];
}

unfoldable pub add_lend_order : ℕ → TsAuctionOrder → AuctionEngine → AuctionEngine
unfolding new_order
add_lend_order id order e = record e { lend_orders = e.lend_orders ++ new_order id order ∷ [] }

-- `addOrder`: `none` stands for the error "Wrong order type.".
unfoldable pub add_order : ℕ → TsAuctionOrder → AuctionEngine → Option AuctionEngine
unfolding add_borrow_order add_lend_order
add_order id order e =
    if order.req_type == TsTxType.auction_borrow
    then some (add_borrow_order id order e)
    else if order.req_type == TsTxType.auction_lend
    then some (add_lend_order id order e)
    else none

-- `findIndex` and `splice`: the first order with the id goes.
unfoldable pub remove_first : ℕ → List AuctionOrder → List AuctionOrder
remove_first id [] = []
remove_first id (o ∷ os) = let rest = remove_first id os in if o.id == id then os else o ∷ rest

unfoldable pub remove_order_by_id : ℕ → ℕ → AuctionEngine → AuctionEngine
unfolding remove_first
remove_order_by_id order_type id e =
    if order_type == TsTxType.auction_borrow
    then record e { borrow_orders = remove_first id e.borrow_orders }
    else record e { lend_orders = remove_first id e.lend_orders }

-- `Partial<AuctionOrder>`: `none` where a field is not given.
pub record OrderUpdate : Type 0 where
  pub id : Option ℕ
  pub order_type : Option ℕ
  pub interest_rate : Option ℕ
  pub amount : Option ℕ
  pub created_time : Option ℕ
  pub address : Option ℕ
  pub matched_details : Option (List ℕ)
  pub last_matched_time : Option ℕ

abbrev pub given : Option ℕ → ℕ → ℕ
given none old = old
given (some new) old = new

-- `updateOrder`: `Object.assign`.
unfoldable pub update_order : OrderUpdate → AuctionOrder → AuctionOrder
update_order update order = record {
  id = given update.id order.id;
  order_type = given update.order_type order.order_type;
  interest_rate = given update.interest_rate order.interest_rate;
  amount = given update.amount order.amount;
  created_time = given update.created_time order.created_time;
  address = given update.address order.address;
  matched_details = or_else update.matched_details order.matched_details;
  last_matched_time = or_else update.last_matched_time order.last_matched_time;
}

-- `updateOrderByID`: the first order with the id is changed.
unfoldable pub update_order_by_id : ℕ → OrderUpdate → List AuctionOrder → List AuctionOrder
unfolding update_order
update_order_by_id id update [] = []
update_order_by_id id update (o ∷ os) =
    let rest = update_order_by_id id update os in
    if o.id == id then update_order update o ∷ os else o ∷ rest
