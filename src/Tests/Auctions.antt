-- ===== src/Tests/Auctions.antt =====
-- The matching engine, at concrete inputs.
use zk_obs.Common.{
  ℕ, ◌+◌, ◌≡◌, refl, ◌&&◌, ◌⊎◌, none, some, List, [], ◌∷◌, All, get_elem?, contains, arith, map,
}
use zk_obs.Transaction.TsTxType
use zk_obs.Auction.{
  TsAuctionOrder, MatchedAuctionDetail, AuctionOrder, new_order, matched_amount, remain_amount,
  add_matched_detail, matched_interest_rate,
}
use zk_obs.Auction.InterestMap.{orders_at, get_lend_order_interest_map, interest_list}
use zk_obs.Auction.InterestMap.Grouping.{has_rate, get_lend_order_interest_map_lem}
use zk_obs.Auction.InterestMap.Ascending.{IsAscending}
use zk_obs.Auction.Matching.{run_matching}
use zk_obs.Auction.Matching.Sums.{IsFilled, total_matched}
use zk_obs.Auction.Matching.Filling.{run_matching-IsFilled, total_matched-run_matching}
use zk_obs.Auction.Matching.Rates.{IsPriced}
use zk_obs.Auction.Matching.Prices.{IsFair, run_matching-IsFair}
use zk_obs.Auction.Matching.Crossing.{run_matching-exhausts}

abbrev order_of : ℕ → ℕ → ℕ → ℕ → TsAuctionOrder
order_of req_type interest amount timestamp = record {
  order_id = 0;
  tx_id = 0;
  req_type = req_type;
  l2_addr_from = 1;
  l2_token_addr_lending = 6;
  l2_token_addr_tsl = 7;
  interest = interest;
  lending_amt = amount;
  l2_token_addr_collateral = 8;
  collateral_amt = 100;
  nonce = 0;
  timestamp = timestamp;
}

abbrev lends : List AuctionOrder
lends =
    new_order 1 (order_of TsTxType.auction_lend 4 5 1)
    ∷ new_order 2 (order_of TsTxType.auction_lend 3 20 2)
    ∷ new_order 3 (order_of TsTxType.auction_lend 9 50 3)
    ∷ []

abbrev borrows : List AuctionOrder
borrows =
    new_order 4 (order_of TsTxType.auction_borrow 5 30 9)
    ∷ new_order 5 (order_of TsTxType.auction_borrow 3 10 8)
    ∷ []

abbrev no_details : ℕ → MatchedAuctionDetail
no_details k = record { id = 0; matched_amount = 0; matched_interest_rate = 0 }

abbrev clock : ℕ → ℕ
clock k = 1000 + k

get_lend_order_interest_map_lem_example :
    IsAscending 0 (interest_list (get_lend_order_interest_map lends))
    × ((contains 3 (interest_list (get_lend_order_interest_map lends))
          && contains 1 (orders_at (get_lend_order_interest_map lends) 3))
        ≡ has_rate 3 (get_elem? lends 1))
get_lend_order_interest_map_lem_example = get_lend_order_interest_map_lem lends 1 3

run_matching-IsFilled_example :
    All
      (IsFilled (run_matching clock no_details 0 borrows lends).details)
      (run_matching clock no_details 0 borrows lends).lends
    × All
        (IsFilled (run_matching clock no_details 0 borrows lends).details)
        (run_matching clock no_details 0 borrows lends).borrows
unfolding new_order matched_amount
run_matching-IsFilled_example =
    run_matching-IsFilled clock no_details 0 borrows lends (tt, (tt, tt)) (tt, (tt, (tt, tt)))
      (omega arith, (omega arith, tt)) (omega arith, (omega arith, (omega arith, tt)))

total_matched-run_matching_example :
    total_matched
        (run_matching clock no_details 0 borrows lends).details
        (run_matching clock no_details 0 borrows lends).lends
      + total_matched no_details borrows
    ≡ total_matched no_details lends
      + total_matched
          (run_matching clock no_details 0 borrows lends).details
          (run_matching clock no_details 0 borrows lends).borrows
unfolding new_order matched_amount
total_matched-run_matching_example =
    total_matched-run_matching clock no_details 0 borrows lends (tt, (tt, tt)) (tt, (tt, (tt, tt)))
      (omega arith, (omega arith, tt)) (omega arith, (omega arith, (omega arith, tt)))

abbrev taken_borrow : AuctionOrder
taken_borrow = record (new_order 4 (order_of TsTxType.auction_borrow 5 30 9)) {
  matched_details = some (1 ∷ 2 ∷ []);
  last_matched_time = some 1004;
}

abbrev taken_lend : AuctionOrder
taken_lend = record (new_order 2 (order_of TsTxType.auction_lend 3 20 2)) {
  matched_details = some (0 ∷ 1 ∷ []);
  last_matched_time = some 1002;
}

-- Order 5 takes 10 of order 2; order 4 takes the rest of it and order 1, and keeps a rest of 15.
rests :
    map
      (remain_amount (run_matching clock no_details 0 borrows lends).details)
      (run_matching clock no_details 0 borrows lends).borrows
    ≡ 0 ∷ 15 ∷ []
unfolding run_matching new_order remain_amount interest_list get_lend_order_interest_map
rests = refl

run_matching-exhausts_example :
    (remain_amount (run_matching clock no_details 0 borrows lends).details taken_borrow ≡ 0)
    ⊎ (remain_amount (run_matching clock no_details 0 borrows lends).details taken_lend ≡ 0)
unfolding run_matching new_order remain_amount interest_list get_lend_order_interest_map
    add_matched_detail matched_amount
run_matching-exhausts_example =
    run_matching-exhausts clock no_details 0 borrows lends (tt, (tt, tt)) (tt, (tt, (tt, tt)))
      (omega arith, (omega arith, tt)) (omega arith, (omega arith, (omega arith, tt))) 1 1
      taken_borrow taken_lend refl refl (omega arith)

run_matching-IsFair_example :
    All
      (IsPriced (run_matching clock no_details 0 borrows lends).details)
      (run_matching clock no_details 0 borrows lends).lends
    × All
        (IsFair (run_matching clock no_details 0 borrows lends).details)
        (run_matching clock no_details 0 borrows lends).borrows
unfolding new_order
run_matching-IsFair_example =
    run_matching-IsFair clock no_details 0 borrows lends (refl, (refl, tt))
      (refl, (refl, (refl, tt)))

-- A lend order of nothing at rate 5 lifts what the borrower pays for the order at rate 3.
abbrev zero_lends : List AuctionOrder
zero_lends =
    new_order 2 (order_of TsTxType.auction_lend 3 20 2)
    ∷ new_order 6 (order_of TsTxType.auction_lend 5 0 4)
    ∷ []

lifted_rate :
    map
      (matched_interest_rate (run_matching clock no_details 0 borrows zero_lends).details)
      (run_matching clock no_details 0 borrows zero_lends).borrows
    ≡ some 3 ∷ some 5 ∷ []
unfolding run_matching new_order matched_interest_rate interest_list get_lend_order_interest_map
lifted_rate = refl

-- A borrow order without a match has no rate: the division is by 0.
no_rate :
    map
      (matched_interest_rate (run_matching clock no_details 0 borrows []).details)
      (run_matching clock no_details 0 borrows []).borrows
    ≡ none ∷ none ∷ []
unfolding run_matching new_order matched_interest_rate interest_list get_lend_order_interest_map
no_rate = refl
