-- ===== src/Auction/Matching/Rates.antt =====
-- The rates of the details, under the loops for a borrow order.
use zk_obs.Common.{
  ℕ, ◌≤◌, ◌<◌, ◌≡◌, refl, ◌∙◌, false, some, List, [], ◌∷◌, arith, All, All-append, All-set,
  All-get_elem?, get_elem?, ◌==◌,
}
use zk_obs.Auction.{MatchedAuctionDetail, AuctionOrder, details_of, add_matched_detail}
use zk_obs.Auction.Matching.{Pass, set_detail, match_lend}
use zk_obs.Auction.Matching.Sums.{IsKnown}
use zk_obs.Auction.Matching.Steps.{IsPass}

abbrev pub rate_at : (ℕ → MatchedAuctionDetail) → ℕ → ℕ
rate_at details k = (details k).matched_interest_rate

-- No detail of the order has a rate below the order's own.
abbrev pub IsPriced : (ℕ → MatchedAuctionDetail) → AuctionOrder → Type 0
IsPriced details o = All (λ k. o.interest_rate ≤ rate_at details k) (details_of o)

-- The details that the loops for a borrow order made are new, at rates up to the limit, and the
-- earlier ones keep their rates.
pub record IsRated (limit : ℕ) (s t : Pass) : Type 0 where
  pub priced : All (IsPriced t.details) t.lends
  pub cheap : All (λ k. rate_at t.details k ≤ limit) t.match_details
  pub fresh : All (λ k. s.next ≤ k) t.match_details
  pub old : (k : ℕ) → k < s.next → rate_at t.details k ≡ rate_at s.details k

-- Details below `n` whose rates have not fallen.
pub priced_more :
    (n : ℕ) (details details' : ℕ → MatchedAuctionDetail) (rate : ℕ) (ks : List ℕ)
    → ((k : ℕ) → k < n → rate_at details k ≤ rate_at details' k)
    → All (λ k. k < n) ks
    → All (λ k. rate ≤ rate_at details k) ks
    → All (λ k. rate ≤ rate_at details' k) ks
priced_more n details details' rate [] more known h = tt
priced_more n details details' rate (k ∷ ks) more known h =
    (omega (arith, more k known.0, h.0), priced_more n details details' rate ks more known.1 h.1)

pub All-IsPriced_more :
    (n : ℕ) (details details' : ℕ → MatchedAuctionDetail) (os : List AuctionOrder)
    → ((k : ℕ) → k < n → rate_at details k ≤ rate_at details' k)
    → All (IsKnown n) os
    → All (IsPriced details) os
    → All (IsPriced details') os
All-IsPriced_more n details details' [] more known h = tt
All-IsPriced_more n details details' (o ∷ os) more known h = (
  priced_more n details details' o.interest_rate (details_of o) more known.0 h.0,
  All-IsPriced_more n details details' os more known.1 h.1,
)

-- Details below `n` that keep their rates.
cheap_kept :
    (n : ℕ) (details details' : ℕ → MatchedAuctionDetail) (limit : ℕ) (ks : List ℕ)
    → ((k : ℕ) → k < n → rate_at details' k ≡ rate_at details k)
    → All (λ k. k < n) ks
    → All (λ k. rate_at details k ≤ limit) ks
    → All (λ k. rate_at details' k ≤ limit) ks
cheap_kept n details details' limit [] same known h = tt
cheap_kept n details details' limit (k ∷ ks) same known h =
    (omega (arith, same k known.0, h.0), cheap_kept n details details' limit ks same known.1 h.1)

set_detail-rate :
    (details : ℕ → MatchedAuctionDetail) (n : ℕ) (d : MatchedAuctionDetail) (k : ℕ)
    → k < n
    → rate_at (set_detail details n d) k ≡ rate_at details k
set_detail-rate details n d k less =
    let other : (k == n) ≡ false = ground arith in rw (other, rate_at) refl

module _ (clock : ℕ → ℕ) where
  pub match_lend-IsRated :
      (limit rate i : ℕ) (lend : AuctionOrder) (s t : Pass) (pass : IsPass s t)
      → get_elem? t.lends i ≡ some lend
      → lend.interest_rate ≡ rate
      → rate ≤ limit
      → IsRated limit s t
      → IsRated limit s (match_lend clock rate i lend t)
  unfolding match_lend add_matched_detail
  match_lend-IsRated limit rate i lend s t pass found own low h =
      let after = (match_lend clock rate i lend t).details in
      let kept : (k : ℕ) → k < t.next → rate_at after k ≡ rate_at t.details k =
        λ k less. set_detail-rate t.details t.next _ k less in
      let more : (k : ℕ) → k < t.next → rate_at t.details k ≤ rate_at after k =
        λ k less. omega (arith, kept k less) in
      let new : rate_at after t.next ≡ rate = ground arith in
      record {
        priced =
            All-set (IsPriced after) t.lends i _
              (All-IsPriced_more t.next t.details after t.lends more pass.known h.priced)
              (All-append _ (details_of lend) (t.next ∷ [])
                (priced_more t.next t.details after lend.interest_rate (details_of lend) more
                  (All-get_elem? (IsKnown t.next) t.lends i lend pass.known found)
                  (All-get_elem? (IsPriced t.details) t.lends i lend h.priced found))
                (omega (arith, own, new), tt));
        cheap =
            All-append _ t.match_details (t.next ∷ [])
              (cheap_kept t.next t.details after limit t.match_details kept pass.listed h.cheap)
              (omega (arith, new, low), tt);
        fresh = All-append _ t.match_details (t.next ∷ []) h.fresh (pass.later, tt);
        old = λ k less. kept k (omega (arith, less, pass.later)) ∙ h.old k less;
      }
