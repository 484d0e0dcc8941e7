-- ===== src/Auction/Matching/RateLoops.antt =====
-- The rates of the details, after the loops over the lend orders.
use zk_obs.Common.{
  ℕ, ◌≤◌, ◌≡◌, ◌∙◌, true, some, List, [], ◌∷◌, arith, get_elem?, leb, ltb, Bool-cases, Option-cases,
  inl, inr, contains,
}
use zk_obs.Auction.{AuctionOrder}
use zk_obs.Auction.InterestMap.{InterestMap, orders_at}
use zk_obs.Auction.Matching.{Pass, match_lend, match_lends, match_rates}
use zk_obs.Auction.Matching.Steps.{IsPass, IsGrown, match_lend-IsPass}
use zk_obs.Auction.Matching.Loops.{match_lends-IsPass}
use zk_obs.Auction.Matching.Exhausting.{IsPass_refl}
use zk_obs.Auction.Matching.Rates.{IsRated, match_lend-IsRated}

-- The orders at the positions have the rate.
abbrev IsListed : ℕ → List ℕ → Pass → Type 0
IsListed rate is t =
    (i : ℕ) (lend : AuctionOrder)
    → contains i is ≡ true
    → get_elem? t.lends i ≡ some lend
    → lend.interest_rate ≡ rate

-- Every group of the map is one of orders with its rate.
abbrev pub IsGrouped : InterestMap → Pass → Type 0
IsGrouped m t = (rate : ℕ) → IsListed rate (orders_at m rate) t

IsListed-later :
    (rate : ℕ) (is : List ℕ) (s t : Pass) → IsGrown s t → IsListed rate is s → IsListed rate is t
IsListed-later rate is s t grown h i now listed e =
    let (was, at_was, same, amount, less) = grown i now e in same ∙ h i was listed at_was

pub IsGrouped-later : (m : InterestMap) (s t : Pass) → IsGrown s t → IsGrouped m s → IsGrouped m t
IsGrouped-later m s t grown h rate = IsListed-later rate (orders_at m rate) s t grown (h rate)

listed_head : (k : ℕ) (ks : List ℕ) → contains k (k ∷ ks) ≡ true
unfolding contains
listed_head k ks = ground arith

listed_tail : (k j : ℕ) (ks : List ℕ) → contains k ks ≡ true → contains k (j ∷ ks) ≡ true
unfolding contains
listed_tail k j ks e = ground arith

module _ (clock : ℕ → ℕ) where
  match_lends-IsRated :
      (limit rate : ℕ) (is : List ℕ) (s t : Pass)
      → rate ≤ limit
      → IsPass s t
      → IsListed rate is t
      → IsRated limit s t
      → IsRated limit s (match_lends clock rate is t)
  unfolding match_lends
  match_lends-IsRated limit rate [] s t low pass listed h = h
  match_lends-IsRated limit rate (k ∷ is) s t low pass listed h =
      let rest : IsListed rate is t = λ i lend e. listed i lend (listed_tail i k is e) in
      elim (Bool-cases (ltb 0 t.remain_borrow)) [
        | inl more ↦ elim (Option-cases (get_elem? t.lends k)) [
          | inl missing ↦
              rw (more, missing, match_lends)
                (match_lends-IsRated limit rate is s t low pass rest h)
          | inr (lend, found) ↦
              let u = match_lend clock rate k lend t in
              rw (more, found, match_lends)
                (match_lends-IsRated limit rate is s u low
                  (match_lend-IsPass clock rate k lend s t pass found)
                  (IsListed-later rate is t u
                    (match_lend-IsPass clock rate k lend t t (IsPass_refl s t pass) found).grown
                    rest)
                  (match_lend-IsRated clock limit rate k lend s t pass found
                    (listed k lend (listed_head k is) found) low h))
        ]
        | inr done ↦ rw (done, match_lends) h
      ]

  pub match_rates-IsRated :
      (m : InterestMap) (limit : ℕ) (rates : List ℕ) (s t : Pass)
      → IsPass s t
      → IsGrouped m t
      → IsRated limit s t
      → IsRated limit s (match_rates clock m limit rates t)
  unfolding match_rates
  match_rates-IsRated m limit [] s t pass grouped h = h
  match_rates-IsRated m limit (rate ∷ rates) s t pass grouped h =
      elim (Bool-cases (ltb 0 t.remain_borrow)) [
        | inl more ↦ elim (Bool-cases (leb rate limit)) [
          | inl crossing ↦
              let u = match_lends clock rate (orders_at m rate) t in
              let same =
                match_lends-IsPass clock rate (orders_at m rate) t t (IsPass_refl s t pass) in
              rw (more, crossing, match_rates)
                (match_rates-IsRated m limit rates s u
                  (match_lends-IsPass clock rate (orders_at m rate) s t pass)
                  (IsGrouped-later m t u same.grown grouped)
                  (match_lends-IsRated limit rate (orders_at m rate) s t (ground arith) pass
                    (grouped rate) h))
          | inr dear ↦
              rw (more, dear, match_rates) (match_rates-IsRated m limit rates s t pass grouped h)
        ]
        | inr done ↦ rw (done, match_rates) h
      ]
