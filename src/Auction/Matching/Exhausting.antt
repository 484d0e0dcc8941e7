-- ===== src/Auction/Matching/Exhausting.antt =====
-- The loops for a borrow order end with nothing left of it, or of the lend orders that it could be
-- matched with.
use zk_obs.Common.{
  get_elem?-set_self, ℕ, ◌≡◌, refl, ◌∙◌, sym, ◌⊎◌, inl, inr, true, false, some, List, [], ◌∷◌,
  arith, get_elem?, leb, ltb, ◌==◌, Bool-cases, Option-cases, ==_iff, contains,
}
use mathlib.Core.Path.{subst}
use mathlib.Core.Option.{some-injective}
use zk_obs.Auction.{AuctionOrder, remain_amount}
use zk_obs.Auction.InterestMap.{InterestMap, orders_at}
use zk_obs.Auction.Matching.{Pass, match_lend, match_lends, match_rates}
use zk_obs.Auction.Matching.Steps.{IsGrown, IsPass, match_lend-IsPass, lend', lend'_amount}
use zk_obs.Auction.Matching.Loops.{match_lends-IsPass, match_rates-IsPass}
use zk_obs.Auction.Matching.Rounds.{IsGrown-refl}

-- The lend order at position `i` has no rest.
abbrev pub IsExhausted : ℕ → Pass → Type 0
IsExhausted i t =
    (lend : AuctionOrder) → get_elem? t.lends i ≡ some lend → remain_amount t.details lend ≡ 0

pub IsExhausted-later : (i : ℕ) (s t : Pass) → IsGrown s t → IsExhausted i s → IsExhausted i t
unfolding remain_amount
IsExhausted-later i s t grown out now e =
    let (was, at_was, rate, amount, less) = grown i now e in
    omega (arith, out was at_was, amount, less)

pub IsPass_refl : (s t : Pass) → IsPass s t → IsPass t t
IsPass_refl s t h = record {
  later = omega arith;
  same = λ k less. refl;
  known = h.known;
  filled = h.filled;
  listed = h.listed;
  borrows = refl;
  balance = refl;
  paid = refl;
  grown = IsGrown-refl t;
}

-- Nothing is left of the borrow order or of the lend orders at the positions.
abbrev IsOut : List ℕ → Pass → Type 0
IsOut is t = (t.remain_borrow ≡ 0) ⊎ ((i : ℕ) → contains i is ≡ true → IsExhausted i t)

IsOut-cons : (k : ℕ) (is : List ℕ) (t : Pass) → IsExhausted k t → IsOut is t → IsOut (k ∷ is) t
unfolding contains
IsOut-cons k is t first (inl done) = inl done
IsOut-cons k is t first (inr others) = inr (λ i listed. elim (Bool-cases (i == k)) [
  | inl same ↦ subst (λ i. IsExhausted i t) (sym ((==_iff i k).0 same)) first
  | inr other ↦ others i (ground arith)
])

-- Nothing is left of the borrow order or of the lend orders under the rates up to the limit.
abbrev pub IsDone : InterestMap → ℕ → List ℕ → Pass → Type 0
IsDone m limit rates t =
    (t.remain_borrow ≡ 0)
    ⊎ ((rate i : ℕ)
        → contains rate rates ≡ true
        → leb rate limit ≡ true
        → contains i (orders_at m rate) ≡ true
        → IsExhausted i t)

IsDone-cons :
    (m : InterestMap) (limit rate : ℕ) (rates : List ℕ) (t : Pass)
    → (leb rate limit ≡ true → (i : ℕ) → contains i (orders_at m rate) ≡ true → IsExhausted i t)
    → IsDone m limit rates t
    → IsDone m limit (rate ∷ rates) t
unfolding contains
IsDone-cons m limit rate rates t first (inl done) = inl done
IsDone-cons m limit rate rates t first (inr others) = inr (λ r i listed low there.
    elim (Bool-cases (r == rate)) [
      | inl same ↦
          let e = (==_iff r rate).0 same in
          first (subst (λ r. leb r limit ≡ true) e low) i
            (subst (λ r. contains i (orders_at m r) ≡ true) e there)
      | inr other ↦ others r i (ground arith) low there
    ])

module _ (clock : ℕ → ℕ) where
  -- A match takes all of the borrow order or all of the lend order.
  match_lend-IsExhausted :
      (rate i : ℕ) (lend : AuctionOrder) (s t : Pass)
      → IsPass s t
      → get_elem? t.lends i ≡ some lend
      → ((match_lend clock rate i lend t).remain_borrow ≡ 0)
        ⊎ IsExhausted i (match_lend clock rate i lend t)
  unfolding match_lend remain_amount
  match_lend-IsExhausted rate i lend s t h found =
      elim (Bool-cases (leb (remain_amount t.details lend) t.remain_borrow)) [
        | inl lower ↦ inr (λ now e.
            let new : lend' clock rate i lend s t h found ≡ now =
              some-injective (lend' clock rate i lend s t h found) now (
                sym (get_elem?-set_self t.lends i (lend' clock rate i lend s t h found) lend found)
                ∙ e) in
            let amount = lend'_amount clock rate i lend s t h found in
            subst (λ now. remain_amount (match_lend clock rate i lend t).details now ≡ 0) new
              (ground arith))
        | inr higher ↦ inl (ground arith)
      ]

  match_lends-done :
      (rate : ℕ) (is : List ℕ) (t : Pass)
      → t.remain_borrow ≡ 0
      → (match_lends clock rate is t).remain_borrow ≡ 0
  unfolding match_lends
  match_lends-done rate [] t e = e
  match_lends-done rate (i ∷ is) t e =
      let out : ltb 0 t.remain_borrow ≡ false = ground arith in rw (out, match_lends) e

  match_rates-done :
      (m : InterestMap) (limit : ℕ) (rates : List ℕ) (t : Pass)
      → t.remain_borrow ≡ 0
      → (match_rates clock m limit rates t).remain_borrow ≡ 0
  unfolding match_rates
  match_rates-done m limit [] t e = e
  match_rates-done m limit (rate ∷ rates) t e =
      let out : ltb 0 t.remain_borrow ≡ false = ground arith in rw (out, match_rates) e

  match_lend-IsOut :
      (rate k : ℕ) (is : List ℕ) (lend : AuctionOrder) (s t : Pass)
      → IsPass s t
      → get_elem? t.lends k ≡ some lend
      → IsOut is (match_lends clock rate is (match_lend clock rate k lend t))
      → IsOut (k ∷ is) (match_lends clock rate is (match_lend clock rate k lend t))
  match_lend-IsOut rate k is lend s t h found rest =
      let u = match_lend clock rate k lend t in
      let after = match_lend-IsPass clock rate k lend s t h found in
      elim (match_lend-IsExhausted rate k lend s t h found) [
        | inl done ↦ inl (match_lends-done rate is u done)
        | inr out ↦
            IsOut-cons k is (match_lends clock rate is u)
              (IsExhausted-later k u (match_lends clock rate is u)
                (match_lends-IsPass clock rate is u u (IsPass_refl s u after)).grown out)
              rest
      ]

  none_listed : (i : ℕ) → contains i [] ≡ true → ⊥
  unfolding contains
  none_listed i e = cc

  -- The loop ends with nothing left of the borrow order or of the lend orders.
  match_lends-IsOut :
      (rate : ℕ) (is : List ℕ) (s t : Pass) → IsPass s t → IsOut is (match_lends clock rate is t)
  unfolding match_lends
  match_lends-IsOut rate [] s t h = inr (λ i e. absurd (none_listed i e))
  match_lends-IsOut rate (k ∷ is) s t h = elim (Bool-cases (ltb 0 t.remain_borrow)) [
    | inl more ↦ elim (Option-cases (get_elem? t.lends k)) [
      | inl missing ↦
          rw (more, missing, match_lends)
            (IsOut-cons k is (match_lends clock rate is t)
              (IsExhausted-later k t (match_lends clock rate is t)
                (match_lends-IsPass clock rate is t t (IsPass_refl s t h)).grown (λ lend e. cc))
              (match_lends-IsOut rate is s t h))
      | inr (lend, found) ↦
          rw (more, found, match_lends)
            (match_lend-IsOut rate k is lend s t h found (
              match_lends-IsOut rate is s (match_lend clock rate k lend t)
                (match_lend-IsPass clock rate k lend s t h found)))
    ]
    | inr done ↦ rw (done, match_lends) (inl (ground arith))
  ]

  match_rate-IsDone :
      (m : InterestMap) (limit rate : ℕ) (rates : List ℕ) (s t : Pass)
      → IsPass s t
      → IsDone m limit rates
          (match_rates clock m limit rates (match_lends clock rate (orders_at m rate) t))
      → IsDone m limit
          (rate ∷ rates)
          (match_rates clock m limit rates (match_lends clock rate (orders_at m rate) t))
  match_rate-IsDone m limit rate rates s t h rest =
      let u = match_lends clock rate (orders_at m rate) t in
      let after = match_lends-IsPass clock rate (orders_at m rate) s t h in
      elim (match_lends-IsOut rate (orders_at m rate) s t h) [
        | inl done ↦ inl (match_rates-done m limit rates u done)
        | inr out ↦
            IsDone-cons m limit rate rates (match_rates clock m limit rates u)
              (λ low i there.
                IsExhausted-later i u (match_rates clock m limit rates u)
                  (match_rates-IsPass clock m limit rates u u (IsPass_refl s u after)).grown
                  (out i there))
              rest
      ]

  pub match_rates-IsDone :
      (m : InterestMap) (limit : ℕ) (rates : List ℕ) (s t : Pass)
      → IsPass s t
      → IsDone m limit rates (match_rates clock m limit rates t)
  unfolding match_rates
  match_rates-IsDone m limit [] s t h = inr (λ rate i e. absurd (none_listed rate e))
  match_rates-IsDone m limit (rate ∷ rates) s t h = elim (Bool-cases (ltb 0 t.remain_borrow)) [
    | inl more ↦ elim (Bool-cases (leb rate limit)) [
      | inl crossing ↦
          rw (more, crossing, match_rates)
            (match_rate-IsDone m limit rate rates s t h (
              match_rates-IsDone m limit rates s (match_lends clock rate (orders_at m rate) t)
                (match_lends-IsPass clock rate (orders_at m rate) s t h)))
      | inr dear ↦
          rw (more, dear, match_rates)
            (IsDone-cons m limit rate rates (match_rates clock m limit rates t)
              (λ low. absurd (ground arith)) (match_rates-IsDone m limit rates s t h))
    ]
    | inr done ↦ rw (done, match_rates) (inl (ground arith))
  ]
