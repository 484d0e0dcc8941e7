-- ===== src/Auction/Matching/Rounds.antt =====
-- What the round of a borrow order does, and the rounds one after the other.
use zk_obs.Common.{
  ℕ, ◌+◌, ◌≤◌, ◌≡◌, refl, ap, ◌∙◌, sym, List, [], ◌∷◌, ◌++◌, arith, All, All-append,
}
use mathlib.Core.Path.{subst}
use zk_obs.Auction.{AuctionOrder, details_of, matched_amount, remain_amount, add_matched_detail}
use zk_obs.Auction.InterestMap.{InterestMap, interest_list}
use zk_obs.Auction.Matching.{Pass, match_rates, settle_rates, match_borrow, match_borrows}
use zk_obs.Auction.Matching.Sums.{
  IsKnown, IsFilled, total_matched, IsSame, matched_amount_cong, total_matched_cong, IsFilled-cong,
  total_matched-append, matched_amount-add,
}
use zk_obs.Auction.Matching.Steps.{IsGrown, IsPass, All-IsKnown_more, below_more}
use zk_obs.Auction.Matching.Loops.{match_rates-IsPass, settle_rates-IsPass}

pub record IsReady (t : Pass) : Type 0 where
  pub known_lends : All (IsKnown t.next) t.lends
  pub filled_lends : All (IsFilled t.details) t.lends
  pub known_borrows : All (IsKnown t.next) t.borrows
  pub filled_borrows : All (IsFilled t.details) t.borrows

-- The rounds of the borrow orders `bs` lead from `s` to `t`.
pub record IsRounds (bs : List AuctionOrder) (s t : Pass) : Type 0 where
  pub later : s.next ≤ t.next
  pub same : IsSame s.next s.details t.details
  pub ready : IsReady t
  pub grown : IsGrown s t
  pub balance :
      total_matched t.details t.lends
        + (total_matched s.details s.borrows + total_matched s.details bs)
      ≡ total_matched s.details s.lends + total_matched t.details t.borrows

pub IsGrown-refl : (s : Pass) → IsGrown s s
IsGrown-refl s i now e = (now, e, refl, refl, omega arith)

pub IsGrown-trans : (s t u : Pass) → IsGrown s t → IsGrown t u → IsGrown s u
IsGrown-trans s t u g h i now e =
    let (mid, at_mid, rate_mid, amount_mid, less_mid) = h i now e in
    let (was, at_was, rate_was, amount_was, less_was) = g i mid at_mid in
    (was, at_was, rate_mid ∙ rate_was, amount_mid ∙ amount_was, omega (arith, less_mid, less_was))

-- The state in which the loops for a borrow order begin.
abbrev pub start_of : AuctionOrder → Pass → Pass
start_of b t = record t { remain_borrow = remain_amount t.details b; match_details = [] }

pub start_of-IsPass :
    (b : AuctionOrder) (t : Pass) → IsReady t → IsPass (start_of b t) (start_of b t)
start_of-IsPass b t ready = record {
  later = omega arith;
  same = λ k less. refl;
  known = ready.known_lends;
  filled = ready.filled_lends;
  listed = tt;
  borrows = refl;
  balance = refl;
  paid = refl;
  grown = IsGrown-refl t;
}

module _ (clock : ℕ → ℕ) (m : InterestMap) where
  -- The state in which they end.
  abbrev pub end_of : AuctionOrder → Pass → Pass
  end_of b t = settle_rates (match_rates clock m b.interest_rate (interest_list m) (start_of b t))

  pub end_of-IsPass : (b : AuctionOrder) (t : Pass) → IsReady t → IsPass (start_of b t) (end_of b t)
  end_of-IsPass b t ready =
      settle_rates-IsPass _ _ (
        match_rates-IsPass clock m b.interest_rate (interest_list m) _ _
          (start_of-IsPass b t ready))

  module _ (b : AuctionOrder) (t : Pass) (ready : IsReady t) (known : IsKnown t.next b)
      (filled : IsFilled t.details b) where
    abbrev pub u : Pass
    u = end_of b t

    abbrev pub b' : AuctionOrder
    b' = add_matched_detail (clock u.ticks) u.match_details b

    pass : IsPass (start_of b t) u
    pass = end_of-IsPass b t ready

    pub b'_amount :
        matched_amount u.details b' + u.remain_borrow
        ≡ matched_amount t.details b + remain_amount t.details b
    b'_amount = omega (
      arith,
      matched_amount-add u.details (clock u.ticks) u.match_details b,
      matched_amount_cong t.next t.details u.details pass.same b known,
      pass.paid,
    )

    b'-IsFilled : IsFilled u.details b'
    unfolding remain_amount add_matched_detail
    b'-IsFilled = omega (arith, b'_amount, filled)

    b'-IsKnown : IsKnown u.next b'
    unfolding add_matched_detail
    b'-IsKnown =
        All-append _ (details_of b) u.match_details
          (below_more t.next u.next (details_of b) pass.later known) pass.listed

    IsReady-after : IsReady (match_borrow clock m b t)
    unfolding match_borrow
    IsReady-after = record {
      known_lends = pass.known;
      filled_lends = pass.filled;
      known_borrows =
          subst (λ bs. All (IsKnown u.next) (bs ++ b' ∷ [])) (sym pass.borrows)
            (All-append (IsKnown u.next) t.borrows (b' ∷ [])
              (All-IsKnown_more t.next u.next t.borrows pass.later ready.known_borrows)
              (b'-IsKnown, tt));
      filled_borrows =
          subst (λ bs. All (IsFilled u.details) (bs ++ b' ∷ [])) (sym pass.borrows)
            (All-append (IsFilled u.details) t.borrows (b' ∷ [])
              (IsFilled-cong t.next t.details u.details pass.same t.borrows ready.known_borrows
                ready.filled_borrows)
              (b'-IsFilled, tt));
    }

    pub match_borrow-IsRounds : IsRounds (b ∷ []) t (match_borrow clock m b t)
    unfolding match_borrow
    match_borrow-IsRounds = record {
      later = pass.later;
      same = pass.same;
      ready = IsReady-after;
      grown = pass.grown;
      balance = omega (
        arith,
        pass.balance,
        b'_amount,
        total_matched-append u.details u.borrows b',
        ap (total_matched u.details) pass.borrows,
        total_matched_cong t.next t.details u.details pass.same t.borrows ready.known_borrows,
      );
    }

IsRounds-nil : (s : Pass) → IsReady s → IsRounds [] s s
IsRounds-nil s ready = record {
  later = omega arith;
  same = λ k less. refl;
  ready = ready;
  grown = IsGrown-refl s;
  balance = omega arith;
}

IsRounds-cons :
    (b : AuctionOrder) (bs : List AuctionOrder) (s t u : Pass)
    → All (IsKnown s.next) bs
    → IsRounds (b ∷ []) s t
    → IsRounds bs t u
    → IsRounds (b ∷ bs) s u
IsRounds-cons b bs s t u known g h = record {
  later = omega (arith, g.later, h.later);
  same = λ k less. h.same k (omega (arith, less, g.later)) ∙ g.same k less;
  ready = h.ready;
  grown = IsGrown-trans s t u g.grown h.grown;
  balance =
      omega (
        arith,
        g.balance,
        h.balance,
        total_matched_cong s.next s.details t.details g.same bs known,
      );
}

module _ (clock : ℕ → ℕ) (m : InterestMap) where
  pub match_borrows-IsRounds :
      (bs : List AuctionOrder) (s : Pass)
      → IsReady s
      → All (IsKnown s.next) bs
      → All (IsFilled s.details) bs
      → IsRounds bs s (match_borrows clock m bs s)
  unfolding match_borrows
  match_borrows-IsRounds [] s ready known filled = IsRounds-nil s ready
  match_borrows-IsRounds (b ∷ bs) s ready known filled =
      let round = match_borrow-IsRounds clock m b s ready known.0 filled.0 in
      let t = match_borrow clock m b s in
      IsRounds-cons b bs s t (match_borrows clock m bs t) known.1 round (
        match_borrows-IsRounds bs t round.ready
          (All-IsKnown_more s.next t.next bs round.later known.1)
          (IsFilled-cong s.next s.details t.details round.same bs known.1 filled.1))
