-- ===== src/Pipeline/Events/Deposits.antt =====
-- What becomes of a deposit.
use zk_obs.Common.{
  ℕ, ◌+◌, ◌≡◌, refl, ap, ◌∙◌, sym, Bool, true, false, none, some, List, [], ◌∷◌, ◌++◌, ◌==◌,
  if◌then◌else◌, arith, Bool-cases, inl, inr, ◌||◌, All,
}
use mathlib.Core.Path.{subst}
use mathlib.Core.List.{append-nil, append_assoc}
use zk_obs.Pipeline.Events.{
  L1Request, Listener, has_hash, find_account, is_registered, deposit_request, handle_deposit_event,
  checkout_from, checkout_hold_tx,
}

has_hash-append :
    (tx_hash : ℕ) (rows : List L1Request) (r : L1Request)
    → has_hash tx_hash (rows ++ r ∷ []) ≡ (has_hash tx_hash rows || r.l1_tx_hash == tx_hash)
unfolding has_hash
has_hash-append tx_hash [] r = ground arith
has_hash-append tx_hash (x ∷ rows) r = let ih = has_hash-append tx_hash rows r in ground arith

module _ (accepts : L1Request → Bool) where
  -- Deposits that wait have no account id: the first account decides for all of them.
  checkout_from-releases :
      (reqs new_arr : List L1Request) (s : Listener)
      → is_registered (find_account none s.accounts) ≡ true
      → All (λ r. (r.account_id ≡ none) × (accepts r ≡ true)) reqs
      → checkout_from accepts reqs new_arr s
        ≡ record s { tx_rows = s.tx_rows ++ reqs; hold_tx = new_arr }
  unfolding checkout_from
  checkout_from-releases [] new_arr s first waiting =
      ap (λ rows. record s { tx_rows = rows; hold_tx = new_arr }) (sym (append-nil s.tx_rows))
  checkout_from-releases (req ∷ reqs) new_arr s first waiting =
      let there : is_registered (find_account req.account_id s.accounts) ≡ true =
        ap (λ id. is_registered (find_account id s.accounts)) waiting.0.0 ∙ first in
      let taken = waiting.0.1 in
      let rest =
        checkout_from-releases reqs new_arr (record s { tx_rows = s.tx_rows ++ req ∷ [] }) first
          waiting.1 in
      rw (there, taken, checkout_from)
        (rest
          ∙ ap (λ rows. record s { tx_rows = rows; hold_tx = new_arr })
              (append_assoc s.tx_rows (req ∷ []) reqs))

  checkout_hold_tx-releases :
      (s : Listener)
      → s.hold_tx_processing ≡ false
      → is_registered (find_account none s.accounts) ≡ true
      → All (λ r. (r.account_id ≡ none) × (accepts r ≡ true)) s.hold_tx
      → (checkout_hold_tx accepts s).tx_rows ≡ s.tx_rows ++ s.hold_tx
  unfolding checkout_hold_tx
  checkout_hold_tx-releases s idle first waiting =
      rw (idle, checkout_hold_tx)
        (ap (λ (t : Listener). t.tx_rows)
          (checkout_from-releases s.hold_tx [] (record s { hold_tx_processing = true }) first
            waiting))

  module _ (account_id token_id amount tx_hash : ℕ) (s : Listener) where
    abbrev pub req : L1Request
    req = deposit_request account_id token_id amount tx_hash

    abbrev pub handled : Listener → Listener
    handled = handle_deposit_event accepts account_id token_id amount tx_hash

    -- A deposit for an account that is there is taken once.
    handled_registered :
        has_hash tx_hash s.tx_rows ≡ false
        → is_registered (find_account (some account_id) s.accounts) ≡ true
        → accepts req ≡ true
        → handled (handled s)
          ≡ record s { tx_rows = s.tx_rows ++ req ∷ []; core_jobs = s.core_jobs + 1 }
    unfolding handle_deposit_event
    handled_registered new there taken =
        let app = has_hash-append tx_hash s.tx_rows req in
        let found : has_hash tx_hash (s.tx_rows ++ req ∷ []) ≡ true = ground arith in
        rw (new, there, taken, handle_deposit_event) (rw (found, handle_deposit_event) refl)

    -- A deposit for another account is held as often as it is handled.
    handled_waiting :
        has_hash tx_hash s.tx_rows ≡ false
        → is_registered (find_account (some account_id) s.accounts) ≡ false
        → handled (handled s) ≡ record s { hold_tx = (s.hold_tx ++ req ∷ []) ++ req ∷ [] }
    unfolding handle_deposit_event
    handled_waiting new missing =
        rw (new, missing, handle_deposit_event) (rw (new, missing, handle_deposit_event) refl)

    -- A deposit event that comes twice, where no row has its hash, no deposit waits, the first account
    -- of all is registered and the row is accepted, makes one request after `checkoutHoldTx` when its
    -- own account is registered, and two when it is not.
    pub handle_deposit_event-repeated :
        s.hold_tx_processing ≡ false
        → s.hold_tx ≡ []
        → has_hash tx_hash s.tx_rows ≡ false
        → is_registered (find_account none s.accounts) ≡ true
        → accepts req ≡ true
        → (checkout_hold_tx accepts (handled (handled s))).tx_rows
          ≡ s.tx_rows
            ++ (if is_registered (find_account (some account_id) s.accounts)
                then req ∷ []
                else req ∷ req ∷ [])
    handle_deposit_event-repeated idle none_held new first taken =
        elim (Bool-cases (is_registered (find_account (some account_id) s.accounts))) [
          | inl there ↦
              let after : Listener = record s {
                tx_rows = s.tx_rows ++ req ∷ [];
                core_jobs = s.core_jobs + 1;
              } in
              rw there (
                ap (λ t. (checkout_hold_tx accepts t).tx_rows) (handled_registered new there taken)
                ∙ checkout_hold_tx-releases after idle first (
                    subst (All (λ r. (r.account_id ≡ none) × (accepts r ≡ true))) (sym none_held)
                      tt)
                ∙ ap (λ held. (s.tx_rows ++ req ∷ []) ++ held) none_held
                ∙ append-nil (s.tx_rows ++ req ∷ []))
          | inr missing ↦
              let after : Listener = record s { hold_tx = (s.hold_tx ++ req ∷ []) ++ req ∷ [] } in
              let held : after.hold_tx ≡ req ∷ req ∷ [] =
                ap (λ reqs. (reqs ++ req ∷ []) ++ req ∷ []) none_held in
              rw missing (
                ap (λ t. (checkout_hold_tx accepts t).tx_rows) (handled_waiting new missing)
                ∙ checkout_hold_tx-releases after idle first (
                    subst (All (λ r. (r.account_id ≡ none) × (accepts r ≡ true))) (sym held)
                      ((refl, taken), ((refl, taken), tt)))
                ∙ ap (λ reqs. s.tx_rows ++ reqs) held)
        ]
