-- ===== src/Tests/Events.antt =====
-- The events of the contract, at concrete inputs: account 1 is registered, account 5 is not.
use zk_obs.Common.{◌≡◌, refl, Bool, true, false, some, [], ◌∷◌, ◌++◌, if◌then◌else◌}
use zk_obs.Pipeline.Events.{
  L1Request, Listener, has_hash, find_account, is_registered, deposit_request,
  handle_register_event, handle_deposit_event, checkout_hold_tx,
}
use zk_obs.Pipeline.Events.Deposits.{handle_deposit_event-repeated}

abbrev all_accepted : L1Request → Bool
all_accepted r = true

abbrev one_account : Listener
one_account = record {
  tx_rows = [];
  accounts = record { l1_address = 7; account_id = 1; ts_pub_key_x = 2; ts_pub_key_y = 3 } ∷ [];
  core_jobs = 0;
  hold_tx = [];
  hold_tx_processing = false;
}

abbrev twice : Listener
twice =
    handle_deposit_event all_accepted 5 6 100 9
      (handle_deposit_event all_accepted 5 6 100 9 one_account)

handle_deposit_event-repeated_example :
    (checkout_hold_tx all_accepted twice).tx_rows
    ≡ []
      ++ (if is_registered (find_account (some 5) one_account.accounts)
          then deposit_request 5 6 100 9 ∷ []
          else deposit_request 5 6 100 9 ∷ deposit_request 5 6 100 9 ∷ [])
unfolding has_hash find_account
handle_deposit_event-repeated_example =
    handle_deposit_event-repeated all_accepted 5 6 100 9 one_account refl refl refl refl refl

-- A registration makes one request, also when its event comes twice.
register_twice :
    (handle_register_event all_accepted 8 5 1 2 3 11
      (handle_register_event all_accepted 8 5 1 2 3 11 one_account)).core_jobs
    ≡ 1
unfolding handle_register_event
register_twice = refl
