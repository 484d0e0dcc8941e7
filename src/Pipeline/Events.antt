-- ===== src/Pipeline/Events.antt =====
-- The events of the contract, backend/ts-operator/src/infrastructure/operator.producer.ts: each makes
-- a request, and a deposit waits for the account that it is for. The handlers run one after another.
pub mod Deposits
use zk_obs.Common.{
  ℕ, ◌+◌, Bool, true, false, Option, none, some, List, [], ◌∷◌, ◌++◌, ◌==◌, if◌then◌else◌, not,
  ◌||◌,
}
use zk_obs.Transaction.TsTxType

-- The columns of a request that the handlers give; `none` where they give none.
pub record L1Request : Type 0 where
  pub req_type : ℕ
  pub account_id : Option ℕ
  pub token_id : ℕ
  pub amount : ℕ
  pub arg0 : ℕ
  pub arg1 : Option ℕ
  pub l1_tx_hash : ℕ

-- AccountInformation; the address 0 stands for the empty string.
pub record Account : Type 0 where
  pub l1_address : ℕ
  pub account_id : ℕ
  pub ts_pub_key_x : ℕ
  pub ts_pub_key_y : ℕ

-- The tables, in the order in which the database gives their rows, the count of jobs that were added
-- to the queue of the core service, and the fields of the service.
pub record Listener : Type 0 where
  pub tx_rows : List L1Request
  pub accounts : List Account
  pub core_jobs : ℕ
  pub hold_tx : List L1Request
  pub hold_tx_processing : Bool

-- `findOne({ where: { L1TxHash } })` finds a row.
unfoldable pub has_hash : ℕ → List L1Request → Bool
has_hash tx_hash [] = false
has_hash tx_hash (r ∷ rows) = r.l1_tx_hash == tx_hash || has_hash tx_hash rows

-- `findOne({ where: { accountId } })`, where a condition that is undefined is none.
unfoldable pub find_account : Option ℕ → List Account → Option Account
find_account id [] = none
find_account none (a ∷ accounts) = some a
find_account (some id) (a ∷ accounts) =
    let rest = find_account (some id) accounts in if a.account_id == id then some a else rest

-- `account && account.L1Address`
abbrev pub is_registered : Option Account → Bool
is_registered none = false
is_registered (some a) = not (a.l1_address == 0)

-- `upsert(row, ['L1Address'])`
unfoldable pub upsert_account : Account → List Account → List Account
upsert_account row [] = row ∷ []
upsert_account row (a ∷ accounts) =
    let rest = upsert_account row accounts in
    if a.l1_address == row.l1_address then row ∷ accounts else a ∷ rest

abbrev pub register_request : ℕ → ℕ → ℕ → L1Request
register_request account_id l2_addr tx_hash = record {
  req_type = TsTxType.register;
  account_id = some 0;
  token_id = 0;
  amount = 0;
  arg0 = account_id;
  arg1 = some l2_addr;
  l1_tx_hash = tx_hash;
}

-- The request of a deposit has no account id.
abbrev pub deposit_request : ℕ → ℕ → ℕ → ℕ → L1Request
deposit_request account_id token_id amount tx_hash = record {
  req_type = TsTxType.deposit;
  account_id = none;
  token_id = token_id;
  amount = amount;
  arg0 = account_id;
  arg1 = none;
  l1_tx_hash = tx_hash;
}

-- Whether the database takes a row; an insert that it refuses is an error.
module _ (accepts : L1Request → Bool) where
  -- `handleRegisterEvent`: the insert, the upsert and the job are begun together, and a refusal of one
  -- leaves the others.
  unfoldable pub handle_register_event : ℕ → ℕ → ℕ → ℕ → ℕ → ℕ → Listener → Listener
  unfolding has_hash upsert_account
  handle_register_event sender account_id ts_pub_x ts_pub_y l2_addr tx_hash s =
      let row = register_request account_id l2_addr tx_hash in
      if has_hash tx_hash s.tx_rows then s else record s {
        tx_rows = if accepts row then s.tx_rows ++ row ∷ [] else s.tx_rows;
        accounts =
            upsert_account
              (record {
                l1_address = sender;
                account_id = account_id;
                ts_pub_key_x = ts_pub_x;
                ts_pub_key_y = ts_pub_y;
              })
              s.accounts;
        core_jobs = s.core_jobs + 1;
      }

  -- `handleDepositEvent`
  unfoldable pub handle_deposit_event : ℕ → ℕ → ℕ → ℕ → Listener → Listener
  unfolding has_hash find_account
  handle_deposit_event account_id token_id amount tx_hash s =
      let req = deposit_request account_id token_id amount tx_hash in
      if has_hash tx_hash s.tx_rows
      then s
      else if is_registered (find_account (some account_id) s.accounts)
      then if accepts req
        then record s { tx_rows = s.tx_rows ++ req ∷ []; core_jobs = s.core_jobs + 1 }
        else s
      else record s { hold_tx = s.hold_tx ++ req ∷ [] }

  -- The loop of `checkoutHoldTx` over what is left of `holdTx`, with `newArr`: an error ends it and
  -- leaves `holdTx` as it was.
  unfoldable pub checkout_from : List L1Request → List L1Request → Listener → Listener
  unfolding find_account
  checkout_from [] new_arr s = record s { hold_tx = new_arr }
  checkout_from (req ∷ reqs) new_arr s =
      elim (is_registered (find_account req.account_id s.accounts)) [
        | false ↦ checkout_from reqs (new_arr ++ req ∷ []) s
        | true ↦ elim (accepts req) [
          | true ↦ checkout_from reqs new_arr (record s { tx_rows = s.tx_rows ++ req ∷ [] })
          | false ↦ s
        ]
      ]

  -- `checkoutHoldTx`, whose flag is down again at its end.
  unfoldable pub checkout_hold_tx : Listener → Listener
  unfolding checkout_from
  checkout_hold_tx s =
      if s.hold_tx_processing
      then s
      else record (checkout_from s.hold_tx [] (record s { hold_tx_processing = true })) {
        hold_tx_processing = false;
      }
