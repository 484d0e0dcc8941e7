-- ===== src/TxCodec/Requests.antt =====
-- The public data of each kind of request, given that ethers packs as it is documented to.
use zk_obs.Common.{ℕ, ◌≢◌, Bool, true, false, Option, none, some, [], ◌∷◌}
use zk_obs.Common.Int.{ℤ, pos}
use zk_obs.Bigint.{amount_to_tx_amount_v3_40bit}
use zk_obs.Transaction.{TransactionInfo, Metadata}
use zk_obs.TxCodec.{Fields}

-- The kinds of request that carry data.
pub data Kind : Type 0 where
  register deposit withdraw order cancel start exchange finish : Kind

abbrev pub code : Kind → ℕ
code register = 1
code deposit = 2
code withdraw = 3
code order = 4
code cancel = 11
code start = 5
code exchange = 6
code finish = 7

-- What metadata gives a matching step; where it is missing the source finds nothing, which it tests
-- as it tests a zero.
abbrev pub tx_offset_of : Option Metadata → ℤ
tx_offset_of none = pos 0
tx_offset_of (some m) = m.tx_offset

abbrev pub maker_buy_amt_of : Option Metadata → ℕ
maker_buy_amt_of none = 0
maker_buy_amt_of (some m) = m.maker_buy_amt

-- The fields that are packed behind the request type.
abbrev pub layout : Kind → TransactionInfo → Option Metadata → Fields
layout register tx m =
    (32, pos tx.arg0) ∷ (16, pos tx.token_id) ∷ (128, pos tx.amount) ∷ (160, pos tx.arg1) ∷ []
layout deposit tx m = (32, pos tx.arg0) ∷ (16, pos tx.token_id) ∷ (128, pos tx.amount) ∷ []
layout withdraw tx m = (32, pos tx.account_id) ∷ (16, pos tx.token_id) ∷ (128, pos tx.amount) ∷ []
layout order tx m =
    (32, pos tx.account_id)
    ∷ (16, pos tx.token_id)
    ∷ (40, pos (amount_to_tx_amount_v3_40bit tx.amount))
    ∷ []
layout cancel tx m =
    (32, pos tx.arg0)
    ∷ (16, pos tx.token_id)
    ∷ (40, pos (amount_to_tx_amount_v3_40bit tx.amount))
    ∷ []
layout start tx m = (32, tx_offset_of m) ∷ []
layout exchange tx m =
    (32, tx_offset_of m) ∷ (40, pos (amount_to_tx_amount_v3_40bit (maker_buy_amt_of m))) ∷ []
layout finish tx m = []

-- The operation's chunks, less one.
abbrev pub more_chunks : Kind → ℕ
more_chunks register = 3
more_chunks deposit = 1
more_chunks withdraw = 1
more_chunks _ = 0

-- The kinds that the contract has to see.
abbrev pub critical : Kind → Bool
critical register = true
critical deposit = true
critical withdraw = true
critical _ = false

-- What the metadata of a matching step must hold.
abbrev pub IsReady : Kind → Option Metadata → Type 0
IsReady start m = tx_offset_of m ≢ pos 0
IsReady exchange m = (tx_offset_of m ≢ pos 0) × (maker_buy_amt_of m ≢ 0)
IsReady _ m = Unit
