-- ===== src/Transaction/TsTxType.antt =====
-- `enum TsTxType` of backend/ts-sdk/src/domain/lib/ts-types/ts-types.ts, as far as the sequencer
-- and the matching engine tell its values apart; NOOP and UNKNOWN are the same number.
use zk_obs.Common.{ℕ}

abbrev pub unknown : ℕ
unknown = 0

abbrev pub noop : ℕ
noop = 0

abbrev pub register : ℕ
register = 1

abbrev pub deposit : ℕ
deposit = 2

abbrev pub withdraw : ℕ
withdraw = 3

abbrev pub second_limit_order : ℕ
second_limit_order = 4

abbrev pub second_limit_start : ℕ
second_limit_start = 5

abbrev pub second_limit_exchange : ℕ
second_limit_exchange = 6

abbrev pub second_limit_end : ℕ
second_limit_end = 7

abbrev pub cancel_order : ℕ
cancel_order = 11

abbrev pub auction_lend : ℕ
auction_lend = 99

abbrev pub auction_borrow : ℕ
auction_borrow = 100
