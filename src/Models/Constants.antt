-- ===== src/Models/Constants.antt =====
-- The constants of swpt_debtors/models.py.
use swpt_debtors.Prelude.{ℕ, ◌-◌, ◌*◌, ◌/◌, ◌^◌, String, ℤ, pos, negsuc}
use swpt_debtors.Platform.{Timestamp, Date}

abbrev pub max_int32 : ℕ
max_int32 = 2 ^ 31 - 1

abbrev pub min_int64 : ℤ
min_int64 = negsuc (2 ^ 63 - 1)

abbrev pub max_int64 : ℕ
max_int64 = 2 ^ 63 - 1

abbrev pub microseconds_per_second : ℕ
microseconds_per_second = 1000000

abbrev pub microseconds_per_day : ℕ
microseconds_per_day = 86400 * microseconds_per_second

-- `ts.date()`
unfoldable pub date_of : Timestamp → Date
date_of ts = ts / microseconds_per_day

-- 1970-01-01
abbrev pub date0 : Date
date0 = 719163

abbrev pub ts0 : Timestamp
ts0 = date0 * microseconds_per_day

abbrev pub root_creditor_id : ℤ
root_creditor_id = pos 0

abbrev pub default_config_flags : ℕ
default_config_flags = 0

abbrev pub sc_ok : String
sc_ok = "OK"

abbrev pub sc_unexpected_error : String
sc_unexpected_error = "UNEXPECTED_ERROR"

abbrev pub sc_canceled_by_the_sender : String
sc_canceled_by_the_sender = "CANCELED_BY_THE_SENDER"

abbrev pub sc_insufficient_available_amount : String
sc_insufficient_available_amount = "INSUFFICIENT_AVAILABLE_AMOUNT"

abbrev pub transfer_note_max_bytes : ℕ
transfer_note_max_bytes = 500

abbrev pub config_data_max_bytes : ℕ
config_data_max_bytes = 2000

abbrev pub ct_issuing : String
ct_issuing = "issuing"
