-- ===== src/Models/Debtors.antt =====
-- `class Debtor`. A column with a CHECK that it is not negative is a natural number; the other
-- CHECK constraints of the table are `DebtorChecks`.
use swpt_debtors.Prelude.{
  ℕ, nat_Eq, ◌≤◌, ◌≡◌, Bool, true, false, not, Option, none, some, ◌⊎◌, String, bit_and, bit_or,
  ◌==◌, ℤ, pos, ◌≤ℤ◌,
}
use swpt_debtors.Platform.{Timestamp, Date}
use swpt_debtors.Models.Constants.{ts0, date0, min_int64, default_config_flags}

abbrev pub status_is_activated_flag : ℕ
status_is_activated_flag = 1

abbrev pub status_is_deactivated_flag : ℕ
status_is_deactivated_flag = 2

abbrev pub config_scheduled_for_deletion_flag : ℕ
config_scheduled_for_deletion_flag = 1

-- STATUS_FLAGS_MASK of procedures.py: 1 | 2
abbrev pub status_flags_mask : ℕ
status_flags_mask = bit_or status_is_activated_flag status_is_deactivated_flag

pub record Debtor : Type 0 where
  pub debtor_id : ℤ
  pub status_flags : ℕ
  pub deactivation_date : Option Date
  pub reservation_id : Option ℕ
  pub created_at : Timestamp
  pub balance : ℤ
  pub min_balance : ℤ
  pub transfer_note_max_bytes : ℤ
  pub running_transfers_count : ℤ
  pub actions_count : ℕ
  pub actions_count_reset_date : Date
  pub documents_count : ℕ
  pub documents_count_reset_date : Date
  pub has_server_account : Bool
  pub account_creation_date : Date
  pub account_last_change_ts : Timestamp
  pub account_last_change_seqnum : ℤ
  pub account_last_heartbeat_ts : Timestamp
  pub account_id : String
  pub last_config_ts : Timestamp
  pub last_config_seqnum : ℤ
  pub is_config_effectual : Bool
  pub config_flags : ℤ
  pub config_data : String
  pub config_error : Option String
  pub config_latest_update_id : ℕ
  pub debtor_info_iri : Option String

unfoldable pub is_activated : Debtor → Bool
is_activated d = not (bit_and d.status_flags status_is_activated_flag == 0)

unfoldable pub is_deactivated : Debtor → Bool
is_deactivated d = not (bit_and d.status_flags status_is_deactivated_flag == 0)

-- The condition `status_flags & STATUS_FLAGS_MASK == STATUS_IS_ACTIVATED_FLAG` of the queries.
unfoldable pub is_active : Debtor → Bool
is_active d = bit_and d.status_flags status_flags_mask == status_is_activated_flag

unfoldable pub activate : Debtor → Debtor
activate d = record d { status_flags = bit_or d.status_flags status_is_activated_flag }

-- `today` is the date read from the clock.
unfoldable pub deactivate : Date → Debtor → Debtor
deactivate today d = record d {
  status_flags = bit_or d.status_flags status_is_deactivated_flag;
  deactivation_date = some today;
  is_config_effectual = true;
  config_flags = pos (bit_or default_config_flags config_scheduled_for_deletion_flag);
  config_data = "";
  config_error = none;
  debtor_info_iri = none;
}

-- A new row: the column defaults, with what the sequence and the clock give.
unfoldable pub new_debtor : ℤ → ℕ → Timestamp → Date → Date → Timestamp → Debtor
new_debtor debtor_id reservation_id created_at actions_reset documents_reset heartbeat = record {
  debtor_id = debtor_id;
  status_flags = 0;
  deactivation_date = none;
  reservation_id = some reservation_id;
  created_at = created_at;
  balance = pos 0;
  min_balance = min_int64;
  transfer_note_max_bytes = pos 0;
  running_transfers_count = pos 0;
  actions_count = 0;
  actions_count_reset_date = actions_reset;
  documents_count = 0;
  documents_count_reset_date = documents_reset;
  has_server_account = false;
  account_creation_date = date0;
  account_last_change_ts = ts0;
  account_last_change_seqnum = pos 0;
  account_last_heartbeat_ts = heartbeat;
  account_id = "";
  last_config_ts = ts0;
  last_config_seqnum = pos 0;
  is_config_effectual = false;
  config_flags = pos default_config_flags;
  config_data = "";
  config_error = none;
  config_latest_update_id = 1;
  debtor_info_iri = none;
}

-- The table's CHECK constraints.
pub record DebtorChecks (d : Debtor) : Type 0 where
  pub update_id_pos : 1 ≤ d.config_latest_update_id
  pub deactivated_after_activated : is_deactivated d ≡ true → is_activated d ≡ true
  pub date_when_deactivated : (d.deactivation_date ≡ none) ⊎ (is_deactivated d ≡ true)
  pub min_balance_nonpos : d.min_balance ≤ℤ pos 0
