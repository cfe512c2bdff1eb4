-- ===== src/Schemas/Transfers.antt =====
-- How transfers are rendered: TransferSchema, TransferResultSchema and TransferErrorSchema.
use swpt_debtors.Prelude.{
  ℕ, ◌+◌, ◌-◌, max, not, Option, none, some, String, ◌==◌, string_Eq, int_Eq, ℤ, pos, if◌then◌else◌,
}
use swpt_debtors.Platform.{Timestamp}
use swpt_debtors.Models.{RunningTransfer, sc_insufficient_available_amount}
use swpt_debtors.Schemas.Links.{Links}

pub record ErrorView : Type 0 where
  pub error_code : String
  pub total_locked_amount : Option ℤ

pub record ResultView : Type 0 where
  pub finalized_at : Timestamp
  pub committed_amount : ℕ
  pub error : Option ErrorView

pub record TransferView : Type 0 where
  pub uri : String
  pub transfer_uuid : ℕ
  pub transfers_list : String
  pub recipient : String
  pub amount : ℕ
  pub transfer_note_format : String
  pub transfer_note : String
  pub initiated_at : Timestamp
  pub checkup_at : Option Timestamp
  pub result : Option ResultView

-- `obj.get("total_locked_amount") or 0`
abbrev pub or_zero : Option ℤ → ℤ
or_zero none = pos 0
or_zero (some n) = n

-- `get_total_locked_amount`; `none` is `missing`.
unfoldable pub total_locked_amount_of : String → Option ℤ → Option ℤ
total_locked_amount_of error_code total_locked_amount =
    if not (error_code == sc_insufficient_available_amount)
    then none
    else some (or_zero total_locked_amount)

unfoldable pub dump_error : String → Option ℤ → ErrorView
unfolding total_locked_amount_of
dump_error error_code total_locked_amount = record {
  error_code = error_code;
  total_locked_amount = total_locked_amount_of error_code total_locked_amount;
}

unfoldable pub dump_result : Timestamp → ℕ → Option String → Option ℤ → ResultView
unfolding dump_error
dump_result finalized_at amount none total_locked_amount = record {
  finalized_at = finalized_at;
  committed_amount = amount;
  error = none;
}
dump_result finalized_at amount (some error_code) total_locked_amount = record {
  finalized_at = finalized_at;
  committed_amount = 0;
  error = some (dump_error error_code total_locked_amount);
}

-- `delay` is APP_TRANSFERS_FINALIZATION_APPROX_SECONDS, in microseconds. As it is not negative, the
-- difference may stop at 0.
unfoldable pub calc_checkup_datetime : ℕ → Timestamp → Timestamp → Timestamp
calc_checkup_datetime delay current_ts initiated_at =
    current_ts + max (current_ts - initiated_at) delay

-- `get_checkup_at_string`; `none` is `missing`.
unfoldable pub checkup_of : ℕ → Timestamp → RunningTransfer → Option Timestamp
unfolding calc_checkup_datetime
checkup_of delay current_ts rt = elim rt.finalized_at [
  | some _ ↦ none
  | none ↦ some (calc_checkup_datetime delay current_ts rt.initiated_at)
]

unfoldable pub result_of : RunningTransfer → Option ResultView
unfolding dump_result
result_of rt = elim rt.finalized_at [
  | none ↦ none
  | some finalized_at ↦
      some (dump_result finalized_at rt.amount rt.error_code rt.total_locked_amount)
]

unfoldable pub dump_transfer : Links → ℕ → Timestamp → RunningTransfer → TransferView
unfolding checkup_of result_of
dump_transfer u delay current_ts rt = record {
  uri = u.transfer rt.debtor_id rt.transfer_uuid;
  transfer_uuid = rt.transfer_uuid;
  transfers_list = u.transfers_list rt.debtor_id;
  recipient = rt.recipient_uri;
  amount = rt.amount;
  transfer_note_format = rt.transfer_note_format;
  transfer_note = rt.transfer_note;
  initiated_at = rt.initiated_at;
  checkup_at = checkup_of delay current_ts rt;
  result = result_of rt;
}
