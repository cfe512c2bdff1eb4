-- ===== src/Behaviour/Outcome.antt =====
-- `process_finalized_issuing_transfer_signal`, and what the debtor is told about it: TransferSchema.
use swpt_debtors.Prelude.{
  ℕ, ◌≡◌, refl, ap, ◌∙◌, Bool, true, false, not, ◌&&◌, none, some, ◌==◌, string_Eq, int_Eq,
  option_Eq, pos, inl, inr, Bool-cases, arith, if◌then◌else◌,
}
use swpt_debtors.Platform.{Timestamp}
use swpt_debtors.Models.{
  Database, RunningTransfer, is_finalized, root_creditor_id, sc_ok, sc_unexpected_error,
  sc_insufficient_available_amount,
}
use swpt_debtors.Store.{request_row, put_transfer}
use swpt_debtors.Store.TransferLaws.{request_row-put_self, request_row-key}
use swpt_debtors.Procedures.Incoming.{process_finalized_issuing_transfer_signal, save_finalized}
use swpt_debtors.Procedures.Messages.{FinalizedTransfer}
use swpt_debtors.Schemas.Transfers.{
  ResultView, ErrorView, result_of, checkup_of, dump_result, dump_error, total_locked_amount_of,
}
use swpt_debtors.System.{committed}

-- The message is about the prepared transfer that the running transfer has taken.
abbrev pub is_about : FinalizedTransfer → RunningTransfer → Bool
is_about m rt =
    rt.debtor_id == m.debtor_id
    && (root_creditor_id == m.creditor_id && rt.transfer_id == some m.transfer_id)

-- What the debtor should be told
abbrev pub is_success : FinalizedTransfer → RunningTransfer → Bool
is_success m rt = m.status_code == sc_ok && m.committed_amount == pos rt.amount

abbrev pub is_failure : FinalizedTransfer → Bool
is_failure m = not (m.status_code == sc_ok) && m.committed_amount == pos 0

abbrev pub reported_error : FinalizedTransfer → ErrorView
reported_error m =
    if is_failure m
    then record {
      error_code = m.status_code;
      total_locked_amount =
          if m.status_code == sc_insufficient_available_amount
          then some m.total_locked_amount
          else none;
    }
    else record { error_code = sc_unexpected_error; total_locked_amount = none }

abbrev pub reported : FinalizedTransfer → RunningTransfer → Timestamp → ResultView
reported m rt ts = record {
  finalized_at = ts;
  committed_amount = if is_success m rt then rt.amount else 0;
  error = if is_success m rt then none else some (reported_error m);
}

-- The row after the message
abbrev pub finalized_by : FinalizedTransfer → RunningTransfer → Timestamp → RunningTransfer
finalized_by m rt ts = record rt {
  finalized_at = some ts;
  error_code =
      if is_success m rt
      then none
      else some (if is_failure m then m.status_code else sc_unexpected_error);
  total_locked_amount =
      if is_success m rt then none else (if is_failure m then some m.total_locked_amount else none);
}

reported_result :
    (m : FinalizedTransfer) (rt : RunningTransfer) (ts : Timestamp)
    → result_of (finalized_by m rt ts) ≡ some (reported m rt ts)
unfolding result_of dump_result dump_error total_locked_amount_of
reported_result m rt ts = elim (Bool-cases (is_success m rt)) [
  | inl e ↦ rw e refl
  | inr e ↦ elim (Bool-cases (is_failure m)) [
    | inl e' ↦ ground (arith, e, e')
    | inr e' ↦ rw (e, e') refl
  ]
]

rows_after_finalized :
    (m : FinalizedTransfer) (rt : RunningTransfer) (db : Database)
    → request_row m.coordinator_id m.coordinator_request_id db.running_transfers ≡ some rt
    → is_finalized rt ≡ false
    → is_about m rt ≡ true
    → (committed (process_finalized_issuing_transfer_signal m db) db).running_transfers
      ≡ put_transfer (finalized_by m rt (db.clock db.readings)) db.running_transfers
unfolding process_finalized_issuing_transfer_signal save_finalized
rows_after_finalized m rt db found running about = ground (arith, found, running, about)

-- The transfer is open, and the message is about the prepared transfer that it has taken. Then the
-- message finalizes it, and the debtor is told of the whole amount if the message reports success
-- with that amount; of its error if it reports failure with nothing, with the locked amount exactly
-- for insufficient funds; and of an unexpected error otherwise. No later checkup is advised.
pub finalization_reported :
    (m : FinalizedTransfer) (rt : RunningTransfer) (db : Database) (delay : ℕ)
    (current_ts : Timestamp)
    → request_row m.coordinator_id m.coordinator_request_id db.running_transfers ≡ some rt
    → is_finalized rt ≡ false
    → is_about m rt ≡ true
    → let rt' = finalized_by m rt (db.clock db.readings) in
      let db' = committed (process_finalized_issuing_transfer_signal m db) db in
      (request_row m.coordinator_id m.coordinator_request_id db'.running_transfers ≡ some rt')
      × (result_of rt' ≡ some (reported m rt (db.clock db.readings)))
      × (checkup_of delay current_ts rt' ≡ none)
unfolding checkup_of
finalization_reported m rt db delay current_ts found running about =
    let rt' = finalized_by m rt (db.clock db.readings) in
    let key =
      request_row-key m.coordinator_id m.coordinator_request_id db.running_transfers rt found in
    (
      ap (request_row m.coordinator_id m.coordinator_request_id)
            (rows_after_finalized m rt db found running about)
          ∙ request_row-put_self m.coordinator_id m.coordinator_request_id rt rt'
              db.running_transfers found key.0 key.1 refl,
      reported_result m rt (db.clock db.readings),
      refl,
    )
