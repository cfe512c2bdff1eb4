-- ===== src/Lifecycle/Advances.antt =====
-- The procedures that write a transfer back make it advance.
use swpt_debtors.Prelude.{
  ℕ, ◌≡◌, refl, Bool, true, false, not, ◌&&◌, Option, none, some, String, ◌==◌, string_Eq, int_Eq,
  option_Eq, option_eq, option_eq_iff, ℤ, inl, inr, Bool-cases, Option-cases, first, arith,
  if◌then◌else◌,
}
use swpt_debtors.Models.{
  Database, RunningTransfer, is_finalized, is_settled, sc_canceled_by_the_sender,
}
use swpt_debtors.Store.{transfer_row, request_row, has_uuid, has_request_id}
use swpt_debtors.Procedures.Monad.{Procedure, pure}
use swpt_debtors.Procedures.Transfers.{cancel_running_transfer}
use swpt_debtors.Procedures.Incoming.{
  settle, save_finalized, answer_prepared_transfer, the_signal_matches_the_transfer,
  process_rejected_issuing_transfer_signal, process_prepared_issuing_transfer_signal,
  process_finalized_issuing_transfer_signal,
}
use swpt_debtors.Procedures.Messages.{RejectedTransfer, PreparedTransfer, FinalizedTransfer}
use swpt_debtors.System.{committed}
use swpt_debtors.Lifecycle.Changes.{
  Advances, stays, settles, finalizes, Change, unchanged, advanced,
}

settle-Advances : (t : ℤ) (rt : RunningTransfer) → Advances rt (settle t rt)
unfolding settle option_eq
settle-Advances t rt = elim (Bool-cases (not (is_finalized rt) && rt.transfer_id == none)) [
  | inl e ↦ settles t (ground arith) (ground (arith, option_eq_iff rt.transfer_id none)) (rw e refl)
  | inr e ↦ stays (rw e refl)
]

module _ (db : Database) (query : RunningTransfer → Bool) (rt : RunningTransfer)
    (found : first query db.running_transfers ≡ some rt) where
  save_finalized-Change :
      (code : Option String) (locked : Option ℤ)
      → Change db (committed (save_finalized rt code locked db) db)
  save_finalized-Change code locked = elim (Bool-cases (is_finalized rt)) [
    | inl e ↦
        advanced query rt rt found (stays refl) (unfold save_finalized in ground (arith, e))
          (unfold save_finalized in ground (arith, e))
    | inr e ↦
        advanced query rt
          (record rt {
            finalized_at = some (db.clock db.readings);
            error_code = code;
            total_locked_amount = locked;
          })
          found (finalizes (db.clock db.readings) code locked e refl)
          (unfold save_finalized in ground (arith, e)) (unfold save_finalized in ground (arith, e))
  ]

  answer-Change :
      (m : PreparedTransfer) → Change db (committed (answer_prepared_transfer m (some rt) db) db)
  unfolding answer_prepared_transfer
  answer-Change m = elim (Bool-cases (the_signal_matches_the_transfer m rt)) [
    | inl e ↦
        advanced query rt (settle m.transfer_id rt) found (settle-Advances m.transfer_id rt)
          (ground (arith, e)) (ground (arith, e))
    | inr e ↦ unchanged (ground (arith, e)) (ground (arith, e))
  ]

pub prepared-Change :
    (m : PreparedTransfer) (db : Database)
    → Change db (committed (process_prepared_issuing_transfer_signal m db) db)
unfolding process_prepared_issuing_transfer_signal
prepared-Change m db =
    go (request_row m.coordinator_id m.coordinator_request_id db.running_transfers) refl
  where
    go :
        (o : Option RunningTransfer)
        → request_row m.coordinator_id m.coordinator_request_id db.running_transfers ≡ o
        → Change db (committed (answer_prepared_transfer m o db) db)
    go none h = unchanged refl refl
    go (some rt) h =
        answer-Change db (has_request_id m.coordinator_id m.coordinator_request_id) rt
          (unfold request_row in h) m

pub cancel-Change :
    (k : ℤ) (uuid : ℕ) (db : Database)
    → Change db (committed (cancel_running_transfer k uuid db) db)
cancel-Change k uuid db = elim (Option-cases (transfer_row k uuid db.running_transfers)) [
  | inl none_found ↦
      unchanged (unfold cancel_running_transfer in ground (arith, none_found))
        (unfold cancel_running_transfer in ground (arith, none_found))
  | inr (rt, h) ↦
      let found : first (has_uuid k uuid) db.running_transfers ≡ some rt =
        unfold transfer_row in h in
      let ts = db.clock db.readings in
      elim (Bool-cases (is_settled rt)) [
        | inl settled ↦
            unchanged (unfold cancel_running_transfer in ground (arith, h, settled))
              (unfold cancel_running_transfer in ground (arith, h, settled))
        | inr unsettled ↦ elim (Bool-cases (is_finalized rt)) [
          | inl done ↦
              advanced (has_uuid k uuid) rt rt found (stays refl)
                (unfold cancel_running_transfer in ground (arith, h, unsettled, done))
                (unfold cancel_running_transfer in ground (arith, h, unsettled, done))
          | inr running ↦
              advanced (has_uuid k uuid) rt
                (record rt {
                  finalized_at = some ts;
                  error_code = some sc_canceled_by_the_sender;
                  total_locked_amount = none;
                })
                found (finalizes ts (some sc_canceled_by_the_sender) none running refl)
                (unfold cancel_running_transfer in ground (arith, h, unsettled, running))
                (unfold cancel_running_transfer in ground (arith, h, unsettled, running))
        ]
      ]
]

-- A procedure behind a test
pub either-Change :
    (b : Bool) (m m' : Procedure (Unit {0})) (db : Database)
    → Change db (committed (m db) db)
    → Change db (committed (m' db) db)
    → Change db (committed ((if b then m else m') db) db)
either-Change true m m' db h h' = h
either-Change false m m' db h h' = h'

skip-Change : (db : Database) → Change db (committed (pure (tt {0}) db) db)
skip-Change db = unchanged refl refl

pub rejected-Change :
    (m : RejectedTransfer) (db : Database)
    → Change db (committed (process_rejected_issuing_transfer_signal m db) db)
unfolding process_rejected_issuing_transfer_signal
rejected-Change m db =
    elim (Option-cases
      (request_row m.coordinator_id m.coordinator_request_id db.running_transfers)) [
        | inl none_found ↦ rw none_found (unchanged refl refl)
        | inr (rt, h) ↦
            let query = has_request_id m.coordinator_id m.coordinator_request_id in
            let found : first query db.running_transfers ≡ some rt = unfold request_row in h in
            rw h (search (either-Change, save_finalized-Change db query rt found, skip-Change))
      ]

pub finalized-Change :
    (m : FinalizedTransfer) (db : Database)
    → Change db (committed (process_finalized_issuing_transfer_signal m db) db)
unfolding process_finalized_issuing_transfer_signal
finalized-Change m db =
    elim (Option-cases
      (request_row m.coordinator_id m.coordinator_request_id db.running_transfers)) [
        | inl none_found ↦ rw none_found (unchanged refl refl)
        | inr (rt, h) ↦
            let query = has_request_id m.coordinator_id m.coordinator_request_id in
            let found : first query db.running_transfers ≡ some rt = unfold request_row in h in
            rw h (search (either-Change, save_finalized-Change db query rt found, skip-Change))
      ]
