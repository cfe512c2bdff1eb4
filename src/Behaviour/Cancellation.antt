-- ===== src/Behaviour/Cancellation.antt =====
-- `cancel_running_transfer`, and what a prepared transfer finds afterwards.
use swpt_debtors.Prelude.{
  [], ◌∷◌, ◌++◌, ℕ, ◌≡◌, ap, ◌∙◌, Bool, true, false, not, Option, none, some, option_eq, int_Eq, ℤ,
  arith, if◌then◌else◌,
}
use swpt_debtors.Models.{
  Database, RunningTransfer, is_finalized, is_settled, sc_canceled_by_the_sender,
}
use swpt_debtors.Store.{request_row, transfer_row, put_transfer}
use swpt_debtors.Store.TransferLaws.{request_row-put_self, request_row-key}
use swpt_debtors.Procedures.Monad.{
  ok, err, forbidden_transfer_cancellation, transfer_does_not_exist,
}
use swpt_debtors.Procedures.Transfers.{cancel_running_transfer}
use swpt_debtors.Procedures.Incoming.{process_prepared_issuing_transfer_signal}
use swpt_debtors.Procedures.Messages.{PreparedTransfer}
use swpt_debtors.Behaviour.Prepared.{answer, answered_with, committed_transfer}
use swpt_debtors.System.{committed}

-- A transfer that is not settled is finalized as cancelled, unless it was finalized before.
abbrev pub cancelled : RunningTransfer → ℕ → RunningTransfer
cancelled rt ts = if is_finalized rt then rt else record rt {
  finalized_at = some ts;
  error_code = some sc_canceled_by_the_sender;
  total_locked_amount = none;
}

abbrev pub exists : Option RunningTransfer → Bool
exists none = false
exists (some _) = true

abbrev pub cancelable : Option RunningTransfer → Bool
cancelable none = false
cancelable (some rt) = not (is_settled rt)

pub is_finalized-cancelled : (rt : RunningTransfer) (ts : ℕ) → is_finalized (cancelled rt ts) ≡ true
unfolding is_finalized
is_finalized-cancelled rt ts = ground arith

pub is_settled-cancelled :
    (rt : RunningTransfer) (ts : ℕ) → is_settled (cancelled rt ts) ≡ is_settled rt
unfolding is_settled
is_settled-cancelled rt ts = ground arith

-- A transfer that has taken a prepared transfer cannot be cancelled, and one that does not exist
-- cannot either.
pub cancel_refused :
    (k : ℤ) (uuid : ℕ) (db : Database)
    → cancelable (transfer_row k uuid db.running_transfers) ≡ false
    → cancel_running_transfer k uuid db
      ≡ err (
          if exists (transfer_row k uuid db.running_transfers)
          then forbidden_transfer_cancellation
          else transfer_does_not_exist)
unfolding cancel_running_transfer
cancel_refused k uuid db h = ground arith

pub cancel_unsettled :
    (k : ℤ) (uuid : ℕ) (db : Database) (rt : RunningTransfer)
    → transfer_row k uuid db.running_transfers ≡ some rt
    → is_settled rt ≡ false
    → let db' = committed (cancel_running_transfer k uuid db) db in
      (cancel_running_transfer k uuid db ≡ ok (cancelled rt (db.clock db.readings)) db')
      × (db'.running_transfers
          ≡ put_transfer (cancelled rt (db.clock db.readings)) db.running_transfers)
unfolding cancel_running_transfer
cancel_unsettled k uuid db rt h unsettled = (ground arith, ground arith)

-- A finalized transfer that has taken no prepared transfer takes none later.
pub finalized_takes_none :
    (m : PreparedTransfer) (rt : RunningTransfer)
    → is_finalized rt ≡ true
    → is_settled rt ≡ false
    → committed_transfer m (some rt) ≡ none
unfolding is_settled option_eq
finalized_takes_none m rt f s = ground arith

-- A transfer that has taken no prepared transfer is finalized by its cancellation, and the next
-- message about a prepared transfer for it is answered with a dismissal. The request identifier finds the row that the UUID
-- finds, as the unique index ensures.
pub cancel_prevents_commit :
    (m : PreparedTransfer) (uuid : ℕ) (db : Database) (rt : RunningTransfer)
    → transfer_row m.coordinator_id uuid db.running_transfers ≡ some rt
    → request_row m.coordinator_id m.coordinator_request_id db.running_transfers ≡ some rt
    → is_settled rt ≡ false
    → let rt' = cancelled rt (db.clock db.readings) in
      let r = cancel_running_transfer m.coordinator_id uuid db in
      let db' = committed r db in
      (r ≡ ok rt' db')
      × (is_finalized rt' ≡ true)
      × ((committed (process_prepared_issuing_transfer_signal m db') db').finalize_transfer_signals
          ≡ db'.finalize_transfer_signals
            ++ answer m none db'.next_signal_id (db'.clock db'.readings) ∷ [])
cancel_prevents_commit m uuid db rt h hr unsettled =
    let rt' = cancelled rt (db.clock db.readings) in
    let done = cancel_unsettled m.coordinator_id uuid db rt h unsettled in
    let key =
      request_row-key m.coordinator_id m.coordinator_request_id db.running_transfers rt hr in
    let found : request_row m.coordinator_id m.coordinator_request_id
          (put_transfer rt' db.running_transfers)
        ≡ some rt' =
      request_row-put_self m.coordinator_id m.coordinator_request_id rt rt' db.running_transfers hr
        (ground (arith, key.0)) (ground (arith, key.1)) (ground arith) in
    let final : is_finalized rt' ≡ true = is_finalized-cancelled rt (db.clock db.readings) in
    (
      done.0,
      final,
      answered_with m (committed (cancel_running_transfer m.coordinator_id uuid db) db) none (
          ap (λ ts. committed_transfer m (request_row m.coordinator_id m.coordinator_request_id ts))
            done.1
          ∙ ap (committed_transfer m) found
          ∙ finalized_takes_none m rt' final
              (is_settled-cancelled rt (db.clock db.readings) ∙ unsettled)),
    )
