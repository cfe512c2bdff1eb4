-- ===== src/Behaviour/Prepared.antt =====
-- The answers to prepared transfers: `process_prepared_issuing_transfer_signal`, and how it meets
-- `cancel_running_transfer`.
use swpt_debtors.Prelude.{
  ℕ, ◌≡◌, refl, ap, ◌∙◌, Bool, true, false, not, ◌&&◌, ◌||◌, Option, none, some, [], ◌∷◌, ◌++◌,
  ◌==◌, int_Eq, int_eq_iff, option_Eq, option_eq_iff, option_eq, ℤ, inl, inr, Option-cases, arith,
  if◌then◌else◌,
}
use swpt_debtors.Platform.{Timestamp}
use swpt_debtors.Models.{
  Database, RunningTransfer, FinalizeTransferSignal, is_finalized, root_creditor_id,
}
use swpt_debtors.Store.{request_row, put_transfer}
use swpt_debtors.Store.TransferLaws.{request_row-put_self, request_row-key}
use swpt_debtors.Procedures.Monad.{Result, ok, err}
use swpt_debtors.Procedures.Incoming.{
  the_signal_matches_the_transfer, settle, answer_prepared_transfer,
  process_prepared_issuing_transfer_signal,
}
use swpt_debtors.Procedures.Messages.{PreparedTransfer}
use swpt_debtors.System.{committed}

abbrev pub is_ok : {A : Type 0} → Result A → Bool
is_ok (ok _ _) = true
is_ok (err _) = false

-- Whether a prepared transfer is to be committed: it is the one that the running transfer has
-- taken, or the running transfer is still open and has taken none.
abbrev pub may_commit : PreparedTransfer → RunningTransfer → Bool
may_commit m rt =
    the_signal_matches_the_transfer m rt
    && (rt.transfer_id == some m.transfer_id || (not (is_finalized rt) && rt.transfer_id == none))

abbrev pub committed_transfer : PreparedTransfer → Option RunningTransfer → Option RunningTransfer
committed_transfer m none = none
committed_transfer m (some rt) = if may_commit m rt then some rt else none

-- The answer to a prepared transfer: the whole amount of the transfer, or nothing.
abbrev pub answer :
    PreparedTransfer → Option RunningTransfer → ℕ → Timestamp → FinalizeTransferSignal
answer m none signal_id inserted_at = record {
  debtor_id = m.debtor_id;
  signal_id = signal_id;
  creditor_id = m.creditor_id;
  coordinator_id = m.coordinator_id;
  coordinator_request_id = m.coordinator_request_id;
  transfer_id = m.transfer_id;
  transfer_note_format = "";
  transfer_note = "";
  committed_amount = 0;
  inserted_at = inserted_at;
}
answer m (some rt) signal_id inserted_at = record {
  debtor_id = rt.debtor_id;
  signal_id = signal_id;
  creditor_id = root_creditor_id;
  coordinator_id = m.coordinator_id;
  coordinator_request_id = m.coordinator_request_id;
  transfer_id = m.transfer_id;
  transfer_note_format = rt.transfer_note_format;
  transfer_note = rt.transfer_note;
  committed_amount = rt.amount;
  inserted_at = inserted_at;
}

answer_prepared_transfer_lem :
    (m : PreparedTransfer) (found : Option RunningTransfer) (db : Database)
    → (is_ok (answer_prepared_transfer m found db) ≡ true)
      × ((committed (answer_prepared_transfer m found db) db).finalize_transfer_signals
          ≡ db.finalize_transfer_signals
            ++ answer m (committed_transfer m found) db.next_signal_id (db.clock db.readings) ∷ [])
unfolding answer_prepared_transfer settle option_eq
answer_prepared_transfer_lem m none db = (refl, refl)
answer_prepared_transfer_lem m (some rt) db = (
  ground (arith, int_eq_iff m.transfer_id m.transfer_id),
  ground (arith, int_eq_iff m.transfer_id m.transfer_id),
)

-- Every prepared transfer is answered by exactly one signal, which commits the whole amount of the
-- running transfer that it belongs to if that may be committed, and dismisses it otherwise.
pub prepared_answered :
    (m : PreparedTransfer) (db : Database)
    → (is_ok (process_prepared_issuing_transfer_signal m db) ≡ true)
      × ((committed (process_prepared_issuing_transfer_signal m db) db).finalize_transfer_signals
          ≡ db.finalize_transfer_signals
            ++ answer m
                (committed_transfer m
                  (request_row m.coordinator_id m.coordinator_request_id db.running_transfers))
                db.next_signal_id
                (db.clock db.readings)
              ∷ [])
unfolding process_prepared_issuing_transfer_signal
prepared_answered m db =
    answer_prepared_transfer_lem m
      (request_row m.coordinator_id m.coordinator_request_id db.running_transfers) db

settle_commit :
    (m : PreparedTransfer) (rt : RunningTransfer)
    → may_commit m rt ≡ true
    → settle m.transfer_id rt ≡ record rt { transfer_id = some m.transfer_id }
unfolding settle
settle_commit m rt may = elim (Option-cases rt.transfer_id) [
  | inl untaken ↦
      ground (
        arith,
        option_eq_iff rt.transfer_id (some m.transfer_id),
        option_eq_iff rt.transfer_id none,
      )
  | inr (t, taken) ↦
      ground (
        arith,
        option_eq_iff rt.transfer_id (some m.transfer_id),
        option_eq_iff rt.transfer_id none,
      )
]

rows_after_answer :
    (m : PreparedTransfer) (rt : RunningTransfer) (db : Database)
    → the_signal_matches_the_transfer m rt ≡ true
    → (committed (answer_prepared_transfer m (some rt) db) db).running_transfers
      ≡ put_transfer (settle m.transfer_id rt) db.running_transfers
unfolding answer_prepared_transfer
rows_after_answer m rt db matches = ground arith

-- The row after a prepared transfer that is committed: it has taken its identifier.
pub row_after_commit :
    (m : PreparedTransfer) (rt : RunningTransfer) (db : Database)
    → request_row m.coordinator_id m.coordinator_request_id db.running_transfers ≡ some rt
    → may_commit m rt ≡ true
    → request_row m.coordinator_id m.coordinator_request_id
        (committed (process_prepared_issuing_transfer_signal m db) db).running_transfers
      ≡ some (record rt { transfer_id = some m.transfer_id })
unfolding process_prepared_issuing_transfer_signal
row_after_commit m rt db h may =
    rw (h, rows_after_answer m rt db (ground arith), settle_commit m rt may)
      (request_row-put_self m.coordinator_id m.coordinator_request_id rt
        (record rt { transfer_id = some m.transfer_id }) db.running_transfers h
        (request_row-key m.coordinator_id m.coordinator_request_id db.running_transfers rt h).0
        (request_row-key m.coordinator_id m.coordinator_request_id db.running_transfers rt h).1
        refl)

may_commit_again :
    (m' : PreparedTransfer) (rt : RunningTransfer) (t : ℤ)
    → the_signal_matches_the_transfer m' rt ≡ true
    → committed_transfer m' (some (record rt { transfer_id = some t }))
      ≡ (if m'.transfer_id == t then some (record rt { transfer_id = some t }) else none)
unfolding the_signal_matches_the_transfer option_eq
may_commit_again m' rt t matches =
    ground (arith, matches, int_eq_iff t m'.transfer_id, int_eq_iff m'.transfer_id t)

-- The answer, where it is known whether a transfer is committed.
pub answered_with :
    (m : PreparedTransfer) (db : Database) (o : Option RunningTransfer)
    → committed_transfer m
        (request_row m.coordinator_id m.coordinator_request_id db.running_transfers)
      ≡ o
    → (committed (process_prepared_issuing_transfer_signal m db) db).finalize_transfer_signals
      ≡ db.finalize_transfer_signals ++ answer m o db.next_signal_id (db.clock db.readings) ∷ []
answered_with m db o e =
    (prepared_answered m db).1
    ∙ ap
        (λ x.
          db.finalize_transfer_signals ++ answer m x db.next_signal_id (db.clock db.readings) ∷ [])
        e

-- A prepared transfer that may be committed is committed by the answer to it. The answer to the next
-- message that matches the same running transfer commits it again if it is the same prepared
-- transfer, and dismisses any other.
pub commit_is_exclusive :
    (m m' : PreparedTransfer) (rt : RunningTransfer) (db : Database)
    → request_row m.coordinator_id m.coordinator_request_id db.running_transfers ≡ some rt
    → may_commit m rt ≡ true
    → m'.coordinator_id ≡ m.coordinator_id
    → m'.coordinator_request_id ≡ m.coordinator_request_id
    → the_signal_matches_the_transfer m' rt ≡ true
    → let db' = committed (process_prepared_issuing_transfer_signal m db) db in
      let db'' = committed (process_prepared_issuing_transfer_signal m' db') db' in
      let taken = record rt { transfer_id = some m.transfer_id } in
      (db'.finalize_transfer_signals
        ≡ db.finalize_transfer_signals
          ++ answer m (some rt) db.next_signal_id (db.clock db.readings) ∷ [])
      × (db''.finalize_transfer_signals
          ≡ db'.finalize_transfer_signals
            ++ answer m'
                (if m'.transfer_id == m.transfer_id then some taken else none)
                db'.next_signal_id
                (db'.clock db'.readings)
              ∷ [])
commit_is_exclusive m m' rt db h may ec er matches =
    let db' = committed (process_prepared_issuing_transfer_signal m db) db in
    let found : request_row m'.coordinator_id m'.coordinator_request_id db'.running_transfers
        ≡ some (record rt { transfer_id = some m.transfer_id }) =
      cc (ec, er, row_after_commit m rt db h may) in
    let first : committed_transfer m (some rt) ≡ some rt = rw may refl in
    (
      answered_with m db (some rt) (ap (committed_transfer m) h ∙ first),
      answered_with m' db'
          (if m'.transfer_id == m.transfer_id
            then some (record rt { transfer_id = some m.transfer_id })
            else none)
          (ap (committed_transfer m') found ∙ may_commit_again m' rt m.transfer_id matches),
    )
