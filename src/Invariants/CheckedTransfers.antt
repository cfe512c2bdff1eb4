-- ===== src/Invariants/CheckedTransfers.antt =====
-- The CHECK constraints of the table of running transfers, over all runs.
use swpt_debtors.Prelude.{
  ℕ, ◌≡◌, ◌⊎◌, refl, sym, Bool, true, false, not, ◌&&◌, Option, none, some, [], ◌∷◌, ◌++◌, String,
  ◌==◌, string_Eq, nat_Eq, int_Eq, option_Eq, ℤ, pos, ◌≤ℤ◌, inl, inr, Option-cases, Bool-cases,
  first, delete_rows, All, All-append, All-first, All-update_rows, All-delete_rows, arith,
  if◌then◌else◌,
}
use mathlib.Core.Path.{subst}
use swpt_debtors.Platform.{Timestamp}
use swpt_debtors.Models.{
  Database, RunningTransfer, TransferChecks, IsNonneg, is_active, is_finalized, is_settled,
  sc_canceled_by_the_sender,
}
use swpt_debtors.Store.{
  debtor_row, transfer_row, request_row, put_transfer, delete_transfer, has_uuid, has_request_id,
  count_uuid,
}
use swpt_debtors.Procedures.Monad.{Procedure, pure}
use swpt_debtors.Procedures.Transfers.{
  TransferData, initiate_running_transfer, cancel_running_transfer, delete_running_transfer,
  new_running_transfer,
}
use swpt_debtors.Procedures.Incoming.{
  settle, save_finalized, answer_prepared_transfer, the_signal_matches_the_transfer,
  process_rejected_issuing_transfer_signal, process_prepared_issuing_transfer_signal,
  process_finalized_issuing_transfer_signal,
}
use swpt_debtors.Procedures.Messages.{RejectedTransfer, PreparedTransfer, FinalizedTransfer}
use swpt_debtors.Procedures.Debtors.{only_active}
use swpt_debtors.System.{committed}
use swpt_debtors.Behaviour.Initiation.{
  refusal, debtor_refusal, initiate_refused, initiate_found, initiated,
}

abbrev pub CheckedTransfer : RunningTransfer → Type 0
CheckedTransfer rt =
    IsNonneg rt.total_locked_amount × ((rt.error_code ≡ none) ⊎ (is_finalized rt ≡ true))

pub CheckedTransfer-TransferChecks : (rt : RunningTransfer) → CheckedTransfer rt → TransferChecks rt
CheckedTransfer-TransferChecks rt (locked, final) = record {
  total_locked_nonneg = locked;
  error_when_finalized = final;
}

abbrev pub Sound : Database → Type 0
Sound db = All CheckedTransfer db.running_transfers

-- The rows of a database stay sound in another one.
unfoldable pub Keeps : Database → Database → Type 0
Keeps db db' = Sound db → Sound db'

pub same-Keeps : (db db' : Database) → db'.running_transfers ≡ db.running_transfers → Keeps db db'
unfolding Keeps
same-Keeps db db' e h = rw e h

pub deleted-Keeps :
    (test : RunningTransfer → Bool) (db db' : Database)
    → db'.running_transfers ≡ delete_rows test db.running_transfers
    → Keeps db db'
unfolding Keeps
deleted-Keeps test db db' e h =
    subst (All CheckedTransfer) (sym e)
      (All-delete_rows CheckedTransfer test db.running_transfers h)

pub put-Keeps :
    (query : RunningTransfer → Bool) (rt rt' : RunningTransfer) (db db' : Database)
    → first query db.running_transfers ≡ some rt
    → db'.running_transfers ≡ put_transfer rt' db.running_transfers
    → (CheckedTransfer rt → CheckedTransfer rt')
    → Keeps db db'
unfolding Keeps
put-Keeps query rt rt' db db' found e keep h = subst (All CheckedTransfer) (sym e) (
    unfold put_transfer in
    All-update_rows CheckedTransfer _ (λ _. rt') db.running_transfers h
      (λ _ _ _. keep (All-first CheckedTransfer query db.running_transfers rt h found)))

started-Keeps :
    (rt : RunningTransfer) (db db' : Database)
    → CheckedTransfer rt
    → db'.running_transfers ≡ db.running_transfers ++ rt ∷ []
    → Keeps db db'
unfolding Keeps
started-Keeps rt db db' new e h =
    subst (All CheckedTransfer) (sym e) (All-append CheckedTransfer db.running_transfers rt h new)

finished : Timestamp → Option String → Option ℤ → RunningTransfer → RunningTransfer
finished ts code locked rt = record rt {
  finalized_at = some ts;
  error_code = code;
  total_locked_amount = locked;
}

finished-CheckedTransfer :
    (ts : Timestamp) (code : Option String) (locked : Option ℤ) (rt : RunningTransfer)
    → IsNonneg locked
    → CheckedTransfer (finished ts code locked rt)
unfolding finished is_finalized
finished-CheckedTransfer ts code locked rt nonneg = (nonneg, inr refl)

settle-CheckedTransfer :
    (t : ℤ) (rt : RunningTransfer) → CheckedTransfer rt → CheckedTransfer (settle t rt)
settle-CheckedTransfer t rt h =
    elim (Bool-cases (not (is_finalized rt) && rt.transfer_id == none)) [
      | inl e ↦ unfold settle is_finalized in rw e h
      | inr e ↦ unfold settle in rw e h
    ]

module _ (db : Database) (query : RunningTransfer → Bool) (rt : RunningTransfer)
    (found : first query db.running_transfers ≡ some rt) where
  pub save_finalized-Keeps :
      (code : Option String) (locked : Option ℤ)
      → IsNonneg locked
      → Keeps db (committed (save_finalized rt code locked db) db)
  save_finalized-Keeps code locked nonneg =
      let db' = committed (save_finalized rt code locked db) db in
      let ts = db.clock db.readings in
      elim (Bool-cases (is_finalized rt)) [
        | inl e ↦
            put-Keeps query rt rt db db' found (unfold save_finalized in ground (arith, e)) (λ h. h)
        | inr e ↦
            put-Keeps query rt (finished ts code locked rt) db db' found
              (unfold save_finalized finished in ground (arith, e))
              (λ _. finished-CheckedTransfer ts code locked rt nonneg)
      ]

  answer-Keeps :
      (m : PreparedTransfer) → Keeps db (committed (answer_prepared_transfer m (some rt) db) db)
  answer-Keeps m =
      let db' = committed (answer_prepared_transfer m (some rt) db) db in
      elim (Bool-cases (the_signal_matches_the_transfer m rt)) [
        | inl e ↦
            put-Keeps query rt (settle m.transfer_id rt) db db' found
              (unfold answer_prepared_transfer in ground (arith, e))
              (settle-CheckedTransfer m.transfer_id rt)
        | inr e ↦ same-Keeps db db' (unfold answer_prepared_transfer in ground (arith, e))
      ]

pub prepared-Keeps :
    (m : PreparedTransfer) (db : Database)
    → Keeps db (committed (process_prepared_issuing_transfer_signal m db) db)
unfolding process_prepared_issuing_transfer_signal
prepared-Keeps m db =
    let query = has_request_id m.coordinator_id m.coordinator_request_id in
    elim (Option-cases
      (request_row m.coordinator_id m.coordinator_request_id db.running_transfers)) [
        | inl none_found ↦
            same-Keeps db (committed (process_prepared_issuing_transfer_signal m db) db)
              (ground (arith, none_found))
        | inr (rt, h) ↦ rw h (answer-Keeps db query rt (unfold request_row in h) m)
      ]

-- A procedure behind a test
pub either-Keeps :
    (b : Bool) (m m' : Procedure (Unit {0})) (db : Database)
    → Keeps db (committed (m db) db)
    → Keeps db (committed (m' db) db)
    → Keeps db (committed ((if b then m else m') db) db)
unfolding Keeps
either-Keeps true m m' db h h' = h
either-Keeps false m m' db h h' = h'

pub skip-Keeps : (db : Database) → Keeps db (committed (pure (tt {0}) db) db)
unfolding Keeps
skip-Keeps db = λ h. h

pub rejected-Keeps :
    (m : RejectedTransfer) (db : Database)
    → pos 0 ≤ℤ m.total_locked_amount
    → Keeps db (committed (process_rejected_issuing_transfer_signal m db) db)
unfolding process_rejected_issuing_transfer_signal
rejected-Keeps m db nonneg =
    elim (Option-cases
      (request_row m.coordinator_id m.coordinator_request_id db.running_transfers)) [
        | inl none_found ↦ rw none_found (skip-Keeps db)
        | inr (rt, h) ↦
            let query = has_request_id m.coordinator_id m.coordinator_request_id in
            let save = save_finalized-Keeps db query rt (unfold request_row in h) in
            let quiet = λ (code : Option String). save code none tt in
            let told = save (some m.status_code) (some m.total_locked_amount) nonneg in
            rw h (search (either-Keeps, quiet, told, skip-Keeps))
      ]

pub finalized-Keeps :
    (m : FinalizedTransfer) (db : Database)
    → pos 0 ≤ℤ m.total_locked_amount
    → Keeps db (committed (process_finalized_issuing_transfer_signal m db) db)
unfolding process_finalized_issuing_transfer_signal
finalized-Keeps m db nonneg =
    elim (Option-cases
      (request_row m.coordinator_id m.coordinator_request_id db.running_transfers)) [
        | inl none_found ↦ rw none_found (skip-Keeps db)
        | inr (rt, h) ↦
            let query = has_request_id m.coordinator_id m.coordinator_request_id in
            let save = save_finalized-Keeps db query rt (unfold request_row in h) in
            let quiet = λ (code : Option String). save code none tt in
            let told = save (some m.status_code) (some m.total_locked_amount) nonneg in
            rw h (search (either-Keeps, quiet, told, skip-Keeps))
      ]

pub cancel-Keeps :
    (k : ℤ) (uuid : ℕ) (db : Database) → Keeps db (committed (cancel_running_transfer k uuid db) db)
cancel-Keeps k uuid db =
    let db' = committed (cancel_running_transfer k uuid db) db in
    let ts = db.clock db.readings in
    elim (Option-cases (transfer_row k uuid db.running_transfers)) [
      | inl none_found ↦
          same-Keeps db db' (unfold cancel_running_transfer in ground (arith, none_found))
      | inr (rt, h) ↦
          let found : first (has_uuid k uuid) db.running_transfers ≡ some rt =
            unfold transfer_row in h in
          elim (Bool-cases (is_settled rt)) [
            | inl settled ↦
                same-Keeps db db' (unfold cancel_running_transfer in ground (arith, h, settled))
            | inr open_rt ↦ elim (Bool-cases (is_finalized rt)) [
              | inl done ↦
                  put-Keeps (has_uuid k uuid) rt rt db db' found
                    (unfold cancel_running_transfer in ground (arith, h, open_rt, done)) (λ c. c)
              | inr running ↦
                  let code = some sc_canceled_by_the_sender in
                  put-Keeps (has_uuid k uuid) rt (finished ts code none rt) db db' found
                    (unfold cancel_running_transfer finished in ground (arith, h, open_rt, running))
                    (λ _. finished-CheckedTransfer ts code none rt tt)
            ]
          ]
    ]

pub delete-Keeps :
    (k : ℤ) (uuid : ℕ) (db : Database) → Keeps db (committed (delete_running_transfer k uuid db) db)
delete-Keeps k uuid db =
    let db' = committed (delete_running_transfer k uuid db) db in
    elim (Bool-cases (count_uuid k uuid db.running_transfers == 1)) [
      | inl one ↦
          deleted-Keeps (has_uuid k uuid) db db'
            (unfold delete_running_transfer delete_transfer in ground (arith, one))
      | inr other ↦ same-Keeps db db' (unfold delete_running_transfer in ground (arith, other))
    ]

initiated-CheckedTransfer :
    (k : ℤ) (uuid : ℕ) (t : TransferData) (db : Database) → CheckedTransfer (initiated k uuid t db)
unfolding new_running_transfer
initiated-CheckedTransfer k uuid t db = (tt, inl refl)

pub initiate-Keeps :
    (k : ℤ) (uuid : ℕ) (t : TransferData) (limit : ℕ) (db : Database)
    → Keeps db (committed (initiate_running_transfer k uuid t limit db) db)
initiate-Keeps k uuid t limit db =
    let now = db.clock db.readings in
    let running = transfer_row k uuid db.running_transfers in
    elim (Option-cases (refusal running (only_active (debtor_row k db.debtors)) t limit now)) [
      | inr (e, refused) ↦ rw (initiate_refused k uuid t limit db e refused) (same-Keeps db db refl)
      | inl fits ↦ elim (Option-cases (debtor_row k db.debtors)) [
        | inl vacant ↦ absurd (ground (arith, fits, vacant))
        | inr (d, row) ↦
            let free : running ≡ none = ground (arith, fits) in
            let active : is_active d ≡ true = ground (arith, fits, row) in
            let within : debtor_refusal (some d) limit now ≡ none = ground (arith, fits, row) in
            started-Keeps (initiated k uuid t db) db
              (committed (initiate_running_transfer k uuid t limit db) db)
              (initiated-CheckedTransfer k uuid t db)
              (initiate_found k uuid t limit d db free row active within).1
      ]
    ]
