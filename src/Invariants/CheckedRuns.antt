-- ===== src/Invariants/CheckedRuns.antt =====
-- The CHECK constraints of the table of debtors over all runs.
use swpt_debtors.Prelude.{
  ℕ, ◌+◌, ◌≡◌, sym, Bool, true, false, not, Option, none, some, List, [], ◌∷◌, String, ◌==◌,
  string_Eq, nat_Eq, int_Eq, ℤ, pos, ◌≤ℤ◌, inl, inr, Option-cases, Bool-cases, select_rows, All,
  All-imp, All-append, All-update_rows, All-delete_rows, arith, if◌then◌else◌,
}
use mathlib.Core.Path.{subst}
use swpt_debtors.Platform.{Platform, Timestamp}
use swpt_debtors.Settings.{Settings}
use swpt_debtors.Models.{
  Database, Debtor, DebtorChecks, is_active, is_activated, is_deactivated, ct_issuing,
}
use swpt_debtors.Store.{debtor_row, remove_debtor, uncount_transfer, transfer_row, count_uuid}
use swpt_debtors.Procedures.Monad.{Procedure, pure}
use swpt_debtors.Procedures.Debtors.{
  reserve_debtor, activate_debtor, deactivate_debtor, get_active_debtor, only_active,
}
use swpt_debtors.Procedures.Transfers.{
  TransferData, initiate_running_transfer, delete_running_transfer,
}
use swpt_debtors.Procedures.Incoming.{
  process_prepared_issuing_transfer_signal, process_rejected_issuing_transfer_signal,
  process_finalized_issuing_transfer_signal, process_rejected_config_signal,
  process_account_purge_signal,
}
use swpt_debtors.Procedures.AccountUpdate.{process_account_update_signal}
use swpt_debtors.Actors.{
  Message, actor, on_activate_debtor_signal, rejected_config, account_update, account_purge,
  prepared_transfer, rejected_transfer, finalized_transfer, activate_debtor_message,
}
use swpt_debtors.Scanner.{
  select_chosen, debtor_ids, belongs_to_parent_shard, not_activated_for_long_time,
  delete_parent_shard_debtors, delete_debtors_not_activated_for_long_time,
  set_config_errors_if_necessary, delete_all, delete_debtor,
}
use swpt_debtors.Procedures.Flush.{violates_key}
use swpt_debtors.System.{
  committed, Event, reserve, activate, deactivate, restrict, update_config, initiate, cancel,
  delete, save, message, scan_parent_shard, scan_inactive, scan_config, flush, step, run, empty,
}
use swpt_debtors.Behaviour.Activation.{reserved, reserve_found, reserve_taken}
use swpt_debtors.Behaviour.Deactivation.{deactivated, deactivate_found, deactivate_again}
use swpt_debtors.Behaviour.Initiation.{
  charged, debtor_refusal, refusal, initiate_refused, initiate_found,
}
use swpt_debtors.Invariants.Outcomes.{Edits, restricted, restrict-Edits}
use swpt_debtors.Invariants.Rows.{
  rejected, rejected_config-Edits, purged, purge-Edits, activated_by, activate-Edits, configured,
  update_config-Edits, with_document, save_document-Edits, updated, account_update-Edits,
}
use swpt_debtors.Invariants.Written.{
  cancel-Written, prepared-Written, rejected-Written, finalized-Written,
}
use swpt_debtors.Invariants.Steps.{found_active}
use swpt_debtors.Invariants.Runs.{ignored-committed}
use swpt_debtors.Invariants.Checked.{
  Checked, CheckedIf, Checked-DebtorChecks, put-Checked, found-Checked, edit-Checked,
  charged-Checked, recounted-Checked, restricted-Checked, rejected-Checked, purged-Checked,
  with_document-Checked, configured-Checked, updated-Checked, activated_by-Checked,
  deactivated-Checked, reserved-Checked,
}

abbrev config_not_effectual : String
config_not_effectual = "CONFIGURATION_IS_NOT_EFFECTUAL"

failing-Checked :
    (d : Debtor) → Checked d → Checked (record d { config_error = some config_not_effectual })
unfolding is_activated is_deactivated
failing-Checked d h = h

-- What the schemas of the requests and of the messages let through: a debtor is restricted to a
-- balance that is not positive, and the reported locked amounts are not negative.
unfoldable pub IsAdmissible : Event → Type 0
IsAdmissible (restrict _ min_balance) = min_balance ≤ℤ pos 0
IsAdmissible (message (rejected_transfer m)) = pos 0 ≤ℤ m.total_locked_amount
IsAdmissible (message (finalized_transfer m)) = pos 0 ≤ℤ m.total_locked_amount
IsAdmissible (flush _ e) = IsAdmissible e
IsAdmissible _ = Unit

abbrev Passes : Database → Type 0
Passes db = All Checked db.debtors

same-Passes : (db db' : Database) → db'.debtors ≡ db.debtors → Passes db → Passes db'
same-Passes db db' e h = rw e h

Edits-Passes :
    (k : ℤ) (f : Debtor → Option Debtor) (db db' : Database)
    → Edits k f db db'
    → ((d : Debtor) → Checked d → CheckedIf (f d))
    → Passes db
    → Passes db'
Edits-Passes k f db db' (rows, _) keep h =
    subst (All Checked) (sym rows) (edit-Checked k f db.debtors keep h)

initiate-Passes :
    (k : ℤ) (uuid : ℕ) (t : TransferData) (limit : ℕ) (db : Database)
    → Passes db
    → Passes (committed (initiate_running_transfer k uuid t limit db) db)
initiate-Passes k uuid t limit db h =
    let now = db.clock db.readings in
    let running = transfer_row k uuid db.running_transfers in
    elim (Option-cases (refusal running (only_active (debtor_row k db.debtors)) t limit now)) [
      | inr (e, refused) ↦ rw (initiate_refused k uuid t limit db e refused) h
      | inl fits ↦ elim (Option-cases (debtor_row k db.debtors)) [
        | inl vacant ↦ absurd (ground (arith, fits, vacant))
        | inr (d, row) ↦
            let free : running ≡ none = ground (arith, fits) in
            let active : is_active d ≡ true = ground (arith, fits, row) in
            let within : debtor_refusal (some d) limit now ≡ none = ground (arith, fits, row) in
            subst (All Checked) (sym (initiate_found k uuid t limit d db free row active within).2)
              (put-Checked (charged now d) db.debtors
                (charged-Checked now d (found-Checked k d db.debtors row h)) h)
      ]
    ]

delete-Passes :
    (k : ℤ) (uuid : ℕ) (db : Database)
    → Passes db
    → Passes (committed (delete_running_transfer k uuid db) db)
delete-Passes k uuid db h =
    let db' = committed (delete_running_transfer k uuid db) db in
    elim (Bool-cases (count_uuid k uuid db.running_transfers == 1)) [
      | inl one ↦
          let rows : db'.debtors ≡ uncount_transfer k db.debtors =
            unfold delete_running_transfer in ground (arith, one) in
          subst (All Checked) (sym rows) (
            unfold uncount_transfer in
            All-update_rows Checked _ _ db.debtors h (λ d _. recounted-Checked _ d))
      | inr other ↦ same-Passes db db' (unfold delete_running_transfer in ground (arith, other)) h
    ]

delete_all-Passes : (pks : List ℤ) (db : Database) → Passes db → Passes (delete_all pks db)
unfolding delete_all
delete_all-Passes [] db h = h
delete_all-Passes (j ∷ js) db h =
    delete_all-Passes js (delete_debtor j db)
      (unfold delete_debtor remove_debtor in All-delete_rows Checked _ db.debtors h)

either-Passes :
    (b : Bool) (handler : Procedure (Unit {0})) (db : Database)
    → Passes db
    → Passes (committed (handler db) db)
    → Passes (committed ((if b then pure tt else handler) db) db)
either-Passes true handler db h done = h
either-Passes false handler db h done = done

module _ ⦃p : Platform⦄ where
  reserve-Passes : (k : ℤ) (db : Database) → Passes db → Passes (committed (reserve_debtor k db) db)
  reserve-Passes k db h = elim (Option-cases (debtor_row k db.debtors)) [
    | inl free ↦
        subst (All Checked) (sym (reserve_found k db free).1)
          (All-append Checked db.debtors (reserved k db) h (reserved-Checked k db))
    | inr (d, row) ↦ rw (reserve_taken k d db row) h
  ]

  deactivate-Passes :
      (k : ℤ) (db : Database) → Passes db → Passes (committed (deactivate_debtor k db) db)
  deactivate-Passes k db h = elim (Option-cases (get_active_debtor k db)) [
    | inl idle ↦ rw (deactivate_again k db idle) h
    | inr (d, found) ↦
        let active = found_active k d db found in
        let ts = db.clock db.readings in
        let config_ts = db.clock (db.readings + 1) in
        subst (All Checked) (sym (deactivate_found k d db active.0 active.1).0) (
          put-Checked (deactivated ts config_ts d) db.debtors
            (deactivated-Checked ts config_ts d active.1 (found-Checked k d db.debtors active.0 h))
            h)
  ]

  activate-Passes :
      (k : ℤ) (reservation_id : String) (db : Database)
      → Passes db
      → Passes (committed (activate_debtor k reservation_id db) db)
  activate-Passes k reservation_id db h =
      let now = db.clock db.readings in
      Edits-Passes k (activated_by reservation_id now) db
        (committed (activate_debtor k reservation_id db) db) (activate-Edits k reservation_id db)
        (activated_by-Checked reservation_id now) h

  message-Passes : (m : Message) (db : Database) → Passes db → Passes (committed (actor m db) db)
  unfolding actor on_activate_debtor_signal
  message-Passes (rejected_config m) db h =
      Edits-Passes m.debtor_id (rejected m) db (committed (process_rejected_config_signal m db) db)
        (rejected_config-Edits m db) (rejected-Checked m) h
  message-Passes (account_update m) db h =
      let now = db.clock db.readings in
      Edits-Passes m.debtor_id (updated m now) db
        (committed (process_account_update_signal m db) db) (account_update-Edits m db)
        (updated-Checked m now) h
  message-Passes (account_purge m) db h =
      Edits-Passes m.debtor_id (purged m) db (committed (process_account_purge_signal m db) db)
        (purge-Edits m db) (purged-Checked m) h
  message-Passes (prepared_transfer m) db h =
      let handler = process_prepared_issuing_transfer_signal m in
      either-Passes (not (m.coordinator_type == ct_issuing)) handler db h
        (same-Passes db (committed (handler db) db) (prepared-Written m db).0 h)
  message-Passes (rejected_transfer m) db h =
      let handler = process_rejected_issuing_transfer_signal m in
      either-Passes (not (m.coordinator_type == ct_issuing)) handler db h
        (same-Passes db (committed (handler db) db) (rejected-Written m db).0 h)
  message-Passes (finalized_transfer m) db h =
      let handler = process_finalized_issuing_transfer_signal m in
      either-Passes (not (m.coordinator_type == ct_issuing)) handler db h
        (same-Passes db (committed (handler db) db) (finalized-Written m db).0 h)
  message-Passes (activate_debtor_message k reservation_id) db h =
      subst Passes (sym (ignored-committed (activate_debtor k reservation_id db) db))
        (activate-Passes k reservation_id db h)

  module _ (s : Settings) where
    step-Passes : (e : Event) (db : Database) → IsAdmissible e → Passes db → Passes (step s e db)
    unfolding IsAdmissible step delete_parent_shard_debtors
        delete_debtors_not_activated_for_long_time set_config_errors_if_necessary
    step-Passes (reserve k) db r h = reserve-Passes k db h
    step-Passes (activate k reservation_id) db r h = activate-Passes k reservation_id db h
    step-Passes (deactivate k) db r h = deactivate-Passes k db h
    step-Passes (restrict k min_balance) db r h =
        let now = db.clock db.readings in
        Edits-Passes k (restricted min_balance now) db (step s (restrict k min_balance) db)
          (restrict-Edits k min_balance db) (λ d. restricted-Checked min_balance now d r) h
    step-Passes (update_config k config_data latest limit) db r h =
        let now = db.clock db.readings in
        let later = db.clock (db.readings + 1) in
        Edits-Passes k (configured config_data latest limit now later) db
          (step s (update_config k config_data latest limit) db)
          (update_config-Edits k config_data latest limit db)
          (configured-Checked config_data latest limit now later) h
    step-Passes (initiate k uuid t limit) db r h = initiate-Passes k uuid t limit db h
    step-Passes (cancel k uuid) db r h =
        same-Passes db (step s (cancel k uuid) db) (cancel-Written k uuid db).0 h
    step-Passes (delete k uuid) db r h = delete-Passes k uuid db h
    step-Passes (save k content_type content limit) db r h =
        let now = db.clock db.readings in
        Edits-Passes k (with_document limit now) db (step s (save k content_type content limit) db)
          (save_document-Edits k content_type content limit db) (with_document-Checked limit now) h
    step-Passes (message m) db r h = message-Passes m db h
    step-Passes (scan_parent_shard unlocked rows) db r h =
        delete_all-Passes
          (select_chosen unlocked (debtor_ids (select_rows (belongs_to_parent_shard s) rows))
            (λ _. true) db)
          db h
    step-Passes (scan_inactive unlocked rows current_ts) db r h =
        let test = not_activated_for_long_time s current_ts in
        delete_all-Passes (select_chosen unlocked (debtor_ids (select_rows test rows)) test db) db h
    step-Passes (scan_config unlocked rows current_ts) db r h =
        All-update_rows Checked _ (λ d. record d { config_error = some config_not_effectual })
          db.debtors h (λ d _. failing-Checked d)
    step-Passes (flush present e) db r h =
        elim (Bool-cases (violates_key present db (step s e db))) [
          | inl taken ↦ rw taken h
          | inr free ↦ rw free (step-Passes e db r h)
        ]

    run-Passes :
        (es : List Event) (db : Database) → All IsAdmissible es → Passes db → Passes (run s es db)
    unfolding run
    run-Passes [] db r h = h
    run-Passes (e ∷ es) db r h = run-Passes es (step s e db) r.1 (step-Passes e db r.0 h)

    pub run-DebtorChecks :
        (es : List Event) (clock : ℕ → Timestamp)
        → All IsAdmissible es
        → All DebtorChecks (run s es (empty clock)).debtors
    run-DebtorChecks es clock r =
        All-imp Checked DebtorChecks (run s es (empty clock)).debtors
          (run-Passes es (empty clock) r tt) Checked-DebtorChecks
