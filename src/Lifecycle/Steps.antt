-- ===== src/Lifecycle/Steps.antt =====
-- Every transaction makes a change of the abstract machine.
use swpt_debtors.Prelude.{
  ℕ, ◌+◌, ◌≡◌, refl, sym, ◌∙◌, true, not, none, some, List, [], ◌∷◌, String, ◌==◌, string_Eq,
  nat_Eq, int_Eq, ℤ, inl, inr, Bool-cases, Option-cases, arith, select_rows, delete_rows,
}
use swpt_debtors.Prelude.UniqueRows.{delete-twice, delete-none}
use swpt_debtors.Platform.{Platform}
use swpt_debtors.Settings.{Settings}
use swpt_debtors.Models.{Database, is_active, is_finalized, ct_issuing}
use swpt_debtors.Store.{
  debtor_row, transfer_row, count_uuid, belongs_to, has_uuid, delete_transfers_of, delete_transfer,
}
use swpt_debtors.Procedures.Monad.{pure}
use swpt_debtors.Procedures.Debtors.{
  reserve_debtor, activate_debtor, deactivate_debtor, restrict_debtor, get_active_debtor,
  only_active,
}
use swpt_debtors.Procedures.Config.{update_debtor_config}
use swpt_debtors.Procedures.Documents.{save_document}
use swpt_debtors.Procedures.Transfers.{
  TransferData, initiate_running_transfer, delete_running_transfer, new_running_transfer,
}
use swpt_debtors.Procedures.Incoming.{
  process_rejected_config_signal, process_account_purge_signal,
  process_prepared_issuing_transfer_signal, process_rejected_issuing_transfer_signal,
  process_finalized_issuing_transfer_signal,
}
use swpt_debtors.Procedures.AccountUpdate.{process_account_update_signal, update_account}
use swpt_debtors.Actors.{
  Message, actor, on_activate_debtor_signal, rejected_config, account_update, account_purge,
  prepared_transfer, rejected_transfer, finalized_transfer, activate_debtor_message,
}
use swpt_debtors.Scanner.{
  contains, delete_all, delete_debtor, select_chosen, debtor_ids, belongs_to_parent_shard,
  not_activated_for_long_time, delete_parent_shard_debtors,
  delete_debtors_not_activated_for_long_time, set_config_errors_if_necessary,
}
use swpt_debtors.Procedures.Flush.{violates_key}
use swpt_debtors.System.{
  committed, Event, reserve, activate, deactivate, restrict, update_config, initiate, cancel,
  delete, save, message, scan_parent_shard, scan_inactive, scan_config, flush, step,
}
use mathlib.Core.Path.{subst}
use swpt_debtors.Behaviour.Deactivation.{deactivate_found, deactivated}
use swpt_debtors.Invariants.Runs.{ignored-committed}
use swpt_debtors.Behaviour.Initiation.{
  refusal, debtor_refusal, initiate_refused, initiate_found, initiated, fields_of_initiated,
}
use swpt_debtors.Invariants.Outcomes.{restrict-Edits}
use swpt_debtors.Invariants.Rows.{
  rejected_config-Edits, purge-Edits, activate-Edits, update_config-Edits, save_document-Edits,
  account_update-Edits,
}
use swpt_debtors.Invariants.Steps.{found_active}
use swpt_debtors.Lifecycle.Changes.{IsOpen, Change, unchanged, started, deleted}
use swpt_debtors.Lifecycle.Advances.{
  either-Change, cancel-Change, prepared-Change, rejected-Change, finalized-Change,
}

initiated-IsOpen :
    (k : ℤ) (uuid : ℕ) (t : TransferData) (db : Database) → IsOpen (initiated k uuid t db)
unfolding new_running_transfer is_finalized
initiated-IsOpen k uuid t db = (refl, refl, refl)

pub initiate-Change :
    (k : ℤ) (uuid : ℕ) (t : TransferData) (limit : ℕ) (db : Database)
    → Change db (committed (initiate_running_transfer k uuid t limit db) db)
initiate-Change k uuid t limit db =
    let now = db.clock db.readings in
    let running = transfer_row k uuid db.running_transfers in
    elim (Option-cases (refusal running (only_active (debtor_row k db.debtors)) t limit now)) [
      | inr (e, refused) ↦ rw (initiate_refused k uuid t limit db e refused) (unchanged refl refl)
      | inl fits ↦ elim (Option-cases (debtor_row k db.debtors)) [
        | inl vacant ↦ absurd (ground (arith, fits, vacant))
        | inr (d, row) ↦
            let free : running ≡ none = ground (arith, fits) in
            let active : is_active d ≡ true = ground (arith, fits, row) in
            let within : debtor_refusal (some d) limit now ≡ none = ground (arith, fits, row) in
            let rt = initiated k uuid t db in
            let done = initiate_found k uuid t limit d db free row active within in
            let key = fields_of_initiated k uuid t db in
            started rt (initiated-IsOpen k uuid t db) (rw (key.0, key.1) free)
              (unfold new_running_transfer in refl) done.1 done.4
      ]
    ]

pub delete-Change :
    (k : ℤ) (uuid : ℕ) (db : Database)
    → Change db (committed (delete_running_transfer k uuid db) db)
delete-Change k uuid db = elim (Bool-cases (count_uuid k uuid db.running_transfers == 1)) [
  | inl one ↦
      deleted (has_uuid k uuid)
        (unfold delete_running_transfer delete_transfer in ground (arith, one))
        (unfold delete_running_transfer in ground (arith, one))
  | inr other ↦
      unchanged (unfold delete_running_transfer in ground (arith, other))
        (unfold delete_running_transfer in ground (arith, other))
]

reserve-Change : (k : ℤ) (db : Database) → Change db (committed (reserve_debtor k db) db)
unfolding reserve_debtor
reserve-Change k db = unchanged (ground arith) (ground arith)

pub delete_all_rows :
    (pks : List ℤ) (db : Database)
    → ((delete_all pks db).running_transfers
        ≡ delete_rows (λ rt. contains rt.debtor_id pks) db.running_transfers)
      × ((delete_all pks db).next_coordinator_request_id ≡ db.next_coordinator_request_id)
unfolding delete_all contains delete_debtor delete_transfers_of
delete_all_rows [] db = (sym (delete-none db.running_transfers), refl)
delete_all_rows (j ∷ js) db =
    let later = delete_all_rows js (delete_debtor j db) in
    (
      later.0 ∙ delete-twice (λ rt. contains rt.debtor_id js) (belongs_to j) db.running_transfers,
      later.1,
    )

module _ ⦃p : Platform⦄ where
  deactivate-Change : (k : ℤ) (db : Database) → Change db (committed (deactivate_debtor k db) db)
  deactivate-Change k db = elim (Option-cases (get_active_debtor k db)) [
    | inl idle ↦
        unchanged (unfold deactivate_debtor in ground (arith, idle))
          (unfold deactivate_debtor in ground (arith, idle))
    | inr (d, found) ↦
        let active = found_active k d db found in
        let d' = deactivated (db.clock db.readings) (db.clock (db.readings + 1)) d in
        let done = deactivate_found k d db active.0 active.1 in
        deleted (belongs_to d'.debtor_id) (unfold delete_transfers_of in done.1)
          (unfold deactivate_debtor in ground (arith, active.0, active.1))
  ]

  activate-Change :
      (k : ℤ) (reservation_id : String) (db : Database)
      → Change db (committed (activate_debtor k reservation_id db) db)
  activate-Change k reservation_id db =
      unchanged (activate-Edits k reservation_id db).1 (unfold activate_debtor in ground arith)

  message-Change : (m : Message) (db : Database) → Change db (committed (actor m db) db)
  unfolding actor on_activate_debtor_signal
  message-Change (rejected_config m) db =
      unchanged (rejected_config-Edits m db).1
        (unfold process_rejected_config_signal in ground arith)
  message-Change (account_update m) db =
      unchanged (account_update-Edits m db).1
        (unfold process_account_update_signal update_account in ground arith)
  message-Change (account_purge m) db =
      unchanged (purge-Edits m db).1 (unfold process_account_purge_signal in ground arith)
  message-Change (prepared_transfer m) db =
      either-Change (not (m.coordinator_type == ct_issuing)) (pure tt)
        (process_prepared_issuing_transfer_signal m) db (unchanged refl refl) (prepared-Change m db)
  message-Change (rejected_transfer m) db =
      either-Change (not (m.coordinator_type == ct_issuing)) (pure tt)
        (process_rejected_issuing_transfer_signal m) db (unchanged refl refl) (rejected-Change m db)
  message-Change (finalized_transfer m) db =
      either-Change (not (m.coordinator_type == ct_issuing)) (pure tt)
        (process_finalized_issuing_transfer_signal m) db (unchanged refl refl)
        (finalized-Change m db)
  message-Change (activate_debtor_message k reservation_id) db =
      subst (Change db) (sym (ignored-committed (activate_debtor k reservation_id db) db))
        (activate-Change k reservation_id db)

  module _ (s : Settings) where
    -- Every transaction changes the table of transfers as the abstract machine allows: not at all, by
    -- one new open transfer with a free UUID and the next request identifier, by one transfer that
    -- takes a prepared transfer or is finalized while it is open, or by deletions.
    pub step-Change : (e : Event) (db : Database) → Change db (step s e db)
    unfolding step delete_parent_shard_debtors delete_debtors_not_activated_for_long_time
        set_config_errors_if_necessary
    step-Change (reserve k) db = reserve-Change k db
    step-Change (activate k reservation_id) db = activate-Change k reservation_id db
    step-Change (deactivate k) db = deactivate-Change k db
    step-Change (restrict k min_balance) db =
        unchanged (restrict-Edits k min_balance db).1 (unfold restrict_debtor in ground arith)
    step-Change (update_config k config_data latest limit) db =
        unchanged (update_config-Edits k config_data latest limit db).1
          (unfold update_debtor_config in ground arith)
    step-Change (initiate k uuid t limit) db = initiate-Change k uuid t limit db
    step-Change (cancel k uuid) db = cancel-Change k uuid db
    step-Change (delete k uuid) db = delete-Change k uuid db
    step-Change (save k content_type content limit) db =
        unchanged (save_document-Edits k content_type content limit db).1
          (unfold save_document in ground arith)
    step-Change (message m) db = message-Change m db
    step-Change (scan_parent_shard unlocked rows) db =
        let pks =
          select_chosen unlocked (debtor_ids (select_rows (belongs_to_parent_shard s) rows))
            (λ _. true) db in
        let done = delete_all_rows pks db in deleted (λ rt. contains rt.debtor_id pks) done.0 done.1
    step-Change (scan_inactive unlocked rows current_ts) db =
        let test = not_activated_for_long_time s current_ts in
        let pks = select_chosen unlocked (debtor_ids (select_rows test rows)) test db in
        let done = delete_all_rows pks db in deleted (λ rt. contains rt.debtor_id pks) done.0 done.1
    step-Change (scan_config unlocked rows current_ts) db = unchanged refl refl
    step-Change (flush present e) db = elim (Bool-cases (violates_key present db (step s e db))) [
      | inl taken ↦ rw taken (unchanged refl refl)
      | inr free ↦ rw free (step-Change e db)
    ]
