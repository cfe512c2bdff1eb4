-- ===== src/Invariants/MeetsChecks.antt =====
-- The CHECK constraints of the tables of debtors and transfers, over all runs.
use swpt_debtors.Prelude.{
  ℕ, ◌+◌, refl, sym, true, not, List, [], ◌∷◌, String, ◌==◌, string_Eq, ℤ, inl, inr, Option-cases,
  select_rows, All, All-imp, arith, Bool-cases,
}
use mathlib.Core.Path.{subst}
use swpt_debtors.Platform.{Platform, Timestamp}
use swpt_debtors.Settings.{Settings}
use swpt_debtors.Models.{Database, DebtorChecks, TransferChecks, ct_issuing}
use swpt_debtors.Store.{belongs_to, delete_transfers_of}
use swpt_debtors.Procedures.Monad.{pure}
use swpt_debtors.Procedures.Debtors.{
  reserve_debtor, activate_debtor, deactivate_debtor, get_active_debtor,
}
use swpt_debtors.Procedures.Incoming.{
  process_prepared_issuing_transfer_signal, process_rejected_issuing_transfer_signal,
  process_finalized_issuing_transfer_signal, process_rejected_config_signal,
  process_account_purge_signal,
}
use swpt_debtors.Procedures.AccountUpdate.{process_account_update_signal}
use swpt_debtors.Actors.{
  Message, actor, on_activate_debtor_signal, rejected_config, account_update, account_purge,
  prepared_transfer, rejected_transfer, finalized_transfer, activate_debtor_message,
}
use swpt_debtors.Scanner.{
  select_chosen, debtor_ids, belongs_to_parent_shard, not_activated_for_long_time, contains,
  delete_parent_shard_debtors, delete_debtors_not_activated_for_long_time,
  set_config_errors_if_necessary,
}
use swpt_debtors.Procedures.Flush.{violates_key}
use swpt_debtors.System.{
  committed, Event, reserve, activate, deactivate, restrict, update_config, initiate, cancel,
  delete, save, message, scan_parent_shard, scan_inactive, scan_config, flush, step, run, empty,
}
use swpt_debtors.Behaviour.Deactivation.{deactivated, deactivate_found, deactivate_again}
use swpt_debtors.Invariants.Outcomes.{restrict-Edits}
use swpt_debtors.Invariants.Rows.{
  rejected_config-Edits, purge-Edits, activate-Edits, update_config-Edits, save_document-Edits,
  account_update-Edits,
}
use swpt_debtors.Invariants.Steps.{found_active}
use swpt_debtors.Invariants.Runs.{ignored-committed}
use swpt_debtors.Invariants.CheckedRuns.{IsAdmissible, run-DebtorChecks}
use swpt_debtors.Invariants.CheckedTransfers.{
  CheckedTransfer, CheckedTransfer-TransferChecks, Sound, Keeps, same-Keeps, deleted-Keeps,
  either-Keeps, skip-Keeps, prepared-Keeps, rejected-Keeps, finalized-Keeps, cancel-Keeps,
  delete-Keeps, initiate-Keeps,
}
use swpt_debtors.Lifecycle.Steps.{delete_all_rows}

-- Each row of the two tables meets its CHECK constraints.
abbrev pub MeetsChecks : Database → Type 0
MeetsChecks db = All DebtorChecks db.debtors × All TransferChecks db.running_transfers

module _ ⦃p : Platform⦄ where
  reserve-Keeps : (k : ℤ) (db : Database) → Keeps db (committed (reserve_debtor k db) db)
  reserve-Keeps k db =
      same-Keeps db (committed (reserve_debtor k db) db) (unfold reserve_debtor in ground arith)

  activate-Keeps :
      (k : ℤ) (reservation_id : String) (db : Database)
      → Keeps db (committed (activate_debtor k reservation_id db) db)
  activate-Keeps k reservation_id db =
      same-Keeps db (committed (activate_debtor k reservation_id db) db)
        (activate-Edits k reservation_id db).1

  deactivate-Keeps : (k : ℤ) (db : Database) → Keeps db (committed (deactivate_debtor k db) db)
  deactivate-Keeps k db = elim (Option-cases (get_active_debtor k db)) [
    | inl idle ↦ rw (deactivate_again k db idle) (same-Keeps db db refl)
    | inr (d, found) ↦
        let active = found_active k d db found in
        let d' = deactivated (db.clock db.readings) (db.clock (db.readings + 1)) d in
        deleted-Keeps (belongs_to d'.debtor_id) db (committed (deactivate_debtor k db) db)
          (unfold delete_transfers_of in (deactivate_found k d db active.0 active.1).1)
  ]

  message-Keeps :
      (m : Message) (db : Database)
      → IsAdmissible (message m)
      → Keeps db (committed (actor m db) db)
  unfolding IsAdmissible actor on_activate_debtor_signal
  message-Keeps (rejected_config m) db r =
      same-Keeps db (committed (process_rejected_config_signal m db) db)
        (rejected_config-Edits m db).1
  message-Keeps (account_update m) db r =
      same-Keeps db (committed (process_account_update_signal m db) db)
        (account_update-Edits m db).1
  message-Keeps (account_purge m) db r =
      same-Keeps db (committed (process_account_purge_signal m db) db) (purge-Edits m db).1
  message-Keeps (prepared_transfer m) db r =
      either-Keeps (not (m.coordinator_type == ct_issuing)) (pure tt)
        (process_prepared_issuing_transfer_signal m) db (skip-Keeps db) (prepared-Keeps m db)
  message-Keeps (rejected_transfer m) db r =
      either-Keeps (not (m.coordinator_type == ct_issuing)) (pure tt)
        (process_rejected_issuing_transfer_signal m) db (skip-Keeps db) (rejected-Keeps m db r)
  message-Keeps (finalized_transfer m) db r =
      either-Keeps (not (m.coordinator_type == ct_issuing)) (pure tt)
        (process_finalized_issuing_transfer_signal m) db (skip-Keeps db) (finalized-Keeps m db r)
  message-Keeps (activate_debtor_message k reservation_id) db r =
      subst (Keeps db) (sym (ignored-committed (activate_debtor k reservation_id db) db))
        (activate-Keeps k reservation_id db)

  module _ (s : Settings) where
    step-Keeps : (e : Event) (db : Database) → IsAdmissible e → Keeps db (step s e db)
    unfolding IsAdmissible step delete_parent_shard_debtors
        delete_debtors_not_activated_for_long_time set_config_errors_if_necessary
    step-Keeps (reserve k) db r = reserve-Keeps k db
    step-Keeps (activate k reservation_id) db r = activate-Keeps k reservation_id db
    step-Keeps (deactivate k) db r = deactivate-Keeps k db
    step-Keeps (restrict k min_balance) db r =
        same-Keeps db (step s (restrict k min_balance) db) (restrict-Edits k min_balance db).1
    step-Keeps (update_config k config_data latest limit) db r =
        same-Keeps db (step s (update_config k config_data latest limit) db)
          (update_config-Edits k config_data latest limit db).1
    step-Keeps (initiate k uuid t limit) db r = initiate-Keeps k uuid t limit db
    step-Keeps (cancel k uuid) db r = cancel-Keeps k uuid db
    step-Keeps (delete k uuid) db r = delete-Keeps k uuid db
    step-Keeps (save k content_type content limit) db r =
        same-Keeps db (step s (save k content_type content limit) db)
          (save_document-Edits k content_type content limit db).1
    step-Keeps (message m) db r = message-Keeps m db r
    step-Keeps (scan_parent_shard unlocked rows) db r =
        let pks =
          select_chosen unlocked (debtor_ids (select_rows (belongs_to_parent_shard s) rows))
            (λ _. true) db in
        deleted-Keeps (λ rt. contains rt.debtor_id pks) db
          (step s (scan_parent_shard unlocked rows) db) (delete_all_rows pks db).0
    step-Keeps (scan_inactive unlocked rows current_ts) db r =
        let test = not_activated_for_long_time s current_ts in
        let pks = select_chosen unlocked (debtor_ids (select_rows test rows)) test db in
        deleted-Keeps (λ rt. contains rt.debtor_id pks) db
          (step s (scan_inactive unlocked rows current_ts) db) (delete_all_rows pks db).0
    step-Keeps (scan_config unlocked rows current_ts) db r =
        same-Keeps db (step s (scan_config unlocked rows current_ts) db) refl
    step-Keeps (flush present e) db r = elim (Bool-cases (violates_key present db (step s e db))) [
      | inl taken ↦ rw taken (same-Keeps db db refl)
      | inr free ↦ rw free (step-Keeps e db r)
    ]

    run-Sound :
        (es : List Event) (db : Database) → All IsAdmissible es → Sound db → Sound (run s es db)
    unfolding run Keeps
    run-Sound [] db r h = h
    run-Sound (e ∷ es) db r h = run-Sound es (step s e db) r.1 (step-Keeps e db r.0 h)

    -- In every database that a sequence of transactions reaches from an empty one, each row of the
    -- tables of debtors and of running transfers meets the CHECK constraints, if `restrict_debtor` is
    -- called only with balances that are not positive, and the messages about rejected and finalized
    -- transfers report no negative locked amounts.
    pub run-MeetsChecks :
        (es : List Event) (clock : ℕ → Timestamp)
        → All IsAdmissible es
        → MeetsChecks (run s es (empty clock))
    run-MeetsChecks es clock r =
        let db = run s es (empty clock) in
        (
          run-DebtorChecks s es clock r,
          All-imp CheckedTransfer TransferChecks db.running_transfers
              (run-Sound es (empty clock) r tt) CheckedTransfer-TransferChecks,
        )
