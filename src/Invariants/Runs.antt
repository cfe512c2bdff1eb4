-- ===== src/Invariants/Runs.antt =====
-- The counters of running transfers over all runs of the system.
use swpt_debtors.Prelude.{
  ℕ, ◌+◌, first, count, ◌≡◌, refl, sym, Bool, true, false, not, Option, none, some, List, String,
  ◌==◌, string_Eq, int_Eq, ℤ, arith, if◌then◌else◌, update_rows, select_rows, first-update_rows,
  inl, inr, Bool-cases,
}
use mathlib.Core.Path.{subst}
use mathlib.Core.Option
use swpt_debtors.Platform.{Platform, Timestamp}
use swpt_debtors.Settings.{Settings}
use swpt_debtors.Models.{Database, Debtor, RunningTransfer, is_active, ct_issuing}
use swpt_debtors.Store.{debtor_row, count_of}
use swpt_debtors.Procedures.Monad.{
  Result, Procedure, ok, err, invalid_reservation_id, debtor_exists, pure,
}
use swpt_debtors.Procedures.Debtors.{activate_debtor, restrict_debtor}
use swpt_debtors.Procedures.Config.{update_debtor_config}
use swpt_debtors.Procedures.Documents.{save_document}
use swpt_debtors.Procedures.Transfers.{cancel_running_transfer}
use swpt_debtors.Procedures.Incoming.{
  process_rejected_config_signal, process_account_purge_signal,
  process_rejected_issuing_transfer_signal, process_prepared_issuing_transfer_signal,
  process_finalized_issuing_transfer_signal,
}
use swpt_debtors.Procedures.AccountUpdate.{process_account_update_signal}
use swpt_debtors.Actors.{
  Message, actor, on_activate_debtor_signal, ignore_activation_errors, rejected_config,
  account_update, account_purge, prepared_transfer, rejected_transfer, finalized_transfer,
  activate_debtor_message,
}
use swpt_debtors.Scanner.{
  select_chosen, debtor_ids, belongs_to_parent_shard, not_activated_for_long_time,
  delete_parent_shard_debtors, delete_debtors_not_activated_for_long_time,
  set_config_errors_if_necessary,
}
use swpt_debtors.Procedures.Flush.{violates_key}
use swpt_debtors.System.{
  committed, Event, reserve, activate, deactivate, restrict, update_config, initiate, cancel,
  delete, save, message, scan_parent_shard, scan_inactive, scan_config, flush, step, run,
  run_induction, empty,
}
use swpt_debtors.Invariants.Edits.{CountsRow, Counts}
use swpt_debtors.Invariants.Outcomes.{
  Edits-Counts, restricted, restrict-Edits, restricted-KeepsCount,
}
use swpt_debtors.Invariants.Rows.{
  rejected, rejected_config-Edits, rejected-KeepsCount, purged, purge-Edits, purged-KeepsCount,
  activated_by, activate-Edits, activated_by-KeepsCount, configured, update_config-Edits,
  configured-KeepsCount, with_document, save_document-Edits, with_document-KeepsCount, updated,
  account_update-Edits, updated-KeepsCount,
}
use swpt_debtors.Invariants.Written.{
  Written-Counts, cancel-Written, prepared-Written, rejected-Written, finalized-Written,
}
use swpt_debtors.Invariants.Steps.{
  Consistent, delete_all-Consistent, delete-Consistent, initiate-Consistent, reserve-Consistent,
  deactivate-Consistent,
}

abbrev with_config_error : Debtor → Debtor
with_config_error d = record d { config_error = some "CONFIGURATION_IS_NOT_EFFECTUAL" }

mark-CountsRow :
    (p : Debtor → Bool) (o : Option Debtor) (n : ℕ)
    → CountsRow o n
    → CountsRow (Option.map (λ d. if p d then with_config_error d else d) o) n
unfolding is_active
mark-CountsRow p none n h = h
mark-CountsRow p (some d) n h = ground arith

mark-Counts :
    (p : Debtor → Bool) (ds : List Debtor) (ts : List RunningTransfer)
    → Counts ds ts
    → Counts (update_rows p with_config_error ds) ts
unfolding debtor_row
mark-Counts p ds ts h k =
    subst (λ o. CountsRow o (count_of k ts))
      (sym (first-update_rows (λ d. d.debtor_id == k) p with_config_error ds (λ d h. refl)))
      (mark-CountsRow p (debtor_row k ds) (count_of k ts) (h k))

module _ ⦃p : Platform⦄ where
  activate-Consistent :
      (k : ℤ) (reservation_id : String) (db : Database)
      → Consistent db
      → Consistent (committed (activate_debtor k reservation_id db) db)
  activate-Consistent k reservation_id db =
      let now = db.clock db.readings in
      Edits-Counts k (activated_by reservation_id now) db
        (committed (activate_debtor k reservation_id db) db) (activate-Edits k reservation_id db)
        (activated_by-KeepsCount reservation_id now)

  pub ignored-committed :
      (r : Result Debtor) (db : Database)
      → committed (ignore_activation_errors r db) db ≡ committed r db
  unfolding ignore_activation_errors
  ignored-committed (ok d db') db = refl
  ignored-committed (err invalid_reservation_id) db = refl
  ignored-committed (err debtor_exists) db = refl
  ignored-committed (err e) db = refl

  -- A handler behind a test
  behind-Consistent :
      (b : Bool) (handler : Procedure (Unit {0})) (db : Database)
      → Consistent db
      → Consistent (committed (handler db) db)
      → Consistent (committed ((if b then pure tt else handler) db) db)
  behind-Consistent true handler db h h' = h
  behind-Consistent false handler db h h' = h'

  message-Consistent :
      (m : Message) (db : Database) → Consistent db → Consistent (committed (actor m db) db)
  unfolding actor on_activate_debtor_signal
  message-Consistent (rejected_config m) db h =
      Edits-Counts m.debtor_id (rejected m) db (committed (process_rejected_config_signal m db) db)
        (rejected_config-Edits m db) (rejected-KeepsCount m) h
  message-Consistent (account_update m) db h =
      let now = db.clock db.readings in
      Edits-Counts m.debtor_id (updated m now) db
        (committed (process_account_update_signal m db) db) (account_update-Edits m db)
        (updated-KeepsCount m now) h
  message-Consistent (account_purge m) db h =
      Edits-Counts m.debtor_id (purged m) db (committed (process_account_purge_signal m db) db)
        (purge-Edits m db) (purged-KeepsCount m) h
  message-Consistent (prepared_transfer m) db h =
      behind-Consistent (not (m.coordinator_type == ct_issuing))
        (process_prepared_issuing_transfer_signal m) db h
        (Written-Counts db (committed (process_prepared_issuing_transfer_signal m db) db)
          (prepared-Written m db) h)
  message-Consistent (rejected_transfer m) db h =
      behind-Consistent (not (m.coordinator_type == ct_issuing))
        (process_rejected_issuing_transfer_signal m) db h
        (Written-Counts db (committed (process_rejected_issuing_transfer_signal m db) db)
          (rejected-Written m db) h)
  message-Consistent (finalized_transfer m) db h =
      behind-Consistent (not (m.coordinator_type == ct_issuing))
        (process_finalized_issuing_transfer_signal m) db h
        (Written-Counts db (committed (process_finalized_issuing_transfer_signal m db) db)
          (finalized-Written m db) h)
  message-Consistent (activate_debtor_message k reservation_id) db h =
      subst Consistent (sym (ignored-committed (activate_debtor k reservation_id db) db))
        (activate-Consistent k reservation_id db h)

  module _ (s : Settings) where
    step-Consistent : (e : Event) (db : Database) → Consistent db → Consistent (step s e db)
    unfolding step delete_parent_shard_debtors delete_debtors_not_activated_for_long_time
        set_config_errors_if_necessary
    step-Consistent (reserve k) db h = reserve-Consistent k db h
    step-Consistent (activate k reservation_id) db h = activate-Consistent k reservation_id db h
    step-Consistent (deactivate k) db h = deactivate-Consistent k db h
    step-Consistent (restrict k min_balance) db h =
        let now = db.clock db.readings in
        Edits-Counts k (restricted min_balance now) db
          (committed (restrict_debtor k min_balance db) db) (restrict-Edits k min_balance db)
          (restricted-KeepsCount min_balance now) h
    step-Consistent (update_config k config_data latest limit) db h =
        let now = db.clock db.readings in
        let later = db.clock (db.readings + 1) in
        Edits-Counts k (configured config_data latest limit now later) db
          (committed (update_debtor_config k config_data latest limit db) db)
          (update_config-Edits k config_data latest limit db)
          (configured-KeepsCount config_data latest limit now later) h
    step-Consistent (initiate k uuid t limit) db h = initiate-Consistent k uuid t limit db h
    step-Consistent (cancel k uuid) db h =
        Written-Counts db (committed (cancel_running_transfer k uuid db) db)
          (cancel-Written k uuid db) h
    step-Consistent (delete k uuid) db h = delete-Consistent k uuid db h
    step-Consistent (save k content_type content limit) db h =
        let now = db.clock db.readings in
        Edits-Counts k (with_document limit now) db
          (committed (save_document k content_type content limit db) db)
          (save_document-Edits k content_type content limit db) (with_document-KeepsCount limit now)
          h
    step-Consistent (message m) db h = message-Consistent m db h
    step-Consistent (scan_parent_shard unlocked rows) db h =
        delete_all-Consistent
          (select_chosen unlocked (debtor_ids (select_rows (belongs_to_parent_shard s) rows))
            (λ _. true) db)
          db h
    step-Consistent (scan_inactive unlocked rows current_ts) db h =
        let test = not_activated_for_long_time s current_ts in
        delete_all-Consistent (select_chosen unlocked (debtor_ids (select_rows test rows)) test db)
          db h
    step-Consistent (scan_config unlocked rows current_ts) db h =
        mark-Counts _ db.debtors db.running_transfers h
    step-Consistent (flush present e) db h =
        elim (Bool-cases (violates_key present db (step s e db))) [
          | inl taken ↦ rw taken h
          | inr free ↦ rw free (step-Consistent e db h)
        ]

    -- In every database that is reached from an empty one, the counter of a debtor's running
    -- transfers is the number of its rows, a debtor that is not active has none, and there is none
    -- without its debtor.
    pub run-Consistent :
        (es : List Event) (clock : ℕ → Timestamp) → Consistent (run s es (empty clock))
    unfolding debtor_row count_of first count
    run-Consistent es clock =
        run_induction s Consistent step-Consistent es (empty clock) (λ k. refl)
