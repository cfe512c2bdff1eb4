-- ===== src/Invariants/AnnouncedRuns.antt =====
-- The announced configurations over all runs of the system.
use swpt_debtors.Prelude.{
  ℕ, first, ◌≡◌, sym, Bool, true, false, List, ◌==◌, string_Eq, int_Eq, arith, if◌then◌else◌,
  select_rows, not, nat_Eq, inl, inr, Bool-cases,
}
use mathlib.Core.Path.{subst}
use swpt_debtors.Platform.{Platform, Timestamp}
use swpt_debtors.Settings.{Settings}
use swpt_debtors.Models.{Database, is_active, ct_issuing}
use swpt_debtors.Store.{debtor_row}
use swpt_debtors.Procedures.Monad.{Procedure, pure}
use swpt_debtors.Procedures.Debtors.{activate_debtor}
use swpt_debtors.Procedures.Transfers.{cancel_running_transfer}
use swpt_debtors.Procedures.Incoming.{
  process_rejected_issuing_transfer_signal, process_prepared_issuing_transfer_signal,
  process_finalized_issuing_transfer_signal,
}
use swpt_debtors.Actors.{
  Message, actor, on_activate_debtor_signal, rejected_config, account_update, account_purge,
  prepared_transfer, rejected_transfer, finalized_transfer, activate_debtor_message,
}
use swpt_debtors.Scanner.{
  select_chosen, debtor_ids, belongs_to_parent_shard, not_activated_for_long_time,
  delete_parent_shard_debtors, delete_debtors_not_activated_for_long_time,
  set_config_errors_if_necessary,
}
use swpt_debtors.Procedures.Flush.{violates_key}
use swpt_debtors.System.{
  committed, Event, reserve, activate, deactivate, restrict, update_config, initiate, cancel,
  delete, save, message, scan_parent_shard, scan_inactive, scan_config, flush, step, run,
  run_induction, empty,
}
use swpt_debtors.Invariants.Written.{
  cancel-Written, prepared-Written, rejected-Written, finalized-Written,
}
use swpt_debtors.Invariants.Runs.{ignored-committed}
use swpt_debtors.Invariants.Announcements.{last_signal, IsAnnounced, same-IsAnnounced}
use swpt_debtors.Invariants.Announcing.{
  restrict-IsAnnounced, activate-IsAnnounced, deactivate-IsAnnounced, update_config-IsAnnounced,
}
use swpt_debtors.Invariants.SilentChanges.{
  keep_rows, reserve-IsAnnounced, initiate-IsAnnounced, delete-IsAnnounced, delete_all-IsAnnounced,
  rejected_config-IsAnnounced, purge-IsAnnounced, save_document-IsAnnounced, cancel_signals,
}
use swpt_debtors.Invariants.OrphanAccounts.{account_update-IsAnnounced}

module _ ⦃p : Platform⦄ where
  either-IsAnnounced :
      (b : Bool) (handler : Procedure (Unit {0})) (db : Database)
      → (committed (handler db) db).debtors ≡ db.debtors
      → (committed (handler db) db).configure_account_signals ≡ db.configure_account_signals
      → IsAnnounced db
      → IsAnnounced (committed ((if b then pure tt else handler) db) db)
  either-IsAnnounced true handler db rows signals h = h
  either-IsAnnounced false handler db rows signals h =
      same-IsAnnounced db (committed (handler db) db) rows signals h

  message-IsAnnounced :
      (m : Message) (db : Database) → IsAnnounced db → IsAnnounced (committed (actor m db) db)
  unfolding actor on_activate_debtor_signal
  message-IsAnnounced (rejected_config m) db h = rejected_config-IsAnnounced m db h
  message-IsAnnounced (account_update m) db h = account_update-IsAnnounced m db h
  message-IsAnnounced (account_purge m) db h = purge-IsAnnounced m db h
  message-IsAnnounced (prepared_transfer m) db h =
      either-IsAnnounced (not (m.coordinator_type == ct_issuing))
        (process_prepared_issuing_transfer_signal m) db (prepared-Written m db).0
        (unfold process_prepared_issuing_transfer_signal in ground arith) h
  message-IsAnnounced (rejected_transfer m) db h =
      either-IsAnnounced (not (m.coordinator_type == ct_issuing))
        (process_rejected_issuing_transfer_signal m) db (rejected-Written m db).0
        (unfold process_rejected_issuing_transfer_signal in ground arith) h
  message-IsAnnounced (finalized_transfer m) db h =
      either-IsAnnounced (not (m.coordinator_type == ct_issuing))
        (process_finalized_issuing_transfer_signal m) db (finalized-Written m db).0
        (unfold process_finalized_issuing_transfer_signal in ground arith) h
  message-IsAnnounced (activate_debtor_message k reservation_id) db h =
      subst IsAnnounced (sym (ignored-committed (activate_debtor k reservation_id db) db))
        (activate-IsAnnounced k reservation_id db h)

  module _ (s : Settings) where
    step-IsAnnounced : (e : Event) (db : Database) → IsAnnounced db → IsAnnounced (step s e db)
    unfolding step delete_parent_shard_debtors delete_debtors_not_activated_for_long_time
        set_config_errors_if_necessary
    step-IsAnnounced (reserve k) db h = reserve-IsAnnounced k db h
    step-IsAnnounced (activate k reservation_id) db h = activate-IsAnnounced k reservation_id db h
    step-IsAnnounced (deactivate k) db h = deactivate-IsAnnounced k db h
    step-IsAnnounced (restrict k min_balance) db h = restrict-IsAnnounced k min_balance db h
    step-IsAnnounced (update_config k config_data latest limit) db h =
        update_config-IsAnnounced k config_data latest limit db h
    step-IsAnnounced (initiate k uuid t limit) db h = initiate-IsAnnounced k uuid t limit db h
    step-IsAnnounced (cancel k uuid) db h =
        same-IsAnnounced db (committed (cancel_running_transfer k uuid db) db)
          (cancel-Written k uuid db).0 (cancel_signals k uuid db) h
    step-IsAnnounced (delete k uuid) db h = delete-IsAnnounced k uuid db h
    step-IsAnnounced (save k content_type content limit) db h =
        save_document-IsAnnounced k content_type content limit db h
    step-IsAnnounced (message m) db h = message-IsAnnounced m db h
    step-IsAnnounced (scan_parent_shard unlocked rows) db h =
        delete_all-IsAnnounced
          (select_chosen unlocked (debtor_ids (select_rows (belongs_to_parent_shard s) rows))
            (λ _. true) db)
          db h
    step-IsAnnounced (scan_inactive unlocked rows current_ts) db h =
        let test = not_activated_for_long_time s current_ts in
        delete_all-IsAnnounced (select_chosen unlocked (debtor_ids (select_rows test rows)) test db)
          db h
    step-IsAnnounced (scan_config unlocked rows current_ts) db h =
        keep_rows _ _ db.debtors db.configure_account_signals
          (λ d. unfold is_active in ground arith) h
    step-IsAnnounced (flush present e) db h =
        elim (Bool-cases (violates_key present db (step s e db))) [
          | inl taken ↦ rw taken h
          | inr free ↦ rw free (step-IsAnnounced e db h)
        ]

    -- In every database that a sequence of transactions reaches from an empty one, the last message
    -- that configures the account of an active debtor tells the version, the data, the flags and the
    -- negligible amount that are in the debtor's row.
    pub run-IsAnnounced :
        (es : List Event) (clock : ℕ → Timestamp) → IsAnnounced (run s es (empty clock))
    unfolding debtor_row last_signal first
    run-IsAnnounced es clock =
        run_induction s IsAnnounced step-IsAnnounced es (empty clock) (λ k. tt)
