-- ===== src/Invariants/DebtorRuns.antt =====
-- The primary key of the debtors over all runs, and the enumeration that rests on it.
use swpt_debtors.Prelude.{
  ℕ, ◌+◌, ◌≡◌, refl, sym, Bool, true, false, not, none, List, String, ◌==◌, string_Eq, nat_Eq,
  int_Eq, int_eq_iff, ℤ, inl, inr, Option-cases, first, count, select_rows, count-append,
  count-zero_of_first, arith, if◌then◌else◌, Bool-cases,
}
use mathlib.Core.Path.{subst}
use swpt_debtors.Platform.{Platform, Timestamp}
use swpt_debtors.Settings.{Settings}
use swpt_debtors.Models.{Database, ct_issuing}
use swpt_debtors.Store.{debtor_row}
use swpt_debtors.Procedures.Monad.{Procedure, pure}
use swpt_debtors.Procedures.Debtors.{
  reserve_debtor, activate_debtor, deactivate_debtor, get_active_debtor,
}
use swpt_debtors.Procedures.Incoming.{
  process_prepared_issuing_transfer_signal, process_rejected_issuing_transfer_signal,
  process_finalized_issuing_transfer_signal, process_rejected_config_signal,
  process_account_purge_signal,
}
use swpt_debtors.Procedures.AccountUpdate.{process_account_update_signal}
use swpt_debtors.Actors.{
  Message, actor, on_activate_debtor_signal, rejected_config, account_update, account_purge,
  prepared_transfer, rejected_transfer, finalized_transfer, activate_debtor_message,
}
use swpt_debtors.Scanner.{
  select_chosen, debtor_ids, belongs_to_parent_shard, not_activated_for_long_time,
  delete_parent_shard_debtors, delete_debtors_not_activated_for_long_time,
  set_config_errors_if_necessary,
}
use swpt_debtors.Procedures.Flush.{violates_key}
use swpt_debtors.System.{
  committed, Event, reserve, activate, deactivate, restrict, update_config, initiate, cancel,
  delete, save, message, scan_parent_shard, scan_inactive, scan_config, flush, step, run,
  run_induction, empty,
}
use swpt_debtors.Behaviour.Activation.{reserved, reserve_found, reserve_taken, fields_of_reserved}
use swpt_debtors.Behaviour.Deactivation.{deactivated, deactivate_found, deactivate_again}
use swpt_debtors.Invariants.Outcomes.{restricted, restrict-Edits}
use swpt_debtors.Invariants.Rows.{
  rejected, rejected_config-Edits, purged, purge-Edits, activated_by, activate-Edits, configured,
  update_config-Edits, with_document, save_document-Edits, updated, account_update-Edits,
}
use swpt_debtors.Invariants.Written.{
  cancel-Written, prepared-Written, rejected-Written, finalized-Written,
}
use swpt_debtors.Invariants.Steps.{found_active}
use swpt_debtors.Invariants.Runs.{ignored-committed}
use swpt_debtors.Invariants.DebtorKeys.{
  has_id, Unique, Fewer, Keeps, put-Fewer, update-Fewer, same-Keeps, Edits-Keeps, initiate-Keeps,
  delete-Keeps, delete_all-Keeps,
}

either-Keeps :
    (b : Bool) (handler : Procedure (Unit {0})) (db : Database)
    → Keeps db (committed (handler db) db)
    → Keeps db (committed ((if b then pure tt else handler) db) db)
either-Keeps true handler db h = same-Keeps db db refl
either-Keeps false handler db h = h

module _ ⦃p : Platform⦄ where
  reserve-Unique :
      (k : ℤ) (db : Database)
      → Unique db.debtors
      → Unique (committed (reserve_debtor k db) db).debtors
  unfolding debtor_row
  reserve-Unique k db h j = elim (Option-cases (debtor_row k db.debtors)) [
    | inl free ↦
        let made = reserve_found k db free in
        let key = (fields_of_reserved k db).0 in
        rw made.1 (
          ground (
            arith,
            h j,
            count-append (has_id j) db.debtors (reserved k db),
            int_eq_iff k j,
            key,
            absent j free,
          ))
    | inr (d, row) ↦ rw (reserve_taken k d db row) (h j)
  ]
    where
      absent :
          (j : ℤ)
          → debtor_row k db.debtors ≡ none
          → (k == j) ≡ true
          → count (has_id j) db.debtors ≡ 0
      absent j free e =
          count-zero_of_first (has_id j) db.debtors
            (subst (λ i. first (has_id i) db.debtors ≡ none) ((int_eq_iff k j).0 e) free)

  deactivate-Keeps : (k : ℤ) (db : Database) → Keeps db (committed (deactivate_debtor k db) db)
  deactivate-Keeps k db = elim (Option-cases (get_active_debtor k db)) [
    | inl idle ↦ rw (deactivate_again k db idle) (same-Keeps db db refl)
    | inr (d, found) ↦
        let active = found_active k d db found in
        let d' = deactivated (db.clock db.readings) (db.clock (db.readings + 1)) d in
        subst (Fewer db.debtors) (sym (deactivate_found k d db active.0 active.1).0)
          (put-Fewer d' db.debtors)
  ]

  activate-Keeps :
      (k : ℤ) (reservation_id : String) (db : Database)
      → Keeps db (committed (activate_debtor k reservation_id db) db)
  activate-Keeps k reservation_id db =
      Edits-Keeps k (activated_by reservation_id (db.clock db.readings)) db
        (committed (activate_debtor k reservation_id db) db) (activate-Edits k reservation_id db)

  message-Keeps : (m : Message) (db : Database) → Keeps db (committed (actor m db) db)
  unfolding actor on_activate_debtor_signal
  message-Keeps (rejected_config m) db =
      Edits-Keeps m.debtor_id (rejected m) db (committed (process_rejected_config_signal m db) db)
        (rejected_config-Edits m db)
  message-Keeps (account_update m) db =
      Edits-Keeps m.debtor_id (updated m (db.clock db.readings)) db
        (committed (process_account_update_signal m db) db) (account_update-Edits m db)
  message-Keeps (account_purge m) db =
      Edits-Keeps m.debtor_id (purged m) db (committed (process_account_purge_signal m db) db)
        (purge-Edits m db)
  message-Keeps (prepared_transfer m) db =
      either-Keeps (not (m.coordinator_type == ct_issuing))
        (process_prepared_issuing_transfer_signal m) db
        (same-Keeps db (committed (process_prepared_issuing_transfer_signal m db) db)
          (prepared-Written m db).0)
  message-Keeps (rejected_transfer m) db =
      either-Keeps (not (m.coordinator_type == ct_issuing))
        (process_rejected_issuing_transfer_signal m) db
        (same-Keeps db (committed (process_rejected_issuing_transfer_signal m db) db)
          (rejected-Written m db).0)
  message-Keeps (finalized_transfer m) db =
      either-Keeps (not (m.coordinator_type == ct_issuing))
        (process_finalized_issuing_transfer_signal m) db
        (same-Keeps db (committed (process_finalized_issuing_transfer_signal m db) db)
          (finalized-Written m db).0)
  message-Keeps (activate_debtor_message k reservation_id) db =
      subst (Keeps db) (sym (ignored-committed (activate_debtor k reservation_id db) db))
        (activate-Keeps k reservation_id db)

  kept-Unique : (db db' : Database) → Keeps db db' → Unique db.debtors → Unique db'.debtors
  kept-Unique db db' keeps h k = omega (arith, keeps k, h k)

  module _ (s : Settings) where
    step-Unique : (e : Event) (db : Database) → Unique db.debtors → Unique (step s e db).debtors
    unfolding step delete_parent_shard_debtors delete_debtors_not_activated_for_long_time
        set_config_errors_if_necessary
    step-Unique (reserve k) db h = reserve-Unique k db h
    step-Unique (activate k reservation_id) db h =
        kept-Unique db (step s (activate k reservation_id) db) (activate-Keeps k reservation_id db)
          h
    step-Unique (deactivate k) db h =
        kept-Unique db (step s (deactivate k) db) (deactivate-Keeps k db) h
    step-Unique (restrict k min_balance) db h =
        let db' = step s (restrict k min_balance) db in
        kept-Unique db db'
          (Edits-Keeps k (restricted min_balance (db.clock db.readings)) db db'
            (restrict-Edits k min_balance db))
          h
    step-Unique (update_config k config_data latest limit) db h =
        let db' = step s (update_config k config_data latest limit) db in
        kept-Unique db db'
          (Edits-Keeps k
            (configured config_data latest limit (db.clock db.readings)
              (db.clock (db.readings + 1)))
            db db' (update_config-Edits k config_data latest limit db))
          h
    step-Unique (initiate k uuid t limit) db h =
        kept-Unique db (step s (initiate k uuid t limit) db) (initiate-Keeps k uuid t limit db) h
    step-Unique (cancel k uuid) db h =
        let db' = step s (cancel k uuid) db in
        kept-Unique db db' (same-Keeps db db' (cancel-Written k uuid db).0) h
    step-Unique (delete k uuid) db h =
        kept-Unique db (step s (delete k uuid) db) (delete-Keeps k uuid db) h
    step-Unique (save k content_type content limit) db h =
        let db' = step s (save k content_type content limit) db in
        kept-Unique db db'
          (Edits-Keeps k (with_document limit (db.clock db.readings)) db db'
            (save_document-Edits k content_type content limit db))
          h
    step-Unique (message m) db h = kept-Unique db (step s (message m) db) (message-Keeps m db) h
    step-Unique (scan_parent_shard unlocked rows) db h =
        let pks =
          select_chosen unlocked (debtor_ids (select_rows (belongs_to_parent_shard s) rows))
            (λ _. true) db in
        kept-Unique db (step s (scan_parent_shard unlocked rows) db) (delete_all-Keeps pks db) h
    step-Unique (scan_inactive unlocked rows current_ts) db h =
        let test = not_activated_for_long_time s current_ts in
        let pks = select_chosen unlocked (debtor_ids (select_rows test rows)) test db in
        kept-Unique db (step s (scan_inactive unlocked rows current_ts) db)
          (delete_all-Keeps pks db) h
    step-Unique (scan_config unlocked rows current_ts) db h =
        kept-Unique db (step s (scan_config unlocked rows current_ts) db)
          (update-Fewer _ _ db.debtors (λ d e. refl)) h
    step-Unique (flush present e) db h = elim (Bool-cases (violates_key present db (step s e db))) [
      | inl taken ↦ rw taken h
      | inr free ↦ rw free (step-Unique e db h)
    ]

    -- In every database that a sequence of transactions reaches from an empty one, a debtor has at
    -- most one row.
    pub run-Unique :
        (es : List Event) (clock : ℕ → Timestamp) → Unique (run s es (empty clock)).debtors
    unfolding count
    run-Unique es clock =
        run_induction s (λ db. Unique db.debtors) step-Unique es (empty clock) (λ k. omega arith)
