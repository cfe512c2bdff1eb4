-- ===== src/Invariants/SilentChanges.antt =====
-- The transactions that leave the announced configurations as they are.
use swpt_debtors.Prelude.{
  ℕ, ◌≡◌, refl, sym, Bool, true, false, Option, none, some, List, [], ◌∷◌, ◌++◌, String, ◌==◌,
  string_Eq, int_Eq, ℤ, inl, inr, Bool-cases, Option-cases, arith, if◌then◌else◌, update_rows,
  first-update_rows, nat_Eq,
}
use mathlib.Core.Path.{subst}
use mathlib.Core.Option
use swpt_debtors.Platform.{Platform, Timestamp}
use swpt_debtors.Models.{Database, Debtor, ConfigureAccountSignal, is_active}
use swpt_debtors.Models.Flags.{is_active-eq}
use swpt_debtors.Store.{debtor_row, put_debtor, count_uuid, transfer_row, uncount_transfer}
use swpt_debtors.Store.DebtorLaws.{debtor_row-append, debtor_row-remove, uncounted}
use swpt_debtors.Procedures.Debtors.{reserve_debtor, only_active}
use swpt_debtors.Procedures.Config.{reset_actions, reset_documents}
use swpt_debtors.Procedures.Documents.{save_document}
use swpt_debtors.Procedures.Transfers.{
  TransferData, initiate_running_transfer, refuse_if_initiated, cancel_running_transfer,
  delete_running_transfer,
}
use swpt_debtors.Procedures.Incoming.{
  process_rejected_config_signal, process_account_purge_signal, without_account,
}
use swpt_debtors.Procedures.Messages.{RejectedConfig, AccountPurge}
use swpt_debtors.Scanner.{delete_all, delete_debtor}
use swpt_debtors.System.{committed}
use swpt_debtors.Behaviour.Activation.{reserved, reserve_found, reserve_taken, fields_of_reserved}
use swpt_debtors.Behaviour.Initiation.{
  charged, debtor_refusal, refusal, initiate_refused, initiate_found,
}
use swpt_debtors.Invariants.Rows.{
  rejected, rejected_config-Edits, purged, purge-Edits, with_document, save_document-Edits,
}
use swpt_debtors.Invariants.Announcements.{
  last_signal, RowAnnounced, TableAnnounced, IsAnnounced, Silent, keep_row, put_silently,
  tables-IsAnnounced, same-IsAnnounced, Edits-IsAnnounced,
}

module _ ⦃p : Platform⦄ where
  -- The same silent change of the rows that pass a test
  pub keep_rows :
      (q : Debtor → Bool) (f : Debtor → Debtor) (ds : List Debtor)
      (xs : List ConfigureAccountSignal)
      → ((d : Debtor) → Silent d (some (f d)))
      → TableAnnounced ds xs
      → TableAnnounced (update_rows q f ds) xs
  unfolding debtor_row
  keep_rows q f ds xs keep h k =
      subst (λ o. RowAnnounced o (last_signal k xs))
        (sym (first-update_rows (λ d. d.debtor_id == k) q f ds (λ d _. rw (keep d).0 refl)))
        (go (debtor_row k ds) (h k))
    where
      changed :
          (d : Debtor) (b : Bool)
          → RowAnnounced (some d) (last_signal k xs)
          → RowAnnounced (some (if b then f d else d)) (last_signal k xs)
      changed d true old = keep_row d (f d) (last_signal k xs) (keep d) old
      changed d false old = old

      go :
          (o : Option Debtor)
          → RowAnnounced o (last_signal k xs)
          → RowAnnounced (Option.map (λ d. if q d then f d else d) o) (last_signal k xs)
      go none old = tt
      go (some d) old = changed d (q d) old

  idle-reserved : (k : ℤ) (db : Database) → is_active (reserved k db) ≡ false
  idle-reserved k db = ground (arith, is_active-eq (reserved k db), fields_of_reserved k db)

  reserve_signals :
      (k : ℤ) (db : Database)
      → (committed (reserve_debtor k db) db).configure_account_signals
        ≡ db.configure_account_signals
  unfolding reserve_debtor
  reserve_signals k db = ground arith

  add_idle :
      (d : Debtor) (ds : List Debtor) (xs : List ConfigureAccountSignal)
      → is_active d ≡ false
      → TableAnnounced ds xs
      → TableAnnounced (ds ++ d ∷ []) xs
  add_idle d ds xs idle h k = elim (Option-cases (debtor_row k ds)) [
    | inl vacant ↦
        rw (debtor_row-append k ds d, vacant)
          (elim (Bool-cases (d.debtor_id == k)) [
            | inl e ↦ rw e (λ active. absurd (ground (arith, idle, active)))
            | inr e ↦ rw e tt
          ])
    | inr (x, taken) ↦
        let law : debtor_row k (ds ++ d ∷ []) ≡ debtor_row k ds =
          ground (arith, debtor_row-append k ds d, taken) in
        subst (λ o. RowAnnounced o (last_signal k xs)) (sym law) (h k)
  ]

  pub reserve-IsAnnounced :
      (k : ℤ) (db : Database) → IsAnnounced db → IsAnnounced (committed (reserve_debtor k db) db)
  reserve-IsAnnounced k db h = elim (Option-cases (debtor_row k db.debtors)) [
    | inr (d, row) ↦ rw (reserve_taken k d db row) h
    | inl free ↦
        tables-IsAnnounced (db.debtors ++ reserved k db ∷ []) db.configure_account_signals
          (committed (reserve_debtor k db) db) (reserve_found k db free).1 (reserve_signals k db)
          (add_idle (reserved k db) db.debtors db.configure_account_signals (idle-reserved k db) h)
  ]

  charged-Silent : (now : Timestamp) (d : Debtor) → Silent d (some (charged now d))
  unfolding reset_actions is_active
  charged-Silent now d = ground arith

  initiate_signals :
      (k : ℤ) (uuid : ℕ) (t : TransferData) (limit : ℕ) (d : Debtor) (db : Database)
      → transfer_row k uuid db.running_transfers ≡ none
      → debtor_row k db.debtors ≡ some d
      → is_active d ≡ true
      → debtor_refusal (some d) limit (db.clock db.readings) ≡ none
      → (committed (initiate_running_transfer k uuid t limit db) db).configure_account_signals
        ≡ db.configure_account_signals
  unfolding initiate_running_transfer refuse_if_initiated
  initiate_signals k uuid t limit d db free row active within = ground arith

  pub initiate-IsAnnounced :
      (k : ℤ) (uuid : ℕ) (t : TransferData) (limit : ℕ) (db : Database)
      → IsAnnounced db
      → IsAnnounced (committed (initiate_running_transfer k uuid t limit db) db)
  initiate-IsAnnounced k uuid t limit db h =
      let now = db.clock db.readings in
      let running = transfer_row k uuid db.running_transfers in
      elim (Option-cases (refusal running (only_active (debtor_row k db.debtors)) t limit now)) [
        | inr (e, refused) ↦ rw (initiate_refused k uuid t limit db e refused) h
        | inl fits ↦ elim (Option-cases (debtor_row k db.debtors)) [
          | inl vacant ↦ absurd (ground (arith, fits, vacant))
          | inr (d, row) ↦
              let free : running ≡ none = ground (arith, fits) in
              let active : is_active d ≡ true = ground (arith, fits, row) in
              let within : debtor_refusal (some d) limit now ≡ none = ground (arith, fits, row) in
              tables-IsAnnounced (put_debtor (charged now d) db.debtors)
                db.configure_account_signals
                (committed (initiate_running_transfer k uuid t limit db) db)
                (initiate_found k uuid t limit d db free row active within).2
                (initiate_signals k uuid t limit d db free row active within)
                (put_silently k d (charged now d) db.debtors db.configure_account_signals row
                  (charged-Silent now d) h)
        ]
      ]

  uncounted-Silent : (d : Debtor) → Silent d (some (uncounted d))
  unfolding is_active
  uncounted-Silent d = ground arith

  pub delete-IsAnnounced :
      (k : ℤ) (uuid : ℕ) (db : Database)
      → IsAnnounced db
      → IsAnnounced (committed (delete_running_transfer k uuid db) db)
  unfolding delete_running_transfer
  delete-IsAnnounced k uuid db h =
      let db' = committed (delete_running_transfer k uuid db) db in
      elim (Bool-cases (count_uuid k uuid db.running_transfers == 1)) [
        | inr other ↦ same-IsAnnounced db db' (ground (arith, other)) (ground (arith, other)) h
        | inl one ↦
            tables-IsAnnounced (uncount_transfer k db.debtors) db.configure_account_signals db'
              (ground (arith, one)) (ground (arith, one))
              (unfold uncount_transfer in
                keep_rows (λ d. d.debtor_id == k) uncounted db.debtors db.configure_account_signals
                  uncounted-Silent h)
      ]

  pub delete_all-IsAnnounced :
      (pks : List ℤ) (db : Database) → IsAnnounced db → IsAnnounced (delete_all pks db)
  unfolding delete_all
  delete_all-IsAnnounced [] db h = h
  delete_all-IsAnnounced (j ∷ js) db h = delete_all-IsAnnounced js (delete_debtor j db) (
      unfold delete_debtor in
      λ k.
        rw (debtor_row-remove k j db.debtors)
          (elim (Bool-cases (j == k)) [ inl e ↦ rw e tt | inr e ↦ rw e (h k) ]))

  rejected-Silent : (m : RejectedConfig) (d : Debtor) → Silent d (rejected m d)
  unfolding is_active
  rejected-Silent m d = ground arith

  purged-Silent : (m : AccountPurge) (d : Debtor) → Silent d (purged m d)
  unfolding is_active without_account
  purged-Silent m d = ground arith

  with_document-Silent :
      (limit : ℕ) (now : Timestamp) (d : Debtor) → Silent d (with_document limit now d)
  unfolding is_active reset_documents
  with_document-Silent limit now d = ground arith

  pub rejected_config-IsAnnounced :
      (m : RejectedConfig) (db : Database)
      → IsAnnounced db
      → IsAnnounced (committed (process_rejected_config_signal m db) db)
  unfolding process_rejected_config_signal
  rejected_config-IsAnnounced m db =
      Edits-IsAnnounced m.debtor_id (rejected m) db
        (committed (process_rejected_config_signal m db) db) (rejected_config-Edits m db)
        (ground arith) (rejected-Silent m)

  pub purge-IsAnnounced :
      (m : AccountPurge) (db : Database)
      → IsAnnounced db
      → IsAnnounced (committed (process_account_purge_signal m db) db)
  unfolding process_account_purge_signal
  purge-IsAnnounced m db =
      Edits-IsAnnounced m.debtor_id (purged m) db (committed (process_account_purge_signal m db) db)
        (purge-Edits m db) (ground arith) (purged-Silent m)

  pub save_document-IsAnnounced :
      (k : ℤ) (content_type : String) (content : List ℕ) (limit : ℕ) (db : Database)
      → IsAnnounced db
      → IsAnnounced (committed (save_document k content_type content limit db) db)
  unfolding save_document
  save_document-IsAnnounced k content_type content limit db =
      let now = db.clock db.readings in
      Edits-IsAnnounced k (with_document limit now) db
        (committed (save_document k content_type content limit db) db)
        (save_document-Edits k content_type content limit db) (ground arith)
        (with_document-Silent limit now)

  pub cancel_signals :
      (k : ℤ) (uuid : ℕ) (db : Database)
      → (committed (cancel_running_transfer k uuid db) db).configure_account_signals
        ≡ db.configure_account_signals
  unfolding cancel_running_transfer
  cancel_signals k uuid db = ground arith
