-- ===== src/Invariants/Steps.antt =====
-- How the procedures that add and delete transfers and debtors keep the counters of running
-- transfers.
use swpt_debtors.Prelude.{
  ℕ, ◌+◌, ◌≡◌, refl, sym, ap, ◌∙◌, true, false, none, some, List, [], ◌∷◌, ◌++◌, ◌==◌, nat_Eq,
  int_Eq, ℤ, pos, ◌+ℤ◌, inl, inr, Bool-cases, Option-cases, arith,
}
use mathlib.Core.Path.{subst₂}
use swpt_debtors.Platform.{Platform, Timestamp}
use swpt_debtors.Models.{Database, Debtor, RunningTransfer, is_active}
use swpt_debtors.Store.{
  debtor_row, put_debtor, count_of, count_uuid, uncount_transfer, delete_transfer, transfer_row,
  delete_transfers_of,
}
use swpt_debtors.Store.DebtorLaws.{debtor_row-id}
use swpt_debtors.Procedures.Config.{reset_actions}
use swpt_debtors.Procedures.Debtors.{
  reserve_debtor, deactivate_debtor, get_active_debtor, only_active,
}
use swpt_debtors.Procedures.Transfers.{
  TransferData, initiate_running_transfer, delete_running_transfer,
}
use swpt_debtors.Scanner.{delete_debtor, delete_all}
use swpt_debtors.System.{committed}
use swpt_debtors.Behaviour.Activation.{reserve_taken, reserved, reserve_found, fields_of_reserved}
use swpt_debtors.Behaviour.Deactivation.{
  deactivate_again, deactivate_found, deactivated, fields_of_deactivated,
}
use swpt_debtors.Behaviour.Initiation.{
  refusal, debtor_refusal, initiate_refused, initiate_found, initiated, charged,
  fields_of_initiated,
}
use swpt_debtors.Invariants.Edits.{CountsRow, Counts}
use swpt_debtors.Invariants.Transactions.{
  add_debtor-Counts, remove_debtor-Counts, clear-Counts, add_transfer-Counts,
  delete_transfer-Counts,
}

abbrev pub Consistent : Database → Type 0
Consistent db = Counts db.debtors db.running_transfers

pub tables-Consistent :
    (ds : List Debtor) (ts : List RunningTransfer) (db : Database)
    → db.debtors ≡ ds
    → db.running_transfers ≡ ts
    → Counts ds ts
    → Consistent db
tables-Consistent ds ts db rows transfers h k =
    subst₂ (λ ds' ts'. CountsRow (debtor_row k ds') (count_of k ts')) (sym rows) (sym transfers)
      (h k)

pub delete_all-Consistent :
    (pks : List ℤ) (db : Database) → Consistent db → Consistent (delete_all pks db)
unfolding delete_all
delete_all-Consistent [] db h = h
delete_all-Consistent (j ∷ js) db h =
    delete_all-Consistent js (delete_debtor j db)
      (unfold delete_debtor in remove_debtor-Counts j db.debtors db.running_transfers h)

deleted_one :
    (j : ℤ) (uuid : ℕ) (db : Database)
    → count_uuid j uuid db.running_transfers ≡ 1
    → let db' = committed (delete_running_transfer j uuid db) db in
      (db'.debtors ≡ uncount_transfer j db.debtors)
      × (db'.running_transfers ≡ delete_transfer j uuid db.running_transfers)
unfolding delete_running_transfer
deleted_one j uuid db one = (rw one refl, rw one refl)

deleted_none :
    (j : ℤ) (uuid : ℕ) (db : Database)
    → (count_uuid j uuid db.running_transfers == 1) ≡ false
    → committed (delete_running_transfer j uuid db) db ≡ db
unfolding delete_running_transfer
deleted_none j uuid db other = ground (arith, other)

pub delete-Consistent :
    (j : ℤ) (uuid : ℕ) (db : Database)
    → Consistent db
    → Consistent (committed (delete_running_transfer j uuid db) db)
delete-Consistent j uuid db h = elim (Bool-cases (count_uuid j uuid db.running_transfers == 1)) [
  | inl e ↦
      let one : count_uuid j uuid db.running_transfers ≡ 1 = ground (arith, e) in
      let done = deleted_one j uuid db one in
      tables-Consistent (uncount_transfer j db.debtors)
        (delete_transfer j uuid db.running_transfers)
        (committed (delete_running_transfer j uuid db) db) done.0 done.1
        (delete_transfer-Counts j uuid db.debtors db.running_transfers one h)
  | inr e ↦ rw (deleted_none j uuid db e) h
]

pub fields_of_charged :
    (now : Timestamp) (d : Debtor)
    → ((charged now d).debtor_id ≡ d.debtor_id)
      × (is_active (charged now d) ≡ is_active d)
      × ((charged now d).running_transfers_count ≡ d.running_transfers_count +ℤ pos 1)
unfolding reset_actions is_active
fields_of_charged now d = (ground arith, ground arith, ground arith)

pub initiate-Consistent :
    (k : ℤ) (uuid : ℕ) (t : TransferData) (limit : ℕ) (db : Database)
    → Consistent db
    → Consistent (committed (initiate_running_transfer k uuid t limit db) db)
initiate-Consistent k uuid t limit db h =
    let now = db.clock db.readings in
    let running = transfer_row k uuid db.running_transfers in
    elim (Option-cases (refusal running (only_active (debtor_row k db.debtors)) t limit now)) [
      | inr (e, refused) ↦ rw (initiate_refused k uuid t limit db e refused) h
      | inl fits ↦ elim (Option-cases (debtor_row k db.debtors)) [
        | inl vacant ↦ absurd (ground (arith, fits, vacant))
        | inr (d, row) ↦
            let free : running ≡ none = ground (arith, fits) in
            let active : is_active d ≡ true = ground (arith, fits, row) in
            let within : debtor_refusal (some d) limit now ≡ none = ground (arith, fits, row) in
            let rt = initiated k uuid t db in
            let done = initiate_found k uuid t limit d db free row active within in
            let fields = fields_of_charged now d in
            tables-Consistent (put_debtor (charged now d) db.debtors)
              (db.running_transfers ++ rt ∷ [])
              (committed (initiate_running_transfer k uuid t limit db) db) done.2 done.1
              (add_transfer-Counts k d (charged now d) rt db.debtors db.running_transfers row
                (fields.0 ∙ debtor_row-id k db.debtors d row) (fields_of_initiated k uuid t db).0
                (fields.1 ∙ active) fields.2 h)
      ]
    ]

pub found_active :
    (k : ℤ) (d : Debtor) (db : Database)
    → get_active_debtor k db ≡ some d
    → (debtor_row k db.debtors ≡ some d) × (is_active d ≡ true)
unfolding get_active_debtor
found_active k d db h = (ground (arith, h), ground (arith, h))

module _ ⦃p : Platform⦄ where
  pub reserve-Consistent :
      (k : ℤ) (db : Database) → Consistent db → Consistent (committed (reserve_debtor k db) db)
  reserve-Consistent k db h = elim (Option-cases (debtor_row k db.debtors)) [
    | inl free ↦
        let made = reserve_found k db free in
        let fields = fields_of_reserved k db in
        let vacant : debtor_row (reserved k db).debtor_id db.debtors ≡ none =
          ap (λ i. debtor_row i db.debtors) fields.0 ∙ free in
        tables-Consistent (db.debtors ++ reserved k db ∷ []) db.running_transfers
          (committed (reserve_debtor k db) db) made.1 made.2
          (add_debtor-Counts (reserved k db) db.debtors db.running_transfers vacant fields.4 h)
    | inr (d, row) ↦ rw (reserve_taken k d db row) h
  ]

  pub deactivate-Consistent :
      (k : ℤ) (db : Database) → Consistent db → Consistent (committed (deactivate_debtor k db) db)
  deactivate-Consistent k db h = elim (Option-cases (get_active_debtor k db)) [
    | inl idle ↦ rw (deactivate_again k db idle) h
    | inr (d, found) ↦
        let active = found_active k d db found in
        let ts = db.clock db.readings in
        let config_ts = db.clock (db.readings + 1) in
        let d' = deactivated ts config_ts d in
        let done = deactivate_found k d db active.0 active.1 in
        let fields = fields_of_deactivated ts config_ts d in
        tables-Consistent (put_debtor d' db.debtors)
          (delete_transfers_of d'.debtor_id db.running_transfers)
          (committed (deactivate_debtor k db) db) done.0 done.1
          (clear-Counts k d d' db.debtors db.running_transfers active.0
            (fields.0 ∙ debtor_row-id k db.debtors d active.0) fields.2 h)
  ]
