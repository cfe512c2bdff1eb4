-- ===== src/Web/OtherDebtors.antt =====
-- The procedures behind the requests of a debtor change nothing of the other debtors.
use swpt_debtors.Prelude.{
  ℕ, ◌+◌, ◌≡◌, refl, ap, ◌∙◌, true, false, Option, none, some, List, String, ◌==◌, nat_Eq, int_Eq,
  int_eq_iff, ℤ, inl, inr, Bool-cases, Option-cases, arith,
}
use swpt_debtors.Platform.{Platform}
use swpt_debtors.Models.{Database, Debtor, is_active, is_settled}
use swpt_debtors.Store.{debtor_row, put_debtor, transfer_row, count_uuid}
use swpt_debtors.Store.DebtorLaws.{debtor_row-id, debtor_row-put, debtor_row-uncount}
use swpt_debtors.Store.TransferLaws.{transfer_row-key}
use swpt_debtors.Store.OtherLaws.{
  transfers_of, transfers_of-append, transfers_of-put, transfers_of-delete,
}
use swpt_debtors.Procedures.Debtors.{only_active}
use swpt_debtors.Procedures.Config.{update_debtor_config}
use swpt_debtors.Procedures.Documents.{save_document}
use swpt_debtors.Procedures.Transfers.{
  TransferData, initiate_running_transfer, cancel_running_transfer, delete_running_transfer,
}
use swpt_debtors.System.{committed}
use swpt_debtors.Behaviour.Initiation.{
  refusal, debtor_refusal, initiate_refused, initiate_found, initiated, charged,
  fields_of_initiated,
}
use swpt_debtors.Behaviour.Cancellation.{cancelled, cancel_refused, cancel_unsettled}
use swpt_debtors.Invariants.Edits.{write, edit, KeepsCount}
use swpt_debtors.Invariants.Outcomes.{Edits}
use swpt_debtors.Invariants.Steps.{fields_of_charged}
use swpt_debtors.Invariants.Written.{cancel-Written}
use swpt_debtors.Invariants.Rows.{
  configured, update_config-Edits, configured-KeepsCount, with_document, save_document-Edits,
  with_document-KeepsCount,
}

-- The rows and the transfers of all debtors but one are as before.
abbrev pub OnlyOf : ℤ → Database → Database → Type 0
OnlyOf k db db' =
    (j : ℤ)
    → (j == k) ≡ false
    → (debtor_row j db'.debtors ≡ debtor_row j db.debtors)
      × (transfers_of j db'.running_transfers ≡ transfers_of j db.running_transfers)

pub same-OnlyOf : (k : ℤ) (db : Database) → OnlyOf k db db
same-OnlyOf k db j other = (refl, refl)

put_other :
    (j k : ℤ) (d : Debtor) (ds : List Debtor)
    → d.debtor_id ≡ k
    → (j == k) ≡ false
    → debtor_row j (put_debtor d ds) ≡ debtor_row j ds
put_other j k d ds key other =
    ground (arith, debtor_row-put j d ds, key, other, int_eq_iff d.debtor_id j, int_eq_iff j k)

edit_other :
    (j k : ℤ) (f : Debtor → Option Debtor) (ds : List Debtor)
    → ((d : Debtor) → KeepsCount d (f d))
    → (j == k) ≡ false
    → debtor_row j (edit (debtor_row k ds) f ds) ≡ debtor_row j ds
edit_other j k f ds keep other = go (debtor_row k ds) refl
  where
    put :
        (d : Debtor) (o : Option Debtor)
        → d.debtor_id ≡ k
        → KeepsCount d o
        → debtor_row j (write o ds) ≡ debtor_row j ds
    put d none key same = refl
    put d (some d') key same = put_other j k d' ds (same.0 ∙ key) other

    go : (o : Option Debtor) → debtor_row k ds ≡ o → debtor_row j (edit o f ds) ≡ debtor_row j ds
    go none row = refl
    go (some d) row = put d (f d) (debtor_row-id k ds d row) (keep d)

Edits-OnlyOf :
    (k : ℤ) (f : Debtor → Option Debtor) (db db' : Database)
    → Edits k f db db'
    → ((d : Debtor) → KeepsCount d (f d))
    → OnlyOf k db db'
Edits-OnlyOf k f db db' (rows, transfers) keep j other =
    (ap (debtor_row j) rows ∙ edit_other j k f db.debtors keep other, ap (transfers_of j) transfers)

pub initiate-OnlyOf :
    (k : ℤ) (uuid : ℕ) (t : TransferData) (limit : ℕ) (db : Database)
    → OnlyOf k db (committed (initiate_running_transfer k uuid t limit db) db)
initiate-OnlyOf k uuid t limit db =
    let now = db.clock db.readings in
    let running = transfer_row k uuid db.running_transfers in
    elim (Option-cases (refusal running (only_active (debtor_row k db.debtors)) t limit now)) [
      | inr (e, refused) ↦ rw (initiate_refused k uuid t limit db e refused) (same-OnlyOf k db)
      | inl fits ↦ elim (Option-cases (debtor_row k db.debtors)) [
        | inl vacant ↦ absurd (ground (arith, fits, vacant))
        | inr (d, row) ↦
            let free : running ≡ none = ground (arith, fits) in
            let active : is_active d ≡ true = ground (arith, fits, row) in
            let within : debtor_refusal (some d) limit now ≡ none = ground (arith, fits, row) in
            let done = initiate_found k uuid t limit d db free row active within in
            let key : (charged now d).debtor_id ≡ k =
              (fields_of_charged now d).0 ∙ debtor_row-id k db.debtors d row in
            λ j other. (
              ap (debtor_row j) done.2 ∙ put_other j k (charged now d) db.debtors key other,
              ap (transfers_of j) done.1
                  ∙ transfers_of-append j k other db.running_transfers (initiated k uuid t db)
                      (fields_of_initiated k uuid t db).0,
            )
      ]
    ]

pub cancel-OnlyOf :
    (k : ℤ) (uuid : ℕ) (db : Database)
    → OnlyOf k db (committed (cancel_running_transfer k uuid db) db)
cancel-OnlyOf k uuid db = elim (Option-cases (transfer_row k uuid db.running_transfers)) [
  | inl absent ↦ rw (cancel_refused k uuid db (ground (arith, absent))) (same-OnlyOf k db)
  | inr (rt, row) ↦ elim (Bool-cases (is_settled rt)) [
    | inl settled ↦ rw (cancel_refused k uuid db (ground (arith, row, settled))) (same-OnlyOf k db)
    | inr unsettled ↦
        let rt' = cancelled rt (db.clock db.readings) in
        let key : rt'.debtor_id ≡ k =
          ground (arith, (transfer_row-key k uuid db.running_transfers rt row).0) in
        λ j other. (
          ap (debtor_row j) (cancel-Written k uuid db).0,
          ap (transfers_of j) (cancel_unsettled k uuid db rt row unsettled).1
              ∙ transfers_of-put j k other rt' db.running_transfers key,
        )
  ]
]

pub delete-OnlyOf :
    (k : ℤ) (uuid : ℕ) (db : Database)
    → OnlyOf k db (committed (delete_running_transfer k uuid db) db)
unfolding delete_running_transfer
delete-OnlyOf k uuid db j other = elim (Bool-cases (count_uuid k uuid db.running_transfers == 1)) [
  | inr several ↦ (ground (arith, several), ground (arith, several))
  | inl one ↦ (
    ground (arith, one, other, int_eq_iff k j, int_eq_iff j k, debtor_row-uncount j k db.debtors),
    ground (arith, one, transfers_of-delete j k other uuid db.running_transfers),
  )
]

module _ ⦃p : Platform⦄ where
  pub update_config-OnlyOf :
      (k : ℤ) (config_data : String) (latest limit : ℕ) (db : Database)
      → OnlyOf k db (committed (update_debtor_config k config_data latest limit db) db)
  update_config-OnlyOf k config_data latest limit db =
      let now = db.clock db.readings in
      let later = db.clock (db.readings + 1) in
      Edits-OnlyOf k (configured config_data latest limit now later) db
        (committed (update_debtor_config k config_data latest limit db) db)
        (update_config-Edits k config_data latest limit db)
        (configured-KeepsCount config_data latest limit now later)

  pub save_document-OnlyOf :
      (k : ℤ) (content_type : String) (content : List ℕ) (limit : ℕ) (db : Database)
      → OnlyOf k db (committed (save_document k content_type content limit db) db)
  save_document-OnlyOf k content_type content limit db =
      let now = db.clock db.readings in
      Edits-OnlyOf k (with_document limit now) db
        (committed (save_document k content_type content limit db) db)
        (save_document-Edits k content_type content limit db) (with_document-KeepsCount limit now)
