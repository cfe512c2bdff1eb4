-- ===== src/Invariants/Rows.antt =====
-- What the procedures that edit one debtor's row leave in the table.
use swpt_debtors.Prelude.{
  ℕ, ◌+◌, ◌≡◌, refl, not, ◌&&◌, ◌||◌, ◌*◌, Option, none, some, List, String, ◌==◌, nat_Eq,
  string_Eq, int_Eq, ℤ, leb, ltb, arith, if◌then◌else◌,
}
use swpt_debtors.Platform.{Platform, Timestamp}
use swpt_debtors.Models.{
  Database, Debtor, is_active, is_activated, activate, root_creditor_id, microseconds_per_second,
}
use swpt_debtors.Models.Flags.{is_active-eq}
use swpt_debtors.Procedures.Decimal.{str_of_id}
use swpt_debtors.Procedures.Signalling.{next_config}
use swpt_debtors.Procedures.Debtors.{activate_debtor}
use swpt_debtors.Procedures.Config.{reset_actions, reset_documents, update_debtor_config}
use swpt_debtors.Procedures.Documents.{save_document}
use swpt_debtors.Procedures.Incoming.{
  has_rejected_config, without_account, process_rejected_config_signal,
  process_account_purge_signal,
}
use swpt_debtors.Procedures.AccountUpdate.{
  heartbeat, is_old_event, apply_account_update, update_account, process_account_update_signal,
}
use swpt_debtors.Procedures.Messages.{RejectedConfig, AccountPurge, AccountUpdate}
use swpt_debtors.System.{committed}
use swpt_debtors.Invariants.Edits.{KeepsCount}
use swpt_debtors.Invariants.Outcomes.{Edits}

module _ ⦃p : Platform⦄ where
  abbrev pub rejected : RejectedConfig → Debtor → Option Debtor
  rejected m d =
      if m.creditor_id == root_creditor_id && has_rejected_config m d
      then some (record d { config_error = some m.rejection_code })
      else none

  pub rejected_config-Edits :
      (m : RejectedConfig) (db : Database)
      → Edits m.debtor_id (rejected m) db (committed (process_rejected_config_signal m db) db)
  unfolding process_rejected_config_signal
  rejected_config-Edits m db = (ground arith, ground arith)

  abbrev pub purged : AccountPurge → Debtor → Option Debtor
  purged m d =
      if m.creditor_id == root_creditor_id
        && (d.has_server_account && leb d.account_creation_date m.creation_date)
      then some (without_account d)
      else none

  pub purge-Edits :
      (m : AccountPurge) (db : Database)
      → Edits m.debtor_id (purged m) db (committed (process_account_purge_signal m db) db)
  unfolding process_account_purge_signal
  purge-Edits m db = (ground arith, ground arith)

  abbrev pub activated_by : String → Timestamp → Debtor → Option Debtor
  activated_by reservation_id now d =
      if reservation_id == str_of_id d.reservation_id && not (is_activated d)
      then some (next_config now (activate d))
      else none

  pub activate-Edits :
      (k : ℤ) (reservation_id : String) (db : Database)
      → Edits k
          (activated_by reservation_id (db.clock db.readings))
          db
          (committed (activate_debtor k reservation_id db) db)
  unfolding activate_debtor
  activate-Edits k reservation_id db = (ground arith, ground arith)

  abbrev pub configured : String → ℕ → ℕ → Timestamp → Timestamp → Debtor → Option Debtor
  configured config_data latest limit current_ts now d =
      let r = reset_actions current_ts d in
      let t = record r { actions_count = r.actions_count + 1 } in
      if is_active d && not (leb limit r.actions_count)
      then (if latest == t.config_latest_update_id && t.config_data == config_data
          then some t
          else if latest == t.config_latest_update_id + 1
          then some (
              next_config now
                (record t { config_latest_update_id = latest; config_data = config_data }))
          else none)
      else none

  pub update_config-Edits :
      (k : ℤ) (config_data : String) (latest limit : ℕ) (db : Database)
      → Edits k
          (configured config_data latest limit (db.clock db.readings) (db.clock (db.readings + 1)))
          db
          (committed (update_debtor_config k config_data latest limit db) db)
  unfolding update_debtor_config
  update_config-Edits k config_data latest limit db = (ground arith, ground arith)

  abbrev pub with_document : ℕ → Timestamp → Debtor → Option Debtor
  with_document limit current_ts d =
      let r = reset_documents current_ts d in
      if is_active d && not (leb limit r.documents_count)
      then some (record r { documents_count = r.documents_count + 1 })
      else none

  pub save_document-Edits :
      (k : ℤ) (content_type : String) (content : List ℕ) (limit : ℕ) (db : Database)
      → Edits k
          (with_document limit (db.clock db.readings))
          db
          (committed (save_document k content_type content limit db) db)
  unfolding save_document
  save_document-Edits k content_type content limit db = (ground arith, ground arith)

  abbrev pub updated : AccountUpdate → Timestamp → Debtor → Option Debtor
  updated m current_ts d =
      let h = heartbeat m.ts current_ts d in
      if not (m.creditor_id == root_creditor_id)
        || (ltb (m.ts + m.ttl * microseconds_per_second) current_ts || not (is_active d))
      then none
      else if is_old_event m h
      then some h
      else if leb h.account_creation_date m.creation_date
      then some (apply_account_update m h)
      else none

  pub account_update-Edits :
      (m : AccountUpdate) (db : Database)
      → Edits m.debtor_id
          (updated m (db.clock db.readings))
          db
          (committed (process_account_update_signal m db) db)
  unfolding process_account_update_signal update_account
  account_update-Edits m db = (ground arith, ground arith)

  pub rejected-KeepsCount : (m : RejectedConfig) (d : Debtor) → KeepsCount d (rejected m d)
  unfolding is_active
  rejected-KeepsCount m d = ground arith

  pub purged-KeepsCount : (m : AccountPurge) (d : Debtor) → KeepsCount d (purged m d)
  unfolding is_active without_account
  purged-KeepsCount m d = ground arith

  pub with_document-KeepsCount :
      (limit : ℕ) (now : Timestamp) (d : Debtor) → KeepsCount d (with_document limit now d)
  unfolding is_active reset_documents
  with_document-KeepsCount limit now d = ground arith

  pub configured-KeepsCount :
      (config_data : String) (latest limit : ℕ) (current_ts now : Timestamp) (d : Debtor)
      → KeepsCount d (configured config_data latest limit current_ts now d)
  unfolding is_active reset_actions next_config
  configured-KeepsCount config_data latest limit current_ts now d = ground arith

  pub updated-KeepsCount :
      (m : AccountUpdate) (now : Timestamp) (d : Debtor) → KeepsCount d (updated m now d)
  unfolding is_active heartbeat apply_account_update
  updated-KeepsCount m now d = ground arith

  fields_of_activated :
      (now : Timestamp) (d : Debtor)
      → let d' = next_config now (activate d) in
        (d'.debtor_id ≡ d.debtor_id)
        × (d'.running_transfers_count ≡ d.running_transfers_count)
        × (is_active d' ≡ is_active (activate d))
  unfolding next_config activate is_active
  fields_of_activated now d = (refl, refl, refl)

  pub activated_by-KeepsCount :
      (reservation_id : String) (now : Timestamp) (d : Debtor)
      → KeepsCount d (activated_by reservation_id now d)
  activated_by-KeepsCount reservation_id now d =
      ground (arith, fields_of_activated now d, is_active-eq d)
