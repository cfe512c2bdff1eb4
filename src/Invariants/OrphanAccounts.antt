-- ===== src/Invariants/OrphanAccounts.antt =====
-- The updates of accounts with and without an active debtor, and what they announce.
use swpt_debtors.Prelude.{
  ◌+◌, ◌*◌, ltb, ◌≡◌, ◌⊎◌, refl, sym, ap, ◌∙◌, false, not, none, some, [], ◌∷◌, ◌++◌, ◌==◌, nat_Eq,
  string_Eq, int_Eq, ℤ, pos, bit_or, inl, inr, Bool-cases, Option-cases, arith,
}
use swpt_debtors.Platform.{Platform, Timestamp}
use swpt_debtors.Models.{
  Database, Debtor, ConfigureAccountSignal, is_active, root_creditor_id, microseconds_per_second,
  default_config_flags, config_scheduled_for_deletion_flag,
}
use swpt_debtors.Store.{debtor_row}
use swpt_debtors.Procedures.Signalling.{is_already_discarded}
use swpt_debtors.Procedures.Debtors.{get_active_debtor}
use swpt_debtors.Procedures.AccountUpdate.{
  process_account_update_signal, update_account, heartbeat, apply_account_update,
}
use swpt_debtors.Procedures.Messages.{AccountUpdate}
use swpt_debtors.System.{committed}
use swpt_debtors.Invariants.Rows.{updated, account_update-Edits}
use swpt_debtors.Invariants.Announcements.{
  IsAnnounced, Silent, same-IsAnnounced, Edits-IsAnnounced, orphan_told, tables-IsAnnounced,
}

module _ ⦃p : Platform⦄ where
  updated-Silent : (m : AccountUpdate) (now : Timestamp) (d : Debtor) → Silent d (updated m now d)
  unfolding is_active heartbeat apply_account_update
  updated-Silent m now d = ground arith

  not_active :
      (k : ℤ) (d : Debtor) (db : Database)
      → get_active_debtor k db ≡ none
      → debtor_row k db.debtors ≡ some d
      → is_active d ≡ false
  unfolding get_active_debtor
  not_active k d db idle row = ground (arith, idle, row)

  unmoved :
      (m : AccountUpdate) (db : Database)
      → get_active_debtor m.debtor_id db ≡ none
      → (committed (process_account_update_signal m db) db).debtors ≡ db.debtors
  unfolding process_account_update_signal update_account
  unmoved m db idle = ground (arith, idle)

  abbrev orphan : AccountUpdate → Timestamp → Timestamp → ConfigureAccountSignal
  orphan m ts inserted_at = record {
    debtor_id = m.debtor_id;
    ts = ts;
    seqnum = pos 0;
    config_data = "";
    config_flags = pos (bit_or default_config_flags config_scheduled_for_deletion_flag);
    negligible_amount = p.to_real p.huge_negligible_amount;
    inserted_at = inserted_at;
  }

  -- What is sent about an account without an active debtor
  pub sent :
      (m : AccountUpdate) (db : Database)
      → get_active_debtor m.debtor_id db ≡ none
      → let db' = committed (process_account_update_signal m db) db in
        (db'.configure_account_signals ≡ db.configure_account_signals)
        ⊎ ((x : ConfigureAccountSignal) × (x.debtor_id ≡ m.debtor_id)
            × (db'.configure_account_signals ≡ db.configure_account_signals ++ x ∷ [])
            × (x.ts ≡ db.clock (db.readings + 1))
            × (x.seqnum ≡ pos 0))
  unfolding process_account_update_signal update_account
  sent m db idle = elim (Bool-cases (not (m.creditor_id == root_creditor_id))) [
    | inl e ↦ inl (ground (arith, e))
    | inr e ↦
        elim (Bool-cases (ltb (m.ts + m.ttl * microseconds_per_second) (db.clock db.readings))) [
          | inl late ↦ inl (ground (arith, e, late))
          | inr timely ↦
              elim (Bool-cases (is_already_discarded m.config_flags m.negligible_amount)) [
                | inl gone ↦ inl (ground (arith, e, timely, idle, gone))
                | inr kept ↦ inr (
                  orphan m (db.clock (db.readings + 1)) (db.clock (db.readings + 1 + 1)),
                  refl,
                  ground (arith, e, timely, idle, kept),
                  refl,
                  refl,
                )
              ]
        ]
  ]

  -- The message that discards an account is not about an active debtor.
  pub account_update-IsAnnounced :
      (m : AccountUpdate) (db : Database)
      → IsAnnounced db
      → IsAnnounced (committed (process_account_update_signal m db) db)
  account_update-IsAnnounced m db h =
      let db' = committed (process_account_update_signal m db) db in
      elim (Option-cases (get_active_debtor m.debtor_id db)) [
        | inr (d, found) ↦
            Edits-IsAnnounced m.debtor_id (updated m (db.clock db.readings)) db db'
              (account_update-Edits m db)
              (unfold process_account_update_signal update_account in ground (arith, found))
              (updated-Silent m (db.clock db.readings)) h
        | inl idle ↦ elim (sent m db idle) [
          | inl signals ↦ same-IsAnnounced db db' (unmoved m db idle) signals h
          | inr (x, key, signals, _, _) ↦
              tables-IsAnnounced db.debtors (db.configure_account_signals ++ x ∷ []) db'
                (unmoved m db idle) signals
                (orphan_told x db.debtors db.configure_account_signals
                  (λ d row.
                    not_active m.debtor_id d db idle
                      (ap (λ i. debtor_row i db.debtors) (sym key) ∙ row))
                  h)
        ]
      ]
