-- ===== src/Invariants/Announcing.antt =====
-- The transactions that configure an account, and what they announce.
use swpt_debtors.Prelude.{
  ℕ, ◌+◌, leb, ◌≡◌, ◌⊎◌, refl, ◌∙◌, not, ◌&&◌, some, [], ◌∷◌, ◌++◌, String, ◌==◌, nat_Eq, string_Eq,
  int_Eq, ℤ, inl, inr, Bool-cases, Option-cases, arith,
}
use swpt_debtors.Platform.{Platform, Timestamp}
use swpt_debtors.Models.{Database, Debtor, is_active, is_activated, activate}
use swpt_debtors.Store.{debtor_row, put_debtor}
use swpt_debtors.Procedures.Decimal.{str_of_id}
use swpt_debtors.Procedures.Signalling.{next_config, configure_account_signal}
use swpt_debtors.Procedures.Debtors.{
  activate_debtor, deactivate_debtor, restrict_debtor, get_active_debtor,
}
use swpt_debtors.Procedures.Config.{update_debtor_config, reset_actions}
use swpt_debtors.System.{committed}
use swpt_debtors.Behaviour.Deactivation.{
  deactivated, deactivate_found, deactivate_again, fields_of_deactivated,
}
use swpt_debtors.Invariants.Steps.{found_active}
use swpt_debtors.Invariants.Announcements.{
  IsAnnounced, Silent, told-IsAnnounced, same-IsAnnounced, tables-IsAnnounced, put_silently,
}

module _ ⦃p : Platform⦄ where
  next_config-debtor_id :
      (now : Timestamp) (d : Debtor) → (next_config now d).debtor_id ≡ d.debtor_id
  unfolding next_config
  next_config-debtor_id now d = refl

  pub restrict-IsAnnounced :
      (k m : ℤ) (db : Database)
      → IsAnnounced db
      → IsAnnounced (committed (restrict_debtor k m db) db)
  unfolding restrict_debtor
  restrict-IsAnnounced k m db h =
      let db' = committed (restrict_debtor k m db) db in
      elim (Option-cases (get_active_debtor k db)) [
        | inl idle ↦ same-IsAnnounced db db' (ground (arith, idle)) (ground (arith, idle)) h
        | inr (d, found) ↦
            let active = found_active k d db found in
            let d' = next_config (db.clock db.readings) (record d { min_balance = m }) in
            told-IsAnnounced k d d' (db.clock (db.readings + 1)) db db' active.0
              (next_config-debtor_id (db.clock db.readings) (record d { min_balance = m }))
              (ground (arith, active)) (ground (arith, active)) h
      ]

  pub activate-IsAnnounced :
      (k : ℤ) (reservation_id : String) (db : Database)
      → IsAnnounced db
      → IsAnnounced (committed (activate_debtor k reservation_id db) db)
  unfolding activate_debtor
  activate-IsAnnounced k reservation_id db h =
      let db' = committed (activate_debtor k reservation_id db) db in
      elim (Option-cases (debtor_row k db.debtors)) [
        | inl vacant ↦ same-IsAnnounced db db' (ground (arith, vacant)) (ground (arith, vacant)) h
        | inr (d, row) ↦
            elim (Bool-cases
              (reservation_id == str_of_id d.reservation_id && not (is_activated d))) [
                | inl e ↦
                    told-IsAnnounced k d (next_config (db.clock db.readings) (activate d))
                      (db.clock (db.readings + 1)) db db' row
                      (next_config-debtor_id (db.clock db.readings) (activate d)
                        ∙ unfold activate in refl)
                      (ground (arith, row, e)) (ground (arith, row, e)) h
                | inr e ↦
                    same-IsAnnounced db db' (ground (arith, row, e)) (ground (arith, row, e)) h
              ]
      ]

  pub deactivate-IsAnnounced :
      (k : ℤ) (db : Database) → IsAnnounced db → IsAnnounced (committed (deactivate_debtor k db) db)
  deactivate-IsAnnounced k db h = elim (Option-cases (get_active_debtor k db)) [
    | inl idle ↦ rw (deactivate_again k db idle) h
    | inr (d, found) ↦
        let active = found_active k d db found in
        let ts = db.clock db.readings in
        let config_ts = db.clock (db.readings + 1) in
        let done = deactivate_found k d db active.0 active.1 in
        told-IsAnnounced k d (deactivated ts config_ts d) (db.clock (db.readings + 1 + 1)) db
          (committed (deactivate_debtor k db) db) active.0 (fields_of_deactivated ts config_ts d).0
          done.0 done.2 h
  ]

  -- The debtor with one action more
  abbrev throttled : Timestamp → Debtor → Debtor
  throttled now d = let r = reset_actions now d in record r { actions_count = r.actions_count + 1 }

  throttled-Silent : (now : Timestamp) (d : Debtor) → Silent d (some (throttled now d))
  unfolding reset_actions is_active
  throttled-Silent now d = ground arith

  abbrev reconfigured : String → ℕ → Timestamp → Timestamp → Debtor → Debtor
  reconfigured config_data latest now later d =
      next_config later
        (record (throttled now d) { config_latest_update_id = latest; config_data = config_data })

  reconfigured-debtor_id :
      (config_data : String) (latest : ℕ) (now later : Timestamp) (d : Debtor)
      → (reconfigured config_data latest now later d).debtor_id ≡ d.debtor_id
  unfolding next_config reset_actions
  reconfigured-debtor_id config_data latest now later d = ground arith

  -- What `update_debtor_config` does with an active debtor: it raises, it only counts the action, or
  -- it announces the new configuration.
  update_config_cases :
      (k : ℤ) (config_data : String) (latest limit : ℕ) (d : Debtor) (db : Database)
      → get_active_debtor k db ≡ some d
      → let db' = committed (update_debtor_config k config_data latest limit db) db in
        let now = db.clock db.readings in
        let d' = reconfigured config_data latest now (db.clock (db.readings + 1)) d in
        (db' ≡ db)
        ⊎ ((db'.debtors ≡ put_debtor (throttled now d) db.debtors)
            × (db'.configure_account_signals ≡ db.configure_account_signals))
        ⊎ ((db'.debtors ≡ put_debtor d' db.debtors)
            × (db'.configure_account_signals
                ≡ db.configure_account_signals
                  ++ configure_account_signal d' (db.clock (db.readings + 1 + 1)) ∷ []))
  unfolding update_debtor_config
  update_config_cases k config_data latest limit d db found =
      let t = throttled (db.clock db.readings) d in
      elim (Bool-cases (leb limit (reset_actions (db.clock db.readings) d).actions_count)) [
        | inl full ↦ inl (ground (arith, found, full))
        | inr free ↦
            elim (Bool-cases
              (latest == t.config_latest_update_id && t.config_data == config_data)) [
                | inl e ↦ inr (inl (ground (arith, found, free, e), ground (arith, found, free, e)))
                | inr e ↦ elim (Bool-cases (latest == t.config_latest_update_id + 1)) [
                  | inl n ↦
                      inr
                        (inr (ground (arith, found, free, e, n), ground (arith, found, free, e, n)))
                  | inr n ↦ inl (ground (arith, found, free, e, n))
                ]
              ]
      ]

  pub update_config-IsAnnounced :
      (k : ℤ) (config_data : String) (latest limit : ℕ) (db : Database)
      → IsAnnounced db
      → IsAnnounced (committed (update_debtor_config k config_data latest limit db) db)
  update_config-IsAnnounced k config_data latest limit db h =
      let db' = committed (update_debtor_config k config_data latest limit db) db in
      let now = db.clock db.readings in
      let later = db.clock (db.readings + 1) in
      elim (Option-cases (get_active_debtor k db)) [
        | inl idle ↦
            let same : db' ≡ db = unfold update_debtor_config in ground (arith, idle) in rw same h
        | inr (d, found) ↦
            let row = (found_active k d db found).0 in
            elim (update_config_cases k config_data latest limit d db found) [
              | inl same ↦ rw same h
              | inr (inl (rows, signals)) ↦
                  tables-IsAnnounced (put_debtor (throttled now d) db.debtors)
                    db.configure_account_signals db' rows signals
                    (put_silently k d (throttled now d) db.debtors db.configure_account_signals row
                      (throttled-Silent now d) h)
              | inr (inr (rows, signals)) ↦
                  told-IsAnnounced k d (reconfigured config_data latest now later d)
                    (db.clock (db.readings + 1 + 1)) db db' row
                    (reconfigured-debtor_id config_data latest now later d) rows signals h
            ]
      ]
