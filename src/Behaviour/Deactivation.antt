-- ===== src/Behaviour/Deactivation.antt =====
-- The life of a debtor: `reserve_debtor`, `activate_debtor`, `deactivate_debtor`.
use swpt_debtors.Prelude.{
  ◌+◌, ◌≡◌, refl, ap, ◌∙◌, true, false, none, some, [], ◌∷◌, ◌++◌, string_Eq, int_Eq, int_eq_iff, ℤ,
  pos, bit_or, arith,
}
use swpt_debtors.Platform.{Platform, Timestamp}
use swpt_debtors.Models.{
  Database, Debtor, is_active, deactivate, date_of, default_config_flags,
  config_scheduled_for_deletion_flag,
}
use swpt_debtors.Models.Flags.{is_active-deactivate}
use swpt_debtors.Store.{debtor_row, put_debtor, count_of, delete_transfers_of}
use swpt_debtors.Store.DebtorLaws.{debtor_row-put_self, debtor_row-id}
use swpt_debtors.Store.TransferLaws.{count_of-delete_of}
use swpt_debtors.Procedures.Monad.{ok}
use swpt_debtors.Procedures.Signalling.{configure_account_signal, next_config}
use swpt_debtors.Procedures.Debtors.{deactivate_debtor, get_active_debtor}
use swpt_debtors.System.{committed}

module _ ⦃p : Platform⦄ where
  -- A deactivated debtor: no transfers, no configuration, and its account is to be deleted.
  abbrev pub deactivated : Timestamp → Timestamp → Debtor → Debtor
  deactivated ts config_ts d = record (next_config config_ts (deactivate (date_of ts) d)) {
    running_transfers_count = pos 0;
  }

  pub deactivate_found :
      (k : ℤ) (d : Debtor) (db : Database)
      → debtor_row k db.debtors ≡ some d
      → is_active d ≡ true
      → let d' = deactivated (db.clock db.readings) (db.clock (db.readings + 1)) d in
        let db' = committed (deactivate_debtor k db) db in
        (db'.debtors ≡ put_debtor d' db.debtors)
        × (db'.running_transfers ≡ delete_transfers_of d'.debtor_id db.running_transfers)
        × (db'.configure_account_signals
            ≡ db.configure_account_signals
              ++ configure_account_signal d' (db.clock (db.readings + 1 + 1)) ∷ [])
  unfolding deactivate_debtor next_config configure_account_signal
  deactivate_found k d db row active = (ground arith, ground arith, ground arith)

  pub fields_of_deactivated :
      (ts config_ts : Timestamp) (d : Debtor)
      → let d' = deactivated ts config_ts d in
        (d'.debtor_id ≡ d.debtor_id)
        × (is_active d' ≡ false)
        × (d'.running_transfers_count ≡ pos 0)
        × (d'.config_flags ≡ pos (bit_or default_config_flags config_scheduled_for_deletion_flag))
        × (d'.config_data ≡ "")
        × (d'.deactivation_date ≡ some (date_of ts))
  unfolding next_config deactivate is_active
  fields_of_deactivated ts config_ts d =
      (refl, unfold deactivate in is_active-deactivate (date_of ts) d, refl, refl, refl, refl)

  -- The deactivation of an active debtor: its row is not active any more, has the date, an empty
  -- configuration and the flag that schedules the account for deletion, and counts no transfers;
  -- none of its transfers is left; and the new configuration is announced.
  pub deactivate_clears :
      (k : ℤ) (d : Debtor) (db : Database)
      → debtor_row k db.debtors ≡ some d
      → is_active d ≡ true
      → let d' = deactivated (db.clock db.readings) (db.clock (db.readings + 1)) d in
        let db' = committed (deactivate_debtor k db) db in
        (debtor_row k db'.debtors ≡ some d')
        × (is_active d' ≡ false)
        × (d'.running_transfers_count ≡ pos 0)
        × (d'.config_flags ≡ pos (bit_or default_config_flags config_scheduled_for_deletion_flag))
        × (d'.config_data ≡ "")
        × (d'.deactivation_date ≡ some (date_of (db.clock db.readings)))
        × (count_of k db'.running_transfers ≡ 0)
        × (db'.configure_account_signals
            ≡ db.configure_account_signals
              ++ configure_account_signal d' (db.clock (db.readings + 1 + 1)) ∷ [])
  deactivate_clears k d db row active =
      let d' = deactivated (db.clock db.readings) (db.clock (db.readings + 1)) d in
      let done = deactivate_found k d db row active in
      let fields = fields_of_deactivated (db.clock db.readings) (db.clock (db.readings + 1)) d in
      let key : d'.debtor_id ≡ k = fields.0 ∙ debtor_row-id k db.debtors d row in
      (
        ap (debtor_row k) done.0 ∙ debtor_row-put_self k d d' db.debtors row key,
        fields.1,
        fields.2,
        fields.3,
        fields.4,
        fields.5,
        ap (count_of k) done.1
            ∙ ground (
              arith,
              key,
              count_of-delete_of k d'.debtor_id db.running_transfers,
              int_eq_iff d'.debtor_id k,
            ),
        done.2,
      )

  -- A debtor that does not exist or is not active is not deactivated again: nothing changes.
  pub deactivate_again :
      (k : ℤ) (db : Database) → get_active_debtor k db ≡ none → deactivate_debtor k db ≡ ok tt db
  unfolding deactivate_debtor
  deactivate_again k db h = ground arith
