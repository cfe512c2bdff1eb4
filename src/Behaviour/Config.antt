-- ===== src/Behaviour/Config.antt =====
-- `update_debtor_config`, where two clients have seen the same version of the configuration.
use swpt_debtors.Prelude.{
  ℕ, ◌+◌, ◌<◌, leb, ◌≡◌, ◌≢◌, refl, ap, ◌∙◌, true, some, [], ◌∷◌, ◌++◌, String, string_Eq,
  str_eq_iff, ℤ, arith, if◌then◌else◌,
}
use swpt_debtors.Platform.{Platform, Timestamp}
use swpt_debtors.Models.{Database, Debtor, is_active}
use swpt_debtors.Store.{debtor_row, put_debtor}
use swpt_debtors.Store.DebtorLaws.{debtor_row-put_self, debtor_row-id}
use swpt_debtors.Procedures.Monad.{ok, err, update_conflict, too_many_management_actions}
use swpt_debtors.Procedures.Signalling.{next_config, configure_account_signal}
use swpt_debtors.Procedures.Config.{reset_actions, update_debtor_config}
use swpt_debtors.System.{committed}

module _ ⦃p : Platform⦄ where
  -- The debtor after an update of its configuration.
  abbrev pub reconfigured : String → Timestamp → Timestamp → Debtor → Debtor
  reconfigured config_data current_ts config_ts d =
      next_config config_ts (record (reset_actions current_ts d) {
        actions_count = (reset_actions current_ts d).actions_count + 1;
        config_latest_update_id = d.config_latest_update_id + 1;
        config_data = config_data;
      })

  fields_of_reconfigured :
      (config_data : String) (current_ts config_ts : Timestamp) (d : Debtor)
      → let d' = reconfigured config_data current_ts config_ts d in
        (d'.debtor_id ≡ d.debtor_id)
        × (d'.config_data ≡ config_data)
        × (d'.config_latest_update_id ≡ d.config_latest_update_id + 1)
        × (is_active d' ≡ is_active d)
  unfolding next_config reset_actions is_active
  fields_of_reconfigured config_data current_ts config_ts d =
      (ground arith, refl, refl, ground arith)

  update_found :
      (k : ℤ) (config_data : String) (limit : ℕ) (d : Debtor) (db : Database)
      → debtor_row k db.debtors ≡ some d
      → is_active d ≡ true
      → (reset_actions (db.clock db.readings) d).actions_count < limit
      → let d' = reconfigured config_data (db.clock db.readings) (db.clock (db.readings + 1)) d in
        let r = update_debtor_config k config_data (d.config_latest_update_id + 1) limit db in
        let db' = committed r db in
        (r ≡ ok d' db')
        × (db'.debtors ≡ put_debtor d' db.debtors)
        × (db'.configure_account_signals
            ≡ db.configure_account_signals
              ++ configure_account_signal d' (db.clock (db.readings + 1 + 1)) ∷ [])
  unfolding update_debtor_config reset_actions
  update_found k config_data limit d db row active fits = (ground arith, ground arith, ground arith)

  stale_update :
      (k : ℤ) (config_data : String) (limit : ℕ) (d : Debtor) (db : Database)
      → debtor_row k db.debtors ≡ some d
      → is_active d ≡ true
      → config_data ≢ d.config_data
      → update_debtor_config k config_data d.config_latest_update_id limit db
        ≡ err (
            if leb limit (reset_actions (db.clock db.readings) d).actions_count
            then too_many_management_actions
            else update_conflict)
  unfolding update_debtor_config reset_actions
  stale_update k config_data limit d db row active other =
      ground (arith, other, str_eq_iff d.config_data config_data)

  repeated_update :
      (k : ℤ) (limit : ℕ) (d : Debtor) (db : Database)
      → debtor_row k db.debtors ≡ some d
      → is_active d ≡ true
      → let r = update_debtor_config k d.config_data d.config_latest_update_id limit db in
        (committed r db).configure_account_signals ≡ db.configure_account_signals
  unfolding update_debtor_config reset_actions
  repeated_update k limit d db row active = ground (arith, str_eq_iff d.config_data d.config_data)

  -- Two clients that have seen the same version of the configuration of an active debtor within its
  -- limit. The first update is performed, and announced. The same update again announces nothing
  -- more. A different update with the same number is refused: with a conflict, or because the
  -- debtor's actions are used up.
  pub first_update_wins :
      (k : ℤ) (config_data other : String) (limit : ℕ) (d : Debtor) (db : Database)
      → debtor_row k db.debtors ≡ some d
      → is_active d ≡ true
      → (reset_actions (db.clock db.readings) d).actions_count < limit
      → other ≢ config_data
      → let d' = reconfigured config_data (db.clock db.readings) (db.clock (db.readings + 1)) d in
        let id = d.config_latest_update_id + 1 in
        let r = update_debtor_config k config_data id limit db in
        let db' = committed r db in
        (r ≡ ok d' db')
        × (debtor_row k db'.debtors ≡ some d')
        × (db'.configure_account_signals
            ≡ db.configure_account_signals
              ++ configure_account_signal d' (db.clock (db.readings + 1 + 1)) ∷ [])
        × ((committed
              (update_debtor_config k config_data id limit db')
              db').configure_account_signals
            ≡ db'.configure_account_signals)
        × (update_debtor_config k other id limit db'
            ≡ err (
                if leb limit (reset_actions (db'.clock db'.readings) d').actions_count
                then too_many_management_actions
                else update_conflict))
  unfolding next_config
  first_update_wins k config_data other limit d db row active fits differs =
      let d' = reconfigured config_data (db.clock db.readings) (db.clock (db.readings + 1)) d in
      let id = d.config_latest_update_id + 1 in
      let db' = committed (update_debtor_config k config_data id limit db) db in
      let done = update_found k config_data limit d db row active fits in
      let fields =
        fields_of_reconfigured config_data (db.clock db.readings) (db.clock (db.readings + 1)) d in
      let row' : debtor_row k db'.debtors ≡ some d' =
        ap (debtor_row k) done.1
        ∙ debtor_row-put_self k d d' db.debtors row (fields.0 ∙ debtor_row-id k db.debtors d row) in
      let active' : is_active d' ≡ true = fields.3 ∙ active in
      (
        done.0,
        row',
        done.2,
        repeated_update k limit d' db' row' active',
        stale_update k other limit d' db' row' active' differs,
      )
