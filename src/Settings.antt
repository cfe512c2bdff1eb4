-- ===== src/Settings.antt =====
-- The configuration that the program reads, and `is_valid_debtor_id` of swpt_debtors/models.py.
-- The sharding realm belongs to `swpt_pythonlib`: it is a parameter.
use swpt_debtors.Prelude.{ℕ, Bool, ◌&&◌, ℤ, leb_ℤ}

pub record Settings : Type 0 where
  -- MIN_DEBTOR_ID, MAX_DEBTOR_ID
  pub min_debtor_id : ℤ
  pub max_debtor_id : ℤ
  -- `SHARDING_REALM.match(debtor_id, match_parent=…)`
  pub realm_match : ℤ → Bool → Bool
  -- DELETE_PARENT_SHARD_RECORDS
  pub delete_parent_shard_records : Bool
  -- the intervals of the scanner, in microseconds
  pub inactive_interval : ℕ
  pub max_heartbeat_delay : ℕ
  pub max_config_delay : ℕ
  -- APP_MAX_TRANSFERS_PER_MONTH, APP_DOCUMENT_MAX_SAVES_PER_YEAR, APP_DOCUMENT_MAX_CONTENT_LENGTH,
  -- APP_DEBTORS_PER_PAGE
  pub max_transfers_per_month : ℕ
  pub document_max_saves_per_year : ℕ
  pub document_max_content_length : ℕ
  pub debtors_per_page : ℕ

unfoldable pub is_valid_debtor_id : Settings → ℤ → Bool → Bool
is_valid_debtor_id s debtor_id match_parent =
    (leb_ℤ s.min_debtor_id debtor_id && leb_ℤ debtor_id s.max_debtor_id)
    && s.realm_match debtor_id match_parent
