-- ===== src/Scanner.antt =====
-- `DebtorScanner` of swpt_debtors/table_scanners.py. The rows come from a scan made earlier, so
-- each pass tests them and then tests the table again; it skips the rows that are locked
-- (`skip_locked`). An interval on the left of a cutoff stands on the right of it here.
use swpt_debtors.Prelude.{
  ◌+◌, ltb, Bool, true, false, not, ◌&&◌, ◌||◌, none, some, List, [], ◌∷◌, map, ◌==◌, nat_Eq,
  string_Eq, int_Eq, option_Eq, ℤ, bit_and, update_rows, delete_rows, select_rows, if◌then◌else◌,
}
use swpt_debtors.Store.{remove_debtor, delete_transfers_of}
use swpt_debtors.Platform.{Timestamp}
use swpt_debtors.Settings.{Settings, is_valid_debtor_id}
use swpt_debtors.Models.{Database, Debtor, is_active, status_is_activated_flag}

-- The foreign keys of the transfers and the documents delete with the debtor (ON DELETE CASCADE).
unfoldable pub delete_debtor : ℤ → Database → Database
delete_debtor debtor_id db = record db {
  debtors = remove_debtor debtor_id db.debtors;
  running_transfers = delete_transfers_of debtor_id db.running_transfers;
  documents = delete_rows (λ x. x.debtor_id == debtor_id) db.documents;
}

-- `for debtor in to_delete: db.session.delete(debtor)`
unfoldable pub delete_all : List ℤ → Database → Database
unfolding delete_debtor
delete_all [] db = db
delete_all (debtor_id ∷ rest) db = delete_all rest (delete_debtor debtor_id db)

unfoldable pub contains : ℤ → List ℤ → Bool
contains k [] = false
contains k (j ∷ ks) = k == j || contains k ks

abbrev pub debtor_ids : List Debtor → List ℤ
debtor_ids = map (λ d. d.debtor_id)

-- The rows of the table that are chosen by their keys, still pass the test, and are not locked.
unfoldable pub select_chosen : (ℤ → Bool) → List ℤ → (Debtor → Bool) → Database → List ℤ
unfolding contains
select_chosen unlocked chosen test db =
    debtor_ids (
      select_rows (λ d. (contains d.debtor_id chosen && unlocked d.debtor_id) && test d) db.debtors)

module _ (s : Settings) where
  -- `created_at < current_ts - inactive_interval`, and never activated
  unfoldable pub not_activated_for_long_time : Timestamp → Debtor → Bool
  not_activated_for_long_time current_ts d =
      bit_and d.status_flags status_is_activated_flag == 0
      && ltb (d.created_at + s.inactive_interval) current_ts

  unfoldable pub has_unreported_config_problem : Timestamp → Debtor → Bool
  has_unreported_config_problem current_ts d =
      (not d.is_config_effectual
        || (d.has_server_account
            && ltb (d.account_last_heartbeat_ts + s.max_heartbeat_delay) current_ts))
      && (d.config_error == none
          && (ltb (d.last_config_ts + s.max_config_delay) current_ts && is_active d))

  unfoldable pub belongs_to_parent_shard : Debtor → Bool
  belongs_to_parent_shard d =
      not (is_valid_debtor_id s d.debtor_id false) && is_valid_debtor_id s d.debtor_id true

  module _ (unlocked : ℤ → Bool) (rows : List Debtor) where
    unfoldable pub delete_parent_shard_debtors : Database → Database
    unfolding belongs_to_parent_shard select_chosen delete_all
    delete_parent_shard_debtors db =
        delete_all
          (select_chosen unlocked (debtor_ids (select_rows belongs_to_parent_shard rows))
            (λ _. true) db)
          db

    unfoldable pub delete_debtors_not_activated_for_long_time : Timestamp → Database → Database
    unfolding not_activated_for_long_time select_chosen delete_all
    delete_debtors_not_activated_for_long_time current_ts db =
        let test = not_activated_for_long_time current_ts in
        delete_all (select_chosen unlocked (debtor_ids (select_rows test rows)) test db) db

    unfoldable pub set_config_errors_if_necessary : Timestamp → Database → Database
    unfolding has_unreported_config_problem select_chosen
    set_config_errors_if_necessary current_ts db =
        let test = has_unreported_config_problem current_ts in
        let pks = select_chosen unlocked (debtor_ids (select_rows test rows)) test db in
        record db {
          debtors =
              update_rows (λ d. contains d.debtor_id pks)
                (λ d. record d { config_error = some "CONFIGURATION_IS_NOT_EFFECTUAL" }) db.debtors;
        }

    -- The three passes are transactions of their own; other transactions may come between them.
    unfoldable pub process_rows : Timestamp → Database → Database
    process_rows current_ts db =
        let db' = if s.delete_parent_shard_records then delete_parent_shard_debtors db else db in
        set_config_errors_if_necessary current_ts
          (delete_debtors_not_activated_for_long_time current_ts db')
