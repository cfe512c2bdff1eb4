-- ===== src/Procedures/Config.antt =====
-- `update_debtor_config` with `_throttle_debtor_actions`, `_throttle_document_saves`,
-- `_allow_update`, and `_get_debtor_info_iri_from_config_data`.
use swpt_debtors.Prelude.{
  ℕ, ◌+◌, ltb, leb, Bool, true, false, not, ◌&&◌, Option, none, some, String, ◌==◌, nat_Eq,
  string_Eq, ℤ, if◌then◌else◌,
}
use swpt_debtors.Platform.{Platform, Json, Fields, Timestamp, str, dict, end, field}
use swpt_debtors.Models.{Debtor, date_of}
use swpt_debtors.Procedures.Monad.{
  Procedure, ok, err, update_conflict, already_up_to_date, debtor_does_not_exist,
  too_many_management_actions, too_many_saved_documents, pure, raise_if, query, require, ◌>>=◌,
  ◌>>◌, now, save_debtor,
}
use swpt_debtors.Procedures.Debtors.{get_active_debtor}
use swpt_debtors.Procedures.Signalling.{insert_configure_account_signal}

-- Days after which the counter of management actions starts again, and that of documents.
abbrev pub actions_period : ℕ
actions_period = 30

abbrev pub documents_period : ℕ
documents_period = 365

unfoldable pub reset_actions : Timestamp → Debtor → Debtor
reset_actions current_ts d =
    if ltb (d.actions_count_reset_date + actions_period) (date_of current_ts)
    then record d { actions_count = 0; actions_count_reset_date = date_of current_ts }
    else d

-- The debtor is written back by the caller.
unfoldable pub throttle_debtor_actions : ℤ → ℕ → Timestamp → Procedure Debtor
unfolding get_active_debtor
throttle_debtor_actions debtor_id max_actions_per_month current_ts = do
  found ← query (get_active_debtor debtor_id)
  debtor ← require found debtor_does_not_exist
  let d = reset_actions current_ts debtor
  raise_if (leb max_actions_per_month d.actions_count) too_many_management_actions
  pure (record d { actions_count = d.actions_count + 1 })

unfoldable pub reset_documents : Timestamp → Debtor → Debtor
reset_documents current_ts d =
    if ltb (d.documents_count_reset_date + documents_period) (date_of current_ts)
    then record d { documents_count = 0; documents_count_reset_date = date_of current_ts }
    else d

-- The debtor is written back by the caller.
unfoldable pub throttle_document_saves : ℤ → ℕ → Timestamp → Procedure Debtor
unfolding get_active_debtor
throttle_document_saves debtor_id max_saves_per_year current_ts = do
  found ← query (get_active_debtor debtor_id)
  debtor ← require found debtor_does_not_exist
  let d = reset_documents current_ts debtor
  raise_if (leb max_saves_per_year d.documents_count) too_many_saved_documents
  pure (record d { documents_count = d.documents_count + 1 })

-- The tests of `_allow_update`, before the function that sets the values is returned.
unfoldable pub allow_update : ℕ → ℕ → Bool → Procedure (Unit {0})
allow_update latest_update_id update_id has_changes = do
  raise_if (update_id == latest_update_id && not has_changes) already_up_to_date
  raise_if (not (update_id == latest_update_id + 1)) update_conflict

-- `except AlreadyUpToDate`: whether the update is to be performed.
unfoldable pub try_update : Procedure (Unit {0}) → Procedure Bool
try_update m db = elim (m db) [
  | ok _ db' ↦ ok true db'
  | err already_up_to_date ↦ ok false db
  | err e ↦ err e
]

module _ ⦃p : Platform⦄ where
  unfoldable pub update_debtor_config : ℤ → String → ℕ → ℕ → Procedure Debtor
  unfolding throttle_debtor_actions allow_update try_update insert_configure_account_signal
      save_debtor now
  update_debtor_config debtor_id config_data latest_update_id max_actions_per_month = do
    current_ts ← now
    debtor ← throttle_debtor_actions debtor_id max_actions_per_month current_ts
    perform ← try_update (
        allow_update debtor.config_latest_update_id latest_update_id
          (not (debtor.config_data == config_data)))
    if perform
        then (do
          d ← insert_configure_account_signal (record debtor {
            config_latest_update_id = latest_update_id;
            config_data = config_data;
          })
          save_debtor d
          pure d)
        else (do save_debtor debtor; pure debtor)

-- `d.get(key) if isinstance(d, dict) else None`, where a missing value is `None`.
unfoldable pub lookup_field : Fields → String → Option Json
lookup_field end key = none
lookup_field (field k v fs) key = if k == key then some v else lookup_field fs key

unfoldable pub get_dict_key : Option Json → String → Option Json
unfolding lookup_field
get_dict_key (some (dict fs)) key = lookup_field fs key
get_dict_key _ key = none

abbrev pub as_str : Option Json → Option String
as_str (some (str s)) = some s
as_str _ = none

module _ ⦃p : Platform⦄ where
  unfoldable pub get_debtor_info_iri_from_config_data : String → Option String
  unfolding get_dict_key
  get_debtor_info_iri_from_config_data config_data =
      as_str (get_dict_key (get_dict_key (p.json_loads config_data) "info") "iri")
