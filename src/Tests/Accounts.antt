-- ===== src/Tests/Accounts.antt =====
-- The theorems about debtors and their accounts, at concrete inputs.
use swpt_debtors.Prelude.{
  ℕ, ◌+◌, ◌≡◌, ◌⊎◌, List, refl, true, false, none, some, [], ◌∷◌, ◌++◌, String, nat_Eq, string_Eq,
  str_eq_iff, int_Eq, option_Eq, option_eq, ℤ, pos, leb, int_eq, bit_or, first, arith,
  if◌then◌else◌,
}
use mathlib.Core.Bool.{false≢true}
use swpt_debtors.Models.{
  Database, Debtor, ConfigureAccountSignal, is_active, is_activated, date_of, default_config_flags,
  config_scheduled_for_deletion_flag,
}
use swpt_debtors.Store.{debtor_row, transfer_row, request_row, count_of}
use swpt_debtors.Procedures.Monad.{
  integrity_error, ok, err, update_conflict, too_many_management_actions,
}
use swpt_debtors.Procedures.Decimal.{str_of_id}
use swpt_debtors.Procedures.Signalling.{
  configure_account_signal, discard_orphaned_account, is_already_discarded,
}
use swpt_debtors.Procedures.Debtors.{
  reserve_debtor, activate_debtor, deactivate_debtor, get_active_debtor, get_debtor,
}
use swpt_debtors.Procedures.Config.{update_debtor_config, reset_actions}
use swpt_debtors.Procedures.AccountUpdate.{
  process_account_update_signal, update_account, heartbeat, is_old_event, apply_account_update,
}
use swpt_debtors.Procedures.Messages.{AccountUpdate}
use swpt_debtors.System.{committed}
use swpt_debtors.Tests.Sample.{whole, whole-IsStandard, alice, database, report}
use swpt_debtors.Behaviour.Flushed.{Occupied, account_update_ends}
use swpt_debtors.Procedures.Flush.{atomic, violates_key, added_rows, is_any_key_taken, is_key_taken}
use swpt_debtors.Behaviour.Replay.{expired, late_update_ignored, older_change}
use swpt_debtors.Behaviour.Deactivation.{deactivate_clears, deactivated}
use swpt_debtors.Behaviour.Activation.{activated, reserve_then_activate, reserved}
use swpt_debtors.Behaviour.Config.{first_update_wins, reconfigured}

-- An update about an account without a debtor, while the message that discards it is in the table
abbrev orphan_report : AccountUpdate
orphan_report = record report { debtor_id = pos 77 }

abbrev discarding : ConfigureAccountSignal
discarding = record {
  debtor_id = pos 77;
  ts = database.clock (database.readings + 1);
  seqnum = pos 0;
  config_data = "";
  config_flags = pos 1;
  negligible_amount = 0;
  inserted_at = 0;
}

account_update_ends_example :
    let m : AccountUpdate = orphan_report in
    let db : Database = database in
    let present : List ConfigureAccountSignal = discarding ∷ [] in
    let db' = committed (process_account_update_signal m db) db in
    (atomic present (process_account_update_signal m) db ≡ ok tt db')
    ⊎ ((atomic present (process_account_update_signal m) db ≡ err integrity_error)
        × (get_active_debtor m.debtor_id db ≡ none)
        × Occupied m.debtor_id (db.clock (db.readings + 1)) (pos 0) present)
account_update_ends_example = account_update_ends (discarding ∷ []) orphan_report database

-- The transaction fails.
discard_fails :
    atomic (discarding ∷ []) (process_account_update_signal orphan_report) database
    ≡ err integrity_error
unfolding atomic process_account_update_signal get_active_debtor get_debtor debtor_row first int_eq
    is_active update_account discard_orphaned_account is_already_discarded violates_key added_rows
    is_any_key_taken is_key_taken
discard_fails = refl

-- Another update, of an older change: it would set another balance.
abbrev late_report : AccountUpdate
late_report = record report { last_change_ts = 1; principal = pos 77 }

late_update_ignored_example :
    let m : AccountUpdate = report in
    let m1 : AccountUpdate = late_report in
    let d : Debtor = alice in
    let db : Database = database in
    let d' = apply_account_update m (heartbeat m.ts (db.clock db.readings) d) in
    let db' = committed (process_account_update_signal m db) db in
    let now = db'.clock db'.readings in
    (debtor_row m.debtor_id db'.debtors ≡ some d')
    × (debtor_row m.debtor_id (committed (process_account_update_signal m1 db') db').debtors
        ≡ some (if expired m1 now then d' else heartbeat m1.ts now d'))
unfolding request_row transfer_row debtor_row first int_eq option_eq is_active is_activated
    is_old_event
late_update_ignored_example =
    late_update_ignored report late_report alice database whole-IsStandard refl refl refl
      (older_change refl (omega arith)) refl refl (omega arith) refl

deactivate_clears_example :
    let k : ℤ = pos 5 in
    let d : Debtor = alice in
    let db : Database = database in
    let d' = deactivated (db.clock db.readings) (db.clock (db.readings + 1)) d in
    let db' = committed (deactivate_debtor k db) db in
    (debtor_row k db'.debtors ≡ some d')
    × (is_active d' ≡ false)
    × (d'.running_transfers_count ≡ pos 0)
    × (d'.config_flags ≡ pos (bit_or default_config_flags config_scheduled_for_deletion_flag))
    × (d'.config_data ≡ "")
    × (d'.deactivation_date ≡ some (date_of (db.clock db.readings)))
    × (count_of k db'.running_transfers ≡ 0)
    × (db'.configure_account_signals
        ≡ db.configure_account_signals
          ++ configure_account_signal d' (db.clock (db.readings + 1 + 1)) ∷ [])
unfolding request_row transfer_row debtor_row first int_eq option_eq is_active is_activated
    is_old_event
deactivate_clears_example = deactivate_clears (pos 5) alice database refl refl

reserve_then_activate_example :
    let k : ℤ = pos 6 in
    let db : Database = database in
    let d = reserved k db in
    let db' = committed (reserve_debtor k db) db in
    let d' = activated (db'.clock db'.readings) d in
    let r = activate_debtor k (str_of_id d.reservation_id) db' in
    (reserve_debtor k db ≡ ok d db')
    × (is_activated d ≡ false)
    × (r ≡ ok d' (committed r db'))
    × (debtor_row k (committed r db').debtors ≡ some d')
    × (is_active d' ≡ true)
unfolding request_row transfer_row debtor_row first int_eq option_eq is_active is_activated
    is_old_event
reserve_then_activate_example = reserve_then_activate (pos 6) database refl

first_update_wins_example :
    let k : ℤ = pos 5 in
    let config_data : String = "one" in
    let other : String = "two" in
    let limit : ℕ = 300 in
    let d : Debtor = alice in
    let db : Database = database in
    let d' = reconfigured config_data (db.clock db.readings) (db.clock (db.readings + 1)) d in
    let id = d.config_latest_update_id + 1 in
    let r = update_debtor_config k config_data id limit db in
    let db' = committed r db in
    (r ≡ ok d' db')
    × (debtor_row k db'.debtors ≡ some d')
    × (db'.configure_account_signals
        ≡ db.configure_account_signals
          ++ configure_account_signal d' (db.clock (db.readings + 1 + 1)) ∷ [])
    × ((committed (update_debtor_config k config_data id limit db') db').configure_account_signals
        ≡ db'.configure_account_signals)
    × (update_debtor_config k other id limit db'
        ≡ err (
            if leb limit (reset_actions (db'.clock db'.readings) d').actions_count
            then too_many_management_actions
            else update_conflict))
unfolding request_row transfer_row debtor_row first int_eq option_eq is_active is_activated
    is_old_event reset_actions date_of
first_update_wins_example =
    first_update_wins (pos 5) "one" "two" 300 alice database refl refl (omega arith)
      (λ e. false≢true ((str_eq_iff "two" "one").1 e))
