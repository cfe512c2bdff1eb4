-- ===== src/Tests/Configured.antt =====
-- The theorems about announced configurations, at concrete inputs.
use swpt_debtors.Prelude.{
  ◌++◌, first, update_rows, int_eq, ◌+ℤ◌, ◌-ℤ◌, ◌≡◌, refl, true, none, some, List, [], ◌∷◌, nat_Eq,
  int_Eq, string_Eq, pos, arith,
}
use swpt_debtors.Models.{
  Database, Debtor, ct_issuing, root_creditor_id, ConfigureAccountSignal, new_debtor, activate,
  is_active, is_activated, is_deactivated, date_of,
}
use swpt_debtors.Store.{debtor_row, put_debtor}
use swpt_debtors.Procedures.Monad.{now, find_debtor, save_debtor}
use swpt_debtors.Procedures.Decimal.{str_of_id, decimal, digit}
use swpt_debtors.Procedures.Debtors.{
  reserve_debtor, activate_debtor, restrict_debtor, get_debtor, get_active_debtor,
}
use swpt_debtors.Procedures.Signalling.{
  insert_configure_account_signal, add_configure_account_signal, configure_account_signal,
  next_config,
}
use swpt_debtors.Procedures.Config.{
  update_debtor_config, throttle_debtor_actions, allow_update, try_update, reset_actions,
  get_debtor_info_iri_from_config_data,
}
use swpt_debtors.Procedures.AccountUpdate.{
  is_old_event, heartbeat, apply_account_update, process_account_update_signal,
}
use swpt_debtors.Procedures.Messages.{AccountUpdate, RejectedTransfer}
use swpt_debtors.Actors.{rejected_transfer}
use swpt_debtors.System.{
  Event, flush, initiate, message, reserve, update_config, committed, step, run, empty,
}
use swpt_debtors.System
use swpt_debtors.Invariants.Announcements.{last_signal, IsAnnounced}
use swpt_debtors.Invariants.AnnouncedRuns.{run-IsAnnounced}
use swpt_debtors.Invariants.CheckedRuns.{IsAdmissible}
use swpt_debtors.Invariants.MeetsChecks.{MeetsChecks, run-MeetsChecks}
use swpt_debtors.Lifecycle.Configured.{announced_takes_effect}
use swpt_debtors.Tests.Sample.{whole, whole-IsStandard, report}
use swpt_debtors.Tests.Web.{node}
use swpt_debtors.Tests.Lifecycle.{ticks, gift}
use swpt_debtors.Tests.Exchange.{owner}

abbrev configuring : List Event
configuring =
    reserve (pos 5)
    ∷ System.activate (pos 5) "1"
    ∷ System.restrict (pos 5) (pos 0)
    ∷ update_config (pos 5) "https://example.com/" 2 300
    ∷ []

run-IsAnnounced_example : IsAnnounced (run node configuring (empty ticks))
run-IsAnnounced_example = run-IsAnnounced node configuring ticks

abbrev refusing : RejectedTransfer
refusing = record {
  coordinator_type = ct_issuing;
  coordinator_id = pos 5;
  coordinator_request_id = pos 1;
  debtor_id = pos 5;
  creditor_id = root_creditor_id;
  status_code = "TERMINATED";
  total_locked_amount = pos 3;
}

abbrev refused_history : List Event
refused_history =
    configuring
    ++ initiate (pos 5) 78 gift 300
      ∷ message (rejected_transfer refusing)
      ∷ flush [] (reserve (pos 6))
      ∷ []

run-MeetsChecks_example : MeetsChecks (run node refused_history (empty ticks))
unfolding IsAdmissible
run-MeetsChecks_example =
    run-MeetsChecks node refused_history ticks
      (tt, (tt, (omega arith, (tt, (tt, (ground arith, (tt, tt)))))))

configured_database : Database
configured_database = run node configuring (empty ticks)

abbrev configured_owner : Debtor
configured_owner = record owner {
  min_balance = pos 0;
  actions_count = 1;
  last_config_ts = ticks 9;
  last_config_seqnum = pos 3;
  config_data = "https://example.com/";
  config_latest_update_id = 2;
}

-- What the last message announces, and the clock after the run.
abbrev announcement : ConfigureAccountSignal
announcement = record {
  debtor_id = pos 5;
  ts = ticks 9;
  seqnum = pos 3;
  config_data = "https://example.com/";
  config_flags = pos 0;
  negligible_amount = 0;
  inserted_at = ticks 10;
}

configured_lem :
    (configured_database.debtors ≡ configured_owner ∷ [])
    × (last_signal (pos 5) configured_database.configure_account_signals ≡ some announcement)
    × (configured_database.clock configured_database.readings ≡ ticks 11)
unfolding run step reserve_debtor activate_debtor restrict_debtor update_debtor_config
    throttle_debtor_actions allow_update try_update debtor_row first int_eq update_rows now
    find_debtor save_debtor new_debtor insert_configure_account_signal str_of_id decimal digit
    activate get_active_debtor get_debtor is_active is_activated is_deactivated date_of put_debtor
    next_config reset_actions last_signal configured_database configure_account_signal
    add_configure_account_signal ◌+ℤ◌ ◌-ℤ◌
configured_lem = (refl, refl, refl)

found_owner : debtor_row (pos 5) configured_database.debtors ≡ some configured_owner
unfolding debtor_row first int_eq
found_owner = rw configured_lem.0

abbrev echo : AccountUpdate
echo = record report { last_config_ts = ticks 9; last_config_seqnum = pos 3; negligible_amount = 0 }

announced_takes_effect_example :
    let db = configured_database in
    let d' =
      apply_account_update echo (heartbeat echo.ts (db.clock db.readings) configured_owner) in
    (debtor_row (pos 5) (committed (process_account_update_signal echo db) db).debtors ≡ some d')
    × (d'.is_config_effectual ≡ true)
    × (d'.config_error ≡ none)
    × (d'.balance ≡ echo.principal)
    × (d'.debtor_info_iri ≡ get_debtor_info_iri_from_config_data announcement.config_data)
unfolding configured_database is_active is_old_event
announced_takes_effect_example =
    announced_takes_effect node configuring ticks configured_database echo configured_owner
      announcement whole-IsStandard refl found_owner refl (omega arith) configured_lem.1
      (refl, refl, refl, refl, refl) refl (omega (arith, configured_lem.2)) refl
