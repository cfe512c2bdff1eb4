-- ===== src/Tests/Exchange.antt =====
-- A whole exchange with the accounting authority, at a concrete run.
use swpt_debtors.Prelude.{
  ◌≡◌, refl, ap, false, none, some, List, [], ◌∷◌, ◌++◌, nat_Eq, string_Eq, int_Eq, option_Eq,
  option_eq, pos, ◌+ℤ◌, int_eq, first, update_rows, arith,
}
use swpt_debtors.Models.{
  Database, Debtor, RunningTransfer, PrepareTransferSignal, FinalizeTransferSignal, is_settled,
  is_active, is_finalized, min_int64, date_of, is_activated, is_deactivated, activate, new_debtor,
}
use swpt_debtors.Store.{debtor_row, transfer_row, request_row, put_debtor, put_transfer}
use swpt_debtors.Procedures.Transfers.{
  initiate_running_transfer, new_running_transfer, refuse_if_initiated, insert_running_transfer,
  cancel_running_transfer,
}
use swpt_debtors.Procedures.Messages.{FinalizedTransfer}
use swpt_debtors.Procedures.Incoming.{
  process_finalized_issuing_transfer_signal, process_prepared_issuing_transfer_signal,
  answer_prepared_transfer, the_signal_matches_the_transfer, settle, commit_prepared_transfer,
}
use swpt_debtors.Procedures.Debtors.{reserve_debtor, activate_debtor, get_active_debtor, get_debtor}
use swpt_debtors.Procedures.Decimal.{str_of_id, decimal, digit}
use swpt_debtors.Procedures.Config.{reset_actions, throttle_debtor_actions}
use swpt_debtors.Procedures.Monad.{now, find_debtor, save_debtor}
use swpt_debtors.Procedures.Signalling.{insert_configure_account_signal, next_config}
use swpt_debtors.Actors.{actor, prepared_transfer, finalized_transfer}
use swpt_debtors.Outgoing.{dump_prepare_transfer, dump_finalize_transfer}
use swpt_debtors.Schemas.Transfers.{result_of, checkup_of}
use swpt_debtors.System
use swpt_debtors.System.{committed, Event, step, run, empty, reserve}
use swpt_debtors.Behaviour.Prepared.{answer}
use swpt_debtors.Behaviour.Initiation.{initiated, debtor_refusal}
use swpt_debtors.Behaviour.Outcome.{finalization_reported, finalized_by, reported}
use swpt_debtors.Lifecycle.Exchange.{issue_succeeds}
use swpt_debtors.Lifecycle.Protocol.{Prepares, Commits, last_of, taken_by}
use swpt_debtors.Tests.Sample.{whole, payment, database}
use swpt_debtors.Tests.Web.{node}
use swpt_debtors.Tests.Lifecycle.{ticks, gift, first_lock}

abbrev pub opening : List Event
opening = reserve (pos 5) ∷ System.activate (pos 5) "1" ∷ []

abbrev pub start : Database
start = run node opening (empty ticks)

-- The debtor that the run activates.
abbrev pub owner : Debtor
owner = record {
  debtor_id = pos 5;
  status_flags = 1;
  deactivation_date = none;
  reservation_id = some 1;
  created_at = ticks 0;
  balance = pos 0;
  min_balance = min_int64;
  transfer_note_max_bytes = pos 0;
  running_transfers_count = pos 0;
  actions_count = 0;
  actions_count_reset_date = 738001;
  documents_count = 0;
  documents_count_reset_date = 738001;
  has_server_account = false;
  account_creation_date = 719163;
  account_last_change_ts = 62135683200000000;
  account_last_change_seqnum = pos 0;
  account_last_heartbeat_ts = ticks 3;
  account_id = "";
  last_config_ts = ticks 4;
  last_config_seqnum = pos 1;
  is_config_effectual = false;
  config_flags = pos 0;
  config_data = "";
  config_error = none;
  config_latest_update_id = 1;
  debtor_info_iri = none;
}

pub start_lem :
    (start.debtors ≡ owner ∷ [])
    × (start.running_transfers ≡ [])
    × (start.next_coordinator_request_id ≡ 1)
    × (debtor_refusal (some owner) 300 (start.clock start.readings) ≡ none)
unfolding run step reserve_debtor activate_debtor debtor_row first int_eq update_rows now
    find_debtor save_debtor new_debtor insert_configure_account_signal str_of_id decimal digit
    activate get_active_debtor get_debtor is_active is_activated is_deactivated date_of ◌+ℤ◌
    put_debtor next_config reset_actions
start_lem = (refl, refl, refl, refl)

start_owner : debtor_row (pos 5) start.debtors ≡ some owner
unfolding debtor_row first int_eq
start_owner = ap (debtor_row (pos 5)) start_lem.0

start_vacant : transfer_row (pos 5) 78 start.running_transfers ≡ none
unfolding transfer_row first
start_vacant = ap (transfer_row (pos 5) 78) start_lem.1

-- The report that the transfer of the first prepared transfer has been committed.
abbrev report_of_success : FinalizedTransfer
report_of_success = record {
  debtor_id = pos 5;
  creditor_id = pos 0;
  transfer_id = pos 123;
  coordinator_type = "issuing";
  coordinator_id = pos 5;
  coordinator_request_id = pos 1;
  committed_amount = pos 7;
  status_code = "OK";
  total_locked_amount = pos 0;
}

-- Between the messages another debtor is reserved, and a cancellation is refused.
abbrev asked_by : List Event
asked_by = reserve (pos 6) ∷ []

abbrev told_by : List Event
told_by = System.cancel (pos 5) 78 ∷ []

abbrev db1 : Database
db1 = committed (initiate_running_transfer (pos 5) 78 gift 300 start) start

abbrev db2 : Database
db2 = run node asked_by db1

abbrev db3 : Database
db3 = committed (actor (prepared_transfer first_lock) db2) db2

abbrev db4 : Database
db4 = run node told_by db3

abbrev ask : PrepareTransferSignal
ask = record {
  debtor_id = pos 5;
  coordinator_request_id = pos 1;
  amount = 7;
  recipient = "2";
  inserted_at = ticks 8;
}

abbrev tell : FinalizeTransferSignal
tell = record {
  signal_id = 1;
  debtor_id = pos 5;
  creditor_id = pos 0;
  coordinator_id = pos 5;
  coordinator_request_id = pos 1;
  transfer_id = pos 123;
  committed_amount = 7;
  transfer_note_format = "";
  transfer_note = "";
  inserted_at = ticks 13;
}

exchange_lem :
    (last_of db1.prepare_transfer_signals ≡ some ask)
    × (request_row
          (pos 5)
          (initiated (pos 5) 78 gift start).coordinator_request_id
          db2.running_transfers
        ≡ some (initiated (pos 5) 78 gift start))
    × (last_of db3.finalize_transfer_signals ≡ some tell)
    × (request_row
          (pos 5)
          (initiated (pos 5) 78 gift start).coordinator_request_id
          db4.running_transfers
        ≡ some (taken_by first_lock (initiated (pos 5) 78 gift start)))
unfolding last_of run step reserve_debtor activate_debtor initiate_running_transfer transfer_row
    debtor_row request_row first int_eq update_rows now find_debtor save_debtor new_debtor
    insert_configure_account_signal str_of_id decimal digit activate get_active_debtor get_debtor
    is_active is_activated is_deactivated throttle_debtor_actions reset_actions date_of
    refuse_if_initiated insert_running_transfer new_running_transfer ◌+ℤ◌ put_debtor next_config
    actor process_prepared_issuing_transfer_signal answer_prepared_transfer
    the_signal_matches_the_transfer settle is_finalized option_eq put_transfer
    commit_prepared_transfer cancel_running_transfer is_settled
exchange_lem = (refl, refl, refl, refl)

echoes : Prepares (dump_prepare_transfer ask) first_lock
unfolding dump_prepare_transfer
echoes = record {
  type = refl;
  coordinator = refl;
  request = refl;
  debtor = refl;
  creditor = refl;
  recipient = refl;
  locked = omega arith;
}

reported_back : Commits (dump_finalize_transfer tell) report_of_success
unfolding dump_finalize_transfer
reported_back = record {
  type = refl;
  coordinator = refl;
  request = refl;
  debtor = refl;
  creditor = refl;
  transfer = refl;
  committed = refl;
  status = refl;
}

issue_succeeds_example :
    let rt = initiated (pos 5) 78 gift start in
    let db5 = committed (actor (finalized_transfer report_of_success) db4) db4 in
    let rt' = finalized_by report_of_success (taken_by first_lock rt) (db4.clock db4.readings) in
    (db3.finalize_transfer_signals
      ≡ db2.finalize_transfer_signals
        ++ answer first_lock (some rt) db2.next_signal_id (db2.clock db2.readings) ∷ [])
    × (request_row (pos 5) rt.coordinator_request_id db5.running_transfers ≡ some rt')
    × (result_of rt'
        ≡ some
            (record { finalized_at = db4.clock db4.readings; committed_amount = 7; error = none }))
unfolding is_active
issue_succeeds_example =
    issue_succeeds node asked_by told_by start (pos 5) 78 gift 300 owner ask first_lock tell
      report_of_success start_vacant start_owner refl start_lem.3 exchange_lem.0 echoes
      exchange_lem.1 exchange_lem.2 reported_back exchange_lem.3

-- The message is about a transfer that is open and has taken the prepared transfer 123.
abbrev settled_payment : RunningTransfer
settled_payment = record payment { transfer_id = some (pos 123) }

abbrev settled_database : Database
settled_database = record database { running_transfers = settled_payment ∷ [] }

abbrev report_of_failure : FinalizedTransfer
report_of_failure = record report_of_success {
  coordinator_request_id = pos 9;
  committed_amount = pos 0;
  status_code = "INSUFFICIENT_AVAILABLE_AMOUNT";
  total_locked_amount = pos 30;
}

finalization_reported_example :
    let rt' = finalized_by report_of_failure settled_payment (settled_database.clock 0) in
    let db' =
      committed
        (process_finalized_issuing_transfer_signal report_of_failure settled_database)
        settled_database in
    (request_row (pos 5) (pos 9) db'.running_transfers ≡ some rt')
    × (result_of rt' ≡ some (reported report_of_failure settled_payment (settled_database.clock 0)))
    × (checkup_of 20000000 (ticks 0) rt' ≡ none)
unfolding request_row first int_eq is_finalized option_eq
finalization_reported_example =
    finalization_reported report_of_failure settled_payment settled_database 20000000 (ticks 0) refl
      refl refl
