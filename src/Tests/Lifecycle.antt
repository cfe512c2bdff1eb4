-- ===== src/Tests/Lifecycle.antt =====
-- The theorems about the life of a transfer, at a concrete run.
use swpt_debtors.Prelude.{
  ℕ, ◌+◌, ◌≡◌, refl, ap, none, some, List, [], ◌∷◌, ◌++◌, nat_Eq, string_Eq, int_Eq, option_Eq,
  option_eq, pos, ◌+ℤ◌, int_eq, first, update_rows,
}
use swpt_debtors.Platform.{Timestamp}
use swpt_debtors.Models.{RunningTransfer, is_settled, is_finalized, is_active}
use swpt_debtors.Store.{debtor_row, transfer_row, request_row, put_debtor}
use swpt_debtors.Procedures.Transfers.{
  TransferData, cancel_running_transfer, initiate_running_transfer, new_running_transfer,
}
use swpt_debtors.Procedures.Monad.{ok}
use swpt_debtors.Procedures.Messages.{PreparedTransfer}
use swpt_debtors.Procedures.Incoming.{
  process_prepared_issuing_transfer_signal, the_signal_matches_the_transfer,
}
use swpt_debtors.Procedures.Debtors.{reserve_debtor, activate_debtor, get_active_debtor, get_debtor}
use swpt_debtors.Procedures.Decimal.{str_of_id, decimal, digit}
use swpt_debtors.Procedures.Config.{throttle_debtor_actions, reset_actions}
use swpt_debtors.Procedures.Monad.{now, find_debtor, save_debtor}
use swpt_debtors.Procedures.Signalling.{insert_configure_account_signal, next_config}
use swpt_debtors.Procedures.Transfers.{refuse_if_initiated, insert_running_transfer}
use swpt_debtors.Models.{date_of, is_activated, is_deactivated, activate, new_debtor}
use swpt_debtors.System
use swpt_debtors.System.{
  committed, Event, step, run, empty, reserve, initiate, cancel, delete, message,
}
use swpt_debtors.Actors.{prepared_transfer}
use swpt_debtors.Behaviour.Prepared.{answer}
use swpt_debtors.Behaviour.Cancellation.{cancelled}
use swpt_debtors.Lifecycle.Changes.{Change}
use swpt_debtors.Lifecycle.History.{Survives}
use swpt_debtors.Lifecycle.Steps.{step-Change}
use swpt_debtors.Lifecycle.Runs.{HasKeys, run-Keys}
use swpt_debtors.Lifecycle.Promises.{transfer_lasts, only_one_committed, cancelled_never_committed}
use swpt_debtors.Tests.Sample.{whole, prepared}
use swpt_debtors.Tests.Web.{node}

abbrev pub ticks : ℕ → Timestamp
ticks = λ n. 63763300000000000 + n

abbrev pub gift : TransferData
gift = record {
  amount = 7;
  recipient_uri = "swpt:5/2";
  recipient = "2";
  transfer_note_format = "";
  transfer_note = "";
}

abbrev history : List Event
history = reserve (pos 5) ∷ System.activate (pos 5) "1" ∷ initiate (pos 5) 78 gift 300 ∷ []

-- The transfer that the run starts, with the request identifier 1.
abbrev given : RunningTransfer
given = record {
  debtor_id = pos 5;
  transfer_uuid = 78;
  amount = 7;
  recipient_uri = "swpt:5/2";
  recipient = "2";
  transfer_note_format = "";
  transfer_note = "";
  initiated_at = ticks 7;
  finalized_at = none;
  error_code = none;
  total_locked_amount = none;
  coordinator_request_id = pos 1;
  transfer_id = none;
}

given_rows : (run node history (empty ticks)).running_transfers ≡ given ∷ []
unfolding run step reserve_debtor activate_debtor initiate_running_transfer transfer_row debtor_row
    request_row first int_eq update_rows now find_debtor save_debtor new_debtor
    insert_configure_account_signal str_of_id decimal digit activate get_active_debtor get_debtor
    is_active is_activated is_deactivated throttle_debtor_actions reset_actions date_of
    refuse_if_initiated insert_running_transfer new_running_transfer ◌+ℤ◌ put_debtor next_config
given_rows = refl

given_request :
    request_row (pos 5) (pos 1) (run node history (empty ticks)).running_transfers ≡ some given
unfolding request_row first int_eq
given_request = ap (request_row (pos 5) (pos 1)) given_rows

given_uuid : transfer_row (pos 5) 78 (run node history (empty ticks)).running_transfers ≡ some given
unfolding transfer_row first int_eq
given_uuid = ap (transfer_row (pos 5) 78) given_rows

-- The first prepared transfer for the request, and another one.
abbrev pub first_lock : PreparedTransfer
first_lock = record prepared {
  coordinator_request_id = pos 1;
  locked_amount = pos 7;
  recipient = "2";
}

abbrev second_lock : PreparedTransfer
second_lock = record first_lock { transfer_id = pos 124 }

run-Keys_example : HasKeys (run node history (empty ticks))
run-Keys_example = run-Keys node history ticks

step-Change_example :
    Change
      (run node history (empty ticks))
      (step node (cancel (pos 5) 78) (run node history (empty ticks)))
step-Change_example = step-Change node (cancel (pos 5) 78) (run node history (empty ticks))

transfer_lasts_example :
    let db = run node history (empty ticks) in
    let later : List Event = message (prepared_transfer first_lock) ∷ cancel (pos 5) 78 ∷ [] in
    Survives (some given) (request_row (pos 5) (pos 1) (run node later db).running_transfers)
transfer_lasts_example =
    transfer_lasts node history (message (prepared_transfer first_lock) ∷ cancel (pos 5) 78 ∷ [])
      ticks (run node history (empty ticks)) (pos 5) (pos 1) given refl given_request

only_one_committed_example :
    let db = run node history (empty ticks) in
    let db1 = committed (process_prepared_issuing_transfer_signal first_lock db) db in
    let db2 = run node (cancel (pos 5) 78 ∷ []) db1 in
    (db1.finalize_transfer_signals
      ≡ db.finalize_transfer_signals
        ++ answer first_lock (some given) db.next_signal_id (db.clock db.readings) ∷ [])
    × ((committed
          (process_prepared_issuing_transfer_signal second_lock db2)
          db2).finalize_transfer_signals
        ≡ db2.finalize_transfer_signals
          ++ answer second_lock none db2.next_signal_id (db2.clock db2.readings) ∷ [])
unfolding the_signal_matches_the_transfer is_finalized int_eq option_eq
only_one_committed_example =
    only_one_committed node history (cancel (pos 5) 78 ∷ []) ticks (run node history (empty ticks))
      first_lock second_lock given refl given_request refl refl refl refl

cancelled_never_committed_example :
    let db = run node history (empty ticks) in
    let db1 = committed (cancel_running_transfer (pos 5) 78 db) db in
    let db2 = run node (message (prepared_transfer second_lock) ∷ []) db1 in
    (cancel_running_transfer (pos 5) 78 db ≡ ok (cancelled given (db.clock db.readings)) db1)
    × ((committed
          (process_prepared_issuing_transfer_signal first_lock db2)
          db2).finalize_transfer_signals
        ≡ db2.finalize_transfer_signals
          ++ answer first_lock none db2.next_signal_id (db2.clock db2.readings) ∷ [])
unfolding is_settled
cancelled_never_committed_example =
    cancelled_never_committed node history (message (prepared_transfer second_lock) ∷ []) ticks
      (run node history (empty ticks)) (pos 5) 78 given first_lock refl given_uuid refl refl refl
