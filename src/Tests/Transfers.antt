-- ===== src/Tests/Transfers.antt =====
-- The theorems about transfers, at concrete inputs.
use swpt_debtors.Prelude.{
  ℕ, ◌+◌, ◌≤◌, ◌≡◌, refl, true, some, [], ◌∷◌, ◌++◌, nat_Eq, string_Eq, int_Eq, option_Eq,
  option_eq, ℤ, pos, ◌≤ℤ◌, ◌+ℤ◌, int_eq, first,
}
use swpt_debtors.Models.{Database, Debtor, is_active, date_of}
use swpt_debtors.Store.{debtor_row, transfer_row, request_row}
use swpt_debtors.Procedures.Monad.{ok, err, Error, transfer_exists, too_many_management_actions}
use swpt_debtors.Procedures.Config.{reset_actions}
use swpt_debtors.Procedures.Transfers.{TransferData, initiate_running_transfer}
use swpt_debtors.Procedures.Incoming.{process_prepared_issuing_transfer_signal}
use swpt_debtors.Procedures.Messages.{PreparedTransfer}
use swpt_debtors.System.{committed}
use swpt_debtors.Tests.Sample.{whole, alice, database, prepared}
use swpt_debtors.Behaviour.Prepared.{answer, committed_transfer, is_ok, prepared_answered}
use swpt_debtors.Behaviour.Initiation.{charged, initiate_refused, initiate_starts, initiated}

abbrev other_prepared : PreparedTransfer
other_prepared = record prepared { transfer_id = pos 124 }

abbrev request : TransferData
request = record {
  amount = 7;
  recipient_uri = "swpt:5/2";
  recipient = "2";
  transfer_note_format = "";
  transfer_note = "";
}

prepared_answered_example :
    let m : PreparedTransfer = prepared in
    let db : Database = database in
    (is_ok (process_prepared_issuing_transfer_signal m db) ≡ true)
    × ((committed (process_prepared_issuing_transfer_signal m db) db).finalize_transfer_signals
        ≡ db.finalize_transfer_signals
          ++ answer m
              (committed_transfer m
                (request_row m.coordinator_id m.coordinator_request_id db.running_transfers))
              db.next_signal_id
              (db.clock db.readings)
            ∷ [])
prepared_answered_example = prepared_answered prepared database

initiate_refused_example :
    let k : ℤ = pos 5 in
    let uuid : ℕ = 78 in
    let t : TransferData = request in
    let limit : ℕ = 2 in
    let db : Database = database in
    let e : Error = too_many_management_actions in
    initiate_running_transfer k uuid t limit db ≡ err e
unfolding request_row transfer_row debtor_row first int_eq option_eq is_active reset_actions date_of
initiate_refused_example =
    initiate_refused (pos 5) 78 request 2 database too_many_management_actions refl

initiate_starts_example :
    let k : ℤ = pos 5 in
    let uuid : ℕ = 78 in
    let t : TransferData = request in
    let limit : ℕ = 300 in
    let d : Debtor = alice in
    let db : Database = database in
    let rt = initiated k uuid t db in
    let d' = charged (db.clock db.readings) d in
    let r = initiate_running_transfer k uuid t limit db in
    let db' = committed r db in
    (r ≡ ok rt db')
    × (transfer_row k uuid db'.running_transfers ≡ some rt)
    × (debtor_row k db'.debtors ≡ some d')
    × (d'.actions_count ≤ limit)
    × (d'.running_transfers_count ≤ℤ pos limit)
    × (db'.prepare_transfer_signals
        ≡ db.prepare_transfer_signals
          ++ record {
            debtor_id = k;
            coordinator_request_id = rt.coordinator_request_id;
            amount = t.amount;
            recipient = t.recipient;
            inserted_at = db.clock (db.readings + 1 + 1);
          }
            ∷ [])
    × (db'.next_coordinator_request_id ≡ db.next_coordinator_request_id + 1)
    × (initiate_running_transfer k uuid t limit db' ≡ err transfer_exists)
unfolding request_row transfer_row debtor_row first int_eq option_eq is_active reset_actions date_of
    ◌+ℤ◌
initiate_starts_example = initiate_starts (pos 5) 78 request 300 alice database refl refl refl refl
