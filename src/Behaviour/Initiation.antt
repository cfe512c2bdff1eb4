-- ===== src/Behaviour/Initiation.antt =====
-- `initiate_running_transfer`: its errors, in the order of its tests, and what it does otherwise.
use swpt_debtors.Prelude.{
  ℕ, ◌+◌, ◌≤◌, ◌≡◌, refl, ap, ◌∙◌, leb, true, Option, none, some, [], ◌∷◌, ◌++◌, nat_Eq, str_eq_iff,
  int_Eq, int_eq_iff, ℤ, pos, ◌≤ℤ◌, ◌+ℤ◌, ltb_ℤ, arith, if◌then◌else◌,
}
use swpt_debtors.Platform.{Timestamp}
use swpt_debtors.Models.{Database, Debtor, RunningTransfer, is_active}
use swpt_debtors.Store.{debtor_row, put_debtor, transfer_row}
use swpt_debtors.Store.DebtorLaws.{debtor_row-put_self, debtor_row-id}
use swpt_debtors.Store.TransferLaws.{transfer_row-append}
use swpt_debtors.Procedures.Monad.{
  Error, ok, err, debtor_does_not_exist, transfer_exists, transfers_conflict,
  too_many_management_actions, too_many_running_transfers,
}
use swpt_debtors.Procedures.Debtors.{only_active}
use swpt_debtors.Procedures.Config.{reset_actions}
use swpt_debtors.Procedures.Transfers.{
  TransferData, same_transfer_data, refuse_if_initiated, new_running_transfer,
  initiate_running_transfer,
}
use swpt_debtors.System.{committed}

-- The error of a request, by the transfer of that UUID and the active debtor that are found.
abbrev pub debtor_refusal : Option Debtor → ℕ → Timestamp → Option Error
debtor_refusal none limit now = some debtor_does_not_exist
debtor_refusal (some d) limit now =
    if leb limit (reset_actions now d).actions_count
    then some too_many_management_actions
    else if ltb_ℤ (pos limit) ((reset_actions now d).running_transfers_count +ℤ pos 1)
    then some too_many_running_transfers
    else none

abbrev pub refusal :
    Option RunningTransfer → Option Debtor → TransferData → ℕ → Timestamp → Option Error
refusal none debtor t limit now = debtor_refusal debtor limit now
refusal (some rt) debtor t limit now =
    some (if same_transfer_data rt t then transfer_exists else transfers_conflict)

-- A request that is refused raises the error of the first test that it fails: a transfer of the same
-- UUID comes first, then the debtor, then the two limits.
pub initiate_refused :
    (k : ℤ) (uuid : ℕ) (t : TransferData) (limit : ℕ) (db : Database) (e : Error)
    → refusal
        (transfer_row k uuid db.running_transfers)
        (only_active (debtor_row k db.debtors))
        t
        limit
        (db.clock db.readings)
      ≡ some e
    → initiate_running_transfer k uuid t limit db ≡ err e
unfolding initiate_running_transfer refuse_if_initiated
initiate_refused k uuid t limit db e h = ground arith

-- The debtor after a management action that starts a transfer.
abbrev pub charged : Timestamp → Debtor → Debtor
charged now d = record (reset_actions now d) {
  actions_count = (reset_actions now d).actions_count + 1;
  running_transfers_count = (reset_actions now d).running_transfers_count +ℤ pos 1;
}

abbrev pub initiated : ℤ → ℕ → TransferData → Database → RunningTransfer
initiated k uuid t db =
    new_running_transfer k uuid t (db.clock (db.readings + 1)) (pos db.next_coordinator_request_id)

debtor_id-reset : (now : Timestamp) (d : Debtor) → (reset_actions now d).debtor_id ≡ d.debtor_id
unfolding reset_actions
debtor_id-reset now d = ground arith

pub initiate_found :
    (k : ℤ) (uuid : ℕ) (t : TransferData) (limit : ℕ) (d : Debtor) (db : Database)
    → transfer_row k uuid db.running_transfers ≡ none
    → debtor_row k db.debtors ≡ some d
    → is_active d ≡ true
    → debtor_refusal (some d) limit (db.clock db.readings) ≡ none
    → let rt = initiated k uuid t db in
      let r = initiate_running_transfer k uuid t limit db in
      let db' = committed r db in
      (r ≡ ok rt db')
      × (db'.running_transfers ≡ db.running_transfers ++ rt ∷ [])
      × (db'.debtors ≡ put_debtor (charged (db.clock db.readings) d) db.debtors)
      × (db'.prepare_transfer_signals
          ≡ db.prepare_transfer_signals
            ++ record {
              debtor_id = k;
              coordinator_request_id = rt.coordinator_request_id;
              amount = t.amount;
              recipient = t.recipient;
              inserted_at = db.clock (db.readings + 1 + 1);
            }
              ∷ [])
      × (db'.next_coordinator_request_id ≡ db.next_coordinator_request_id + 1)
unfolding initiate_running_transfer refuse_if_initiated
initiate_found k uuid t limit d db free row active fits =
    (ground arith, ground arith, ground arith, ground arith, ground arith)

pub fields_of_initiated :
    (k : ℤ) (uuid : ℕ) (t : TransferData) (db : Database)
    → let rt = initiated k uuid t db in
      (rt.debtor_id ≡ k) × (rt.transfer_uuid ≡ uuid) × (same_transfer_data rt t ≡ true)
unfolding new_running_transfer same_transfer_data
fields_of_initiated k uuid t db = (
  refl,
  refl,
  ground (
    arith,
    str_eq_iff t.recipient_uri t.recipient_uri,
    str_eq_iff t.recipient t.recipient,
    str_eq_iff t.transfer_note_format t.transfer_note_format,
    str_eq_iff t.transfer_note t.transfer_note,
  ),
)

within_limits :
    (limit : ℕ) (now : Timestamp) (d : Debtor)
    → debtor_refusal (some d) limit now ≡ none
    → ((charged now d).actions_count ≤ limit)
      × ((charged now d).running_transfers_count ≤ℤ pos limit)
within_limits limit now d fits = (ground arith, ground arith)

-- A request of an active debtor within its limits starts one transfer: its row is found by its
-- UUID, a message asks for a prepared transfer under a request identifier that is the next of its
-- sequence, and the debtor's counters go up by one and stay within the limit. The same request again
-- is answered with the transfer that exists, whatever the limit.
pub initiate_starts :
    (k : ℤ) (uuid : ℕ) (t : TransferData) (limit : ℕ) (d : Debtor) (db : Database)
    → transfer_row k uuid db.running_transfers ≡ none
    → debtor_row k db.debtors ≡ some d
    → is_active d ≡ true
    → debtor_refusal (some d) limit (db.clock db.readings) ≡ none
    → let rt = initiated k uuid t db in
      let d' = charged (db.clock db.readings) d in
      let r = initiate_running_transfer k uuid t limit db in
      let db' = committed r db in
      (r ≡ ok rt db')
      × (transfer_row k uuid db'.running_transfers ≡ some rt)
      × (debtor_row k db'.debtors ≡ some d')
      × (d'.actions_count ≤ limit)
      × (d'.running_transfers_count ≤ℤ pos limit)
      × (db'.prepare_transfer_signals
          ≡ db.prepare_transfer_signals
            ++ record {
              debtor_id = k;
              coordinator_request_id = rt.coordinator_request_id;
              amount = t.amount;
              recipient = t.recipient;
              inserted_at = db.clock (db.readings + 1 + 1);
            }
              ∷ [])
      × (db'.next_coordinator_request_id ≡ db.next_coordinator_request_id + 1)
      × (initiate_running_transfer k uuid t limit db' ≡ err transfer_exists)
initiate_starts k uuid t limit d db free row active fits =
    let rt = initiated k uuid t db in
    let now = db.clock db.readings in
    let d' = charged now d in
    let db' = committed (initiate_running_transfer k uuid t limit db) db in
    let done = initiate_found k uuid t limit d db free row active fits in
    let key = fields_of_initiated k uuid t db in
    let limits = within_limits limit now d fits in
    let row' : transfer_row k uuid db'.running_transfers ≡ some rt =
      ap (transfer_row k uuid) done.1
      ∙ ground (
        arith,
        free,
        key.0,
        key.1,
        transfer_row-append k uuid db.running_transfers rt,
        int_eq_iff rt.debtor_id k,
      ) in
    (
      done.0,
      row',
      ap (debtor_row k) done.2
          ∙ debtor_row-put_self k d d' db.debtors row
              (debtor_id-reset now d ∙ debtor_row-id k db.debtors d row),
      limits.0,
      limits.1,
      done.3,
      done.4,
      initiate_refused k uuid t limit db' transfer_exists (ground (arith, row', key.2)),
    )
