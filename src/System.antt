-- ===== src/System.antt =====
-- The whole system as a sequence of transactions: the procedures that the Web API calls, the
-- incoming messages, and the passes of the scanner, in any order.
use swpt_debtors.Prelude.{ℕ, Bool, String, List, [], ◌∷◌, ℤ, if◌then◌else◌}
use swpt_debtors.Platform.{Platform, Timestamp}
use swpt_debtors.Settings.{Settings}
use swpt_debtors.Models.{Database, Debtor, ConfigureAccountSignal}
use swpt_debtors.Procedures.Flush.{violates_key}
use swpt_debtors.Procedures.Monad.{Result, ok, err}
use swpt_debtors.Procedures.Debtors.{
  reserve_debtor, activate_debtor, deactivate_debtor, restrict_debtor,
}
use swpt_debtors.Procedures.Config.{update_debtor_config}
use swpt_debtors.Procedures.Transfers.{
  TransferData, initiate_running_transfer, cancel_running_transfer, delete_running_transfer,
}
use swpt_debtors.Procedures.Documents.{save_document}
use swpt_debtors.Actors.{Message, actor}
use swpt_debtors.Scanner.{
  delete_parent_shard_debtors, delete_debtors_not_activated_for_long_time,
  set_config_errors_if_necessary,
}

-- One transaction. A pass of the scanner has the keys that are not locked and the rows scanned.
-- A transaction under `flush` ends with a flush into a table of signals that has the given rows.
pub data Event : Type 0 where
  reserve : ℤ → Event
  activate : ℤ → String → Event
  deactivate : ℤ → Event
  restrict : ℤ → ℤ → Event
  update_config : ℤ → String → ℕ → ℕ → Event
  initiate : ℤ → ℕ → TransferData → ℕ → Event
  cancel : ℤ → ℕ → Event
  delete : ℤ → ℕ → Event
  save : ℤ → String → List ℕ → ℕ → Event
  message : Message → Event
  scan_parent_shard : (ℤ → Bool) → List Debtor → Event
  scan_inactive : (ℤ → Bool) → List Debtor → Timestamp → Event
  scan_config : (ℤ → Bool) → List Debtor → Timestamp → Event
  flush : List ConfigureAccountSignal → Event → Event

-- The database after a transaction: it is committed, or rolled back.
abbrev pub committed : {A : Type 0} → Result A → Database → Database
committed (ok _ db') db = db'
committed (err _) db = db

module _ ⦃p : Platform⦄ (s : Settings) where
  unfoldable pub step : Event → Database → Database
  unfolding violates_key
  step (reserve debtor_id) db = committed (reserve_debtor debtor_id db) db
  step (activate debtor_id reservation_id) db =
      committed (activate_debtor debtor_id reservation_id db) db
  step (deactivate debtor_id) db = committed (deactivate_debtor debtor_id db) db
  step (restrict debtor_id min_balance) db = committed (restrict_debtor debtor_id min_balance db) db
  step (update_config debtor_id config_data latest_update_id limit) db =
      committed (update_debtor_config debtor_id config_data latest_update_id limit db) db
  step (initiate debtor_id uuid t limit) db =
      committed (initiate_running_transfer debtor_id uuid t limit db) db
  step (cancel debtor_id uuid) db = committed (cancel_running_transfer debtor_id uuid db) db
  step (delete debtor_id uuid) db = committed (delete_running_transfer debtor_id uuid db) db
  step (save debtor_id content_type content limit) db =
      committed (save_document debtor_id content_type content limit db) db
  step (message m) db = committed (actor m db) db
  step (scan_parent_shard unlocked rows) db = delete_parent_shard_debtors s unlocked rows db
  step (scan_inactive unlocked rows current_ts) db =
      delete_debtors_not_activated_for_long_time s unlocked rows current_ts db
  step (scan_config unlocked rows current_ts) db =
      set_config_errors_if_necessary s unlocked rows current_ts db
  step (flush present e) db = let db' = step e db in if violates_key present db db' then db else db'

  unfoldable pub run : List Event → Database → Database
  run [] db = db
  run (e ∷ es) db = run es (step e db)

  -- An invariant of the steps holds after every run.
  pub run_induction :
      (P : Database → Type 0)
      → ((e : Event) (db : Database) → P db → P (step e db))
      → (es : List Event) (db : Database) → P db
      → P (run es db)
  unfolding run
  run_induction P keeps [] db h = h
  run_induction P keeps (e ∷ es) db h = run_induction P keeps es (step e db) (keeps e db h)

-- An empty database.
abbrev pub empty : (ℕ → Timestamp) → Database
empty clock = record {
  debtors = [];
  running_transfers = [];
  documents = [];
  configure_account_signals = [];
  prepare_transfer_signals = [];
  finalize_transfer_signals = [];
  next_reservation_id = 1;
  next_coordinator_request_id = 1;
  next_document_id = 1;
  next_signal_id = 1;
  clock = clock;
  readings = 0;
}
