-- ===== src/Models/Tables.antt =====
-- The database: the tables, the sequences, and the clock that the program reads. The tables of the
-- signals keep every row that was inserted: they are the history of the messages sent.
use swpt_debtors.Prelude.{ℕ, List}
use swpt_debtors.Platform.{Timestamp}
use swpt_debtors.Models.Debtors.{Debtor}
use swpt_debtors.Models.Transfers.{RunningTransfer, Document}
use swpt_debtors.Models.Signals.{
  ConfigureAccountSignal, PrepareTransferSignal, FinalizeTransferSignal,
}

pub record Database : Type 0 where
  pub debtors : List Debtor
  pub running_transfers : List RunningTransfer
  pub documents : List Document
  pub configure_account_signals : List ConfigureAccountSignal
  pub prepare_transfer_signals : List PrepareTransferSignal
  pub finalize_transfer_signals : List FinalizeTransferSignal
  -- the next value of each sequence
  pub next_reservation_id : ℕ
  pub next_coordinator_request_id : ℕ
  pub next_document_id : ℕ
  pub next_signal_id : ℕ
  -- the readings of the clock, in their order, and the number of those made
  pub clock : ℕ → Timestamp
  pub readings : ℕ
