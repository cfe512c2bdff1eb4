-- ===== src/Models/Signals.antt =====
-- The outgoing messages, as rows of their tables.
use swpt_debtors.Prelude.{ℕ, String, ℤ}
use swpt_debtors.Platform.{Float, Timestamp}

pub record ConfigureAccountSignal : Type 0 where
  pub debtor_id : ℤ
  pub ts : Timestamp
  pub seqnum : ℤ
  pub config_data : String
  pub config_flags : ℤ
  pub negligible_amount : Float
  pub inserted_at : Timestamp

pub record PrepareTransferSignal : Type 0 where
  pub debtor_id : ℤ
  pub coordinator_request_id : ℤ
  pub amount : ℕ
  pub recipient : String
  pub inserted_at : Timestamp

pub record FinalizeTransferSignal : Type 0 where
  pub debtor_id : ℤ
  pub signal_id : ℕ
  pub creditor_id : ℤ
  pub coordinator_id : ℤ
  pub coordinator_request_id : ℤ
  pub transfer_id : ℤ
  pub transfer_note_format : String
  pub transfer_note : String
  pub committed_amount : ℕ
  pub inserted_at : Timestamp
