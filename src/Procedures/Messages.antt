-- ===== src/Procedures/Messages.antt =====
-- The keyword arguments of the incoming messages: the parameters of the handlers in
-- swpt_debtors/actors.py, which hand them to the procedures.
use swpt_debtors.Prelude.{ℕ, String, ℤ}
use swpt_debtors.Platform.{Float, Timestamp, Date}

pub record RejectedConfig : Type 0 where
  pub debtor_id : ℤ
  pub creditor_id : ℤ
  pub config_ts : Timestamp
  pub config_seqnum : ℤ
  pub negligible_amount : Float
  pub config_data : String
  pub config_flags : ℤ
  pub rejection_code : String

pub record AccountPurge : Type 0 where
  pub debtor_id : ℤ
  pub creditor_id : ℤ
  pub creation_date : Date

pub record RejectedTransfer : Type 0 where
  pub coordinator_type : String
  pub coordinator_id : ℤ
  pub coordinator_request_id : ℤ
  pub status_code : String
  pub total_locked_amount : ℤ
  pub debtor_id : ℤ
  pub creditor_id : ℤ

pub record PreparedTransfer : Type 0 where
  pub debtor_id : ℤ
  pub creditor_id : ℤ
  pub transfer_id : ℤ
  pub coordinator_type : String
  pub coordinator_id : ℤ
  pub coordinator_request_id : ℤ
  pub locked_amount : ℤ
  pub recipient : String

pub record FinalizedTransfer : Type 0 where
  pub debtor_id : ℤ
  pub creditor_id : ℤ
  pub transfer_id : ℤ
  pub coordinator_type : String
  pub coordinator_id : ℤ
  pub coordinator_request_id : ℤ
  pub committed_amount : ℤ
  pub status_code : String
  pub total_locked_amount : ℤ

-- The interest rate is received and not used.
pub record AccountUpdate : Type 0 where
  pub debtor_id : ℤ
  pub creditor_id : ℤ
  pub creation_date : Date
  pub last_change_ts : Timestamp
  pub last_change_seqnum : ℤ
  pub principal : ℤ
  pub interest_rate : Float
  pub last_config_ts : Timestamp
  pub last_config_seqnum : ℤ
  pub negligible_amount : Float
  pub config_data : String
  pub config_flags : ℤ
  pub account_id : String
  pub transfer_note_max_bytes : ℤ
  pub ts : Timestamp
  pub ttl : ℕ
