-- ===== src/Outgoing.antt =====
-- `Signal._create_message` and the schemas of the signals, of swpt_debtors/models.py: the messages
-- made of the rows. The JSON text of a body is left out; T_INFINITY is the final interest rate's
-- time, so it is not part of the body either.
pub mod Published
use swpt_debtors.Prelude.{
  ℕ, true, false, not, ◌&&◌, Option, none, some, List, [], ◌∷◌, String, ℤ, if◌then◌else◌,
}
use swpt_debtors.Platform.{Float, Timestamp}
use swpt_debtors.Settings.{Settings, is_valid_debtor_id}
use swpt_debtors.Models.{
  ConfigureAccountSignal, PrepareTransferSignal, FinalizeTransferSignal, root_creditor_id,
  ct_issuing, max_int32,
}

-- The bodies of the messages
pub record ConfigureAccount : Type 0 where
  pub debtor_id : ℤ
  pub creditor_id : ℤ
  pub ts : Timestamp
  pub seqnum : ℤ
  pub negligible_amount : Float
  pub config_data : String
  pub config_flags : ℤ

pub record PrepareTransfer : Type 0 where
  pub coordinator_type : String
  pub coordinator_id : ℤ
  pub coordinator_request_id : ℤ
  pub min_locked_amount : ℕ
  pub max_locked_amount : ℕ
  pub debtor_id : ℤ
  pub creditor_id : ℤ
  pub recipient : String
  pub ts : Timestamp
  pub max_commit_delay : ℕ

pub record FinalizeTransfer : Type 0 where
  pub debtor_id : ℤ
  pub creditor_id : ℤ
  pub transfer_id : ℤ
  pub coordinator_type : String
  pub coordinator_id : ℤ
  pub coordinator_request_id : ℤ
  pub committed_amount : ℕ
  pub transfer_note_format : String
  pub transfer_note : String
  pub ts : Timestamp

pub data Body : Type 0 where
  configure_account : ConfigureAccount → Body
  prepare_transfer : PrepareTransfer → Body
  finalize_transfer : FinalizeTransfer → Body

unfoldable pub dump_configure_account : ConfigureAccountSignal → ConfigureAccount
dump_configure_account x = record {
  debtor_id = x.debtor_id;
  creditor_id = root_creditor_id;
  ts = x.ts;
  seqnum = x.seqnum;
  negligible_amount = x.negligible_amount;
  config_data = x.config_data;
  config_flags = x.config_flags;
}

unfoldable pub dump_prepare_transfer : PrepareTransferSignal → PrepareTransfer
dump_prepare_transfer x = record {
  coordinator_type = ct_issuing;
  coordinator_id = x.debtor_id;
  coordinator_request_id = x.coordinator_request_id;
  min_locked_amount = x.amount;
  max_locked_amount = x.amount;
  debtor_id = x.debtor_id;
  creditor_id = root_creditor_id;
  recipient = x.recipient;
  ts = x.inserted_at;
  max_commit_delay = max_int32;
}

unfoldable pub dump_finalize_transfer : FinalizeTransferSignal → FinalizeTransfer
dump_finalize_transfer x = record {
  debtor_id = x.debtor_id;
  creditor_id = x.creditor_id;
  transfer_id = x.transfer_id;
  coordinator_type = ct_issuing;
  coordinator_id = x.coordinator_id;
  coordinator_request_id = x.coordinator_request_id;
  committed_amount = x.committed_amount;
  transfer_note_format = x.transfer_note_format;
  transfer_note = x.transfer_note;
  ts = x.inserted_at;
}

-- What the headers are made of
abbrev pub body_type : Body → String
body_type (configure_account b) = "ConfigureAccount"
body_type (prepare_transfer b) = "PrepareTransfer"
body_type (finalize_transfer b) = "FinalizeTransfer"

abbrev pub body_debtor_id : Body → ℤ
body_debtor_id (configure_account b) = b.debtor_id
body_debtor_id (prepare_transfer b) = b.debtor_id
body_debtor_id (finalize_transfer b) = b.debtor_id

abbrev pub body_creditor_id : Body → ℤ
body_creditor_id (configure_account b) = b.creditor_id
body_creditor_id (prepare_transfer b) = b.creditor_id
body_creditor_id (finalize_transfer b) = b.creditor_id

pub record Coordinator : Type 0 where
  pub coordinator_id : ℤ
  pub coordinator_type : String

abbrev pub body_coordinator : Body → Option Coordinator
body_coordinator (configure_account b) = none
body_coordinator (prepare_transfer b) =
    some (record { coordinator_id = b.coordinator_id; coordinator_type = b.coordinator_type })
body_coordinator (finalize_transfer b) =
    some (record { coordinator_id = b.coordinator_id; coordinator_type = b.coordinator_type })

pub record OutMessage : Type 0 where
  pub message_type : String
  pub debtor_id : ℤ
  pub creditor_id : ℤ
  pub coordinator : Option Coordinator
  pub body : Body

-- A left-over of the parent shard is ignored; for any other foreign debtor a `RuntimeError` is
-- raised.
pub data Created : Type 0 where
  message : OutMessage → Created
  ignored : Created
  not_responsible : Created

unfoldable pub out_message : Body → OutMessage
out_message b = record {
  message_type = body_type b;
  debtor_id = body_debtor_id b;
  creditor_id = body_creditor_id b;
  coordinator = body_coordinator b;
  body = b;
}

unfoldable pub create_message : Settings → Body → Created
unfolding out_message
create_message s b =
    if not (is_valid_debtor_id s (body_debtor_id b) false)
    then (if s.delete_parent_shard_records && is_valid_debtor_id s (body_debtor_id b) true
        then ignored
        else not_responsible)
    else message (out_message b)

-- `send_signalbus_messages`: the messages that are published, or `none` for the exception, which
-- leaves them all unsent
abbrev pub add_message : Created → Option (List OutMessage) → Option (List OutMessage)
add_message (message m) none = none
add_message (message m) (some ms) = some (m ∷ ms)
add_message ignored rest = rest
add_message not_responsible rest = none

unfoldable pub messages_of : Settings → List Body → Option (List OutMessage)
unfolding create_message
messages_of s [] = some []
messages_of s (b ∷ bs) = add_message (create_message s b) (messages_of s bs)
