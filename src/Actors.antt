-- ===== src/Actors.antt =====
-- swpt_debtors/actors.py: the handlers of the incoming messages, and the consumer that finds the
-- handler of a message. A handler that raises has changed nothing.
use swpt_debtors.Prelude.{
  Bool, true, false, not, Option, none, some, String, ◌==◌, string_Eq, option_Eq, ℤ, if◌then◌else◌,
}
use swpt_debtors.Platform.{Platform}
use swpt_debtors.Settings.{Settings, is_valid_debtor_id}
use swpt_debtors.Models.{Database, ct_issuing}
use swpt_debtors.Procedures.Monad.{
  Procedure, Result, ok, err, Error, invalid_reservation_id, debtor_exists, pure,
}
use swpt_debtors.Procedures.Debtors.{activate_debtor}
use swpt_debtors.Procedures.Incoming.{
  process_rejected_config_signal, process_account_purge_signal,
  process_rejected_issuing_transfer_signal, process_prepared_issuing_transfer_signal,
  process_finalized_issuing_transfer_signal,
}
use swpt_debtors.Procedures.AccountUpdate.{process_account_update_signal}
use swpt_debtors.Procedures.Messages.{
  RejectedConfig, AccountPurge, RejectedTransfer, PreparedTransfer, FinalizedTransfer,
  AccountUpdate,
}

-- A message that its schema has accepted, one constructor for each key of `_MESSAGE_TYPES`.
pub data Message : Type 0 where
  rejected_config : RejectedConfig → Message
  account_update : AccountUpdate → Message
  account_purge : AccountPurge → Message
  prepared_transfer : PreparedTransfer → Message
  rejected_transfer : RejectedTransfer → Message
  finalized_transfer : FinalizedTransfer → Message
  activate_debtor_message : ℤ → String → Message

unfoldable pub message_debtor_id : Message → ℤ
message_debtor_id (rejected_config m) = m.debtor_id
message_debtor_id (account_update m) = m.debtor_id
message_debtor_id (account_purge m) = m.debtor_id
message_debtor_id (prepared_transfer m) = m.debtor_id
message_debtor_id (rejected_transfer m) = m.debtor_id
message_debtor_id (finalized_transfer m) = m.debtor_id
message_debtor_id (activate_debtor_message debtor_id _) = debtor_id

-- `except (InvalidReservationId, DebtorExists): pass`, in the database as it was
unfoldable pub ignore_activation_errors : {A : Type 0} → Result A → Procedure (Unit {0})
ignore_activation_errors (ok _ db') db = ok tt db'
ignore_activation_errors (err invalid_reservation_id) db = ok tt db
ignore_activation_errors (err debtor_exists) db = ok tt db
ignore_activation_errors (err e) db = err e

module _ ⦃p : Platform⦄ where
  unfoldable pub on_activate_debtor_signal : ℤ → String → Procedure (Unit {0})
  unfolding ignore_activation_errors
  on_activate_debtor_signal debtor_id reservation_id db =
      ignore_activation_errors (activate_debtor debtor_id reservation_id db) db

  -- The handler of each type of message. One about a coordinator of another type is dropped.
  unfoldable pub actor : Message → Procedure (Unit {0})
  unfolding on_activate_debtor_signal
  actor (rejected_config m) = process_rejected_config_signal m
  actor (account_update m) = process_account_update_signal m
  actor (account_purge m) = process_account_purge_signal m
  actor (prepared_transfer m) =
      if not (m.coordinator_type == ct_issuing)
      then pure tt
      else process_prepared_issuing_transfer_signal m
  actor (rejected_transfer m) =
      if not (m.coordinator_type == ct_issuing)
      then pure tt
      else process_rejected_issuing_transfer_signal m
  actor (finalized_transfer m) =
      if not (m.coordinator_type == ct_issuing)
      then pure tt
      else process_finalized_issuing_transfer_signal m
  actor (activate_debtor_message debtor_id reservation_id) =
      on_activate_debtor_signal debtor_id reservation_id

-- What the consumer makes of the body: it is no JSON, its schema refuses it, or it is a message.
-- JSON and the schemas of the protocol are not this program's code.
pub data Loaded : Type 0 where
  not_json : Loaded
  validation_error : Loaded
  loaded : Message → Loaded

-- How `process_message` ends: it returns whether the message was accepted, or it raises.
pub data Consumed : Type 0 where
  returned : Bool → Database → Consumed
  not_responsible : Consumed
  failed : Error → Consumed

abbrev pub is_message_type : String → Bool
is_message_type t =
    if t == "RejectedConfig"
    then true
    else if t == "AccountUpdate"
    then true
    else if t == "AccountPurge"
    then true
    else if t == "PreparedTransfer"
    then true
    else if t == "RejectedTransfer"
    then true
    else if t == "FinalizedTransfer"
    then true
    else t == "ActivateDebtor"

abbrev pub is_known : Option String → Bool
is_known none = false
is_known (some t) = is_message_type t

module _ ⦃p : Platform⦄ (s : Settings) where
  unfoldable pub consume : Result (Unit {0}) → Consumed
  consume (ok _ db') = returned true db'
  consume (err e) = failed e

  unfoldable pub process_loaded : Loaded → Database → Consumed
  unfolding consume
  process_loaded not_json db = returned false db
  process_loaded validation_error db = returned false db
  process_loaded (loaded m) db =
      if not (is_valid_debtor_id s (message_debtor_id m) false)
      then not_responsible
      else consume (actor m db)

  unfoldable pub process_message : Option String → Option String → Loaded → Database → Consumed
  unfolding process_loaded
  process_message content_type message_type body db =
      if not (content_type == some "application/json")
      then returned false db
      else if not (is_known message_type)
      then returned false db
      else process_loaded body db
