-- ===== src/Schemas/Requests.antt =====
-- The schemas of the requests. A body has the fields that the request gives, of the types that they
-- are declared with.
use Prim.Native.String
use Prim.Native.String.{len}
use swpt_debtors.Prelude.{
  ℕ, leb, Bool, true, ◌&&◌, Option, some, String, ◌==◌, string_Eq, ℤ, pos, negsuc,
}
use swpt_debtors.Models.{min_int64, max_int64, transfer_note_max_bytes, config_data_max_bytes}
use swpt_debtors.Web.Transfers.{TransferRequest}
use swpt_debtors.Schemas.Fields.{
  ◌>>=◌, ◌>>◌, required, with_default, in_range, max_length, valid_type, is_transfer_note_format,
}

-- A validated number that is not negative
abbrev pub magnitude : ℤ → ℕ
magnitude (pos n) = n
magnitude (negsuc n) = 0

-- `len(value.encode("utf8")) > maximum` is refused.
abbrev pub max_bytes : ℕ → String → Bool
max_bytes n s = leb (len s) n

-- AccountIdentitySchema
pub record IdentityBody : Type 0 where
  pub type : Option String
  pub uri : Option String

unfoldable pub load_account_identity : IdentityBody → Option String
load_account_identity b = do
  valid_type "AccountIdentitySchema" b.type
  required b.uri (max_length 200)

-- DebtorReservationRequestSchema, DebtorDeactivationRequestSchema, TransferCancelationRequestSchema
-- have a type only.
unfoldable pub load_reservation : Option String → Option (Unit {0})
load_reservation = valid_type "DebtorReservationRequestSchema"

unfoldable pub load_deactivation : Option String → Option (Unit {0})
load_deactivation = valid_type "DebtorDeactivationRequestSchema"

unfoldable pub load_cancelation : Option String → Option (Unit {0})
load_cancelation = valid_type "TransferCancelationRequestSchema"

pub record ActivationBody : Type 0 where
  pub type : Option String
  pub reservation_id : Option String

-- The optional reservation identifier
unfoldable pub load_activation : ActivationBody → Option (Option String)
load_activation b = do valid_type "DebtorActivationRequestSchema" b.type; some b.reservation_id

pub record RestrictionBody : Type 0 where
  pub type : Option String
  pub min_balance : Option ℤ

unfoldable pub load_restriction : RestrictionBody → Option ℤ
load_restriction b = do
  valid_type "DebtorRestrictionRequestSchema" b.type
  required b.min_balance (in_range min_int64 (pos 0))

pub record ConfigBody : Type 0 where
  pub type : Option String
  pub latest_update_id : Option ℤ
  pub config_data : Option String

pub record ConfigRequest : Type 0 where
  pub latest_update_id : ℕ
  pub config_data : String

-- DebtorConfigSchema with the fields of MutableResourceSchema
unfoldable pub load_config : ConfigBody → Option ConfigRequest
load_config b = do
  valid_type "DebtorConfigSchema" b.type
  n ← required b.latest_update_id (in_range (pos 1) (pos max_int64))
  s ←
      required b.config_data
        (λ s. max_length config_data_max_bytes s && max_bytes config_data_max_bytes s)
  some (record { latest_update_id = magnitude n; config_data = s })

pub record TransferBody : Type 0 where
  pub type : Option String
  pub transfer_uuid : Option ℕ
  pub recipient : Option IdentityBody
  pub amount : Option ℤ
  pub note_format : Option String
  pub note : Option String

-- TransferCreationRequestSchema
unfoldable pub load_transfer : TransferBody → Option TransferRequest
unfolding load_account_identity
load_transfer b = do
  valid_type "TransferCreationRequestSchema" b.type
  uuid ← required b.transfer_uuid (λ _. true)
  identity ← required b.recipient (λ _. true)
  uri ← load_account_identity identity
  n ← required b.amount (in_range (pos 0) (pos max_int64))
  format ← with_default "" b.note_format is_transfer_note_format
  note ←
      with_default "" b.note
        (λ s. max_length transfer_note_max_bytes s && max_bytes transfer_note_max_bytes s)
  some (record {
    transfer_uuid = uuid;
    recipient_uri = uri;
    amount = magnitude n;
    transfer_note_format = format;
    transfer_note = note;
  })

-- The body of an `ActivateDebtor` message, without its time
pub record ActivateDebtorBody : Type 0 where
  pub type : Option String
  pub debtor_id : Option ℤ
  pub reservation_id : Option String

pub record ActivateDebtor : Type 0 where
  pub debtor_id : ℤ
  pub reservation_id : String

-- ActivateDebtorMessageSchema
unfoldable pub load_activate_debtor : ActivateDebtorBody → Option ActivateDebtor
load_activate_debtor b = do
  _ ← required b.type (λ value. String.◌++◌ value "MessageSchema" == "ActivateDebtorMessageSchema")
  k ← required b.debtor_id (in_range min_int64 (pos max_int64))
  s ← required b.reservation_id (max_length 100)
  some (record { debtor_id = k; reservation_id = s })
