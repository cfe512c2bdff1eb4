-- ===== src/Web/Transfers.antt =====
-- The endpoints of `transfers_api`. `parse_account_uri` belongs to `swpt_pythonlib`: it is a
-- parameter, and `none` is its `ValueError`.
use swpt_debtors.Prelude.{ℕ, not, Option, none, some, List, String, ◌==◌, int_Eq, ℤ, if◌then◌else◌}
use swpt_debtors.Settings.{Settings}
use swpt_debtors.Models.{RunningTransfer}
use swpt_debtors.Procedures.Monad.{
  Error, debtor_does_not_exist, transfer_does_not_exist, transfer_exists, transfers_conflict,
  too_many_running_transfers, forbidden_transfer_cancellation, too_many_management_actions,
}
use swpt_debtors.Procedures.Transfers.{
  TransferData, get_running_transfer, get_debtor_transfer_uuids, initiate_running_transfer,
  cancel_running_transfer, delete_running_transfer,
}
use swpt_debtors.Web.Response.{
  Response, reply, redirected, aborted, Endpoint, abort, answer, found_or,
}

-- A recipient's URI, with its debtor and account.
pub record AccountUri : Type 0 where
  pub debtor_id : ℤ
  pub account_id : String

-- The request that the schema has accepted.
pub record TransferRequest : Type 0 where
  pub transfer_uuid : ℕ
  pub recipient_uri : String
  pub amount : ℕ
  pub transfer_note_format : String
  pub transfer_note : String

abbrev pub data_of : TransferRequest → String → TransferData
data_of q recipient = record {
  amount = q.amount;
  recipient_uri = q.recipient_uri;
  recipient = recipient;
  transfer_note_format = q.transfer_note_format;
  transfer_note = q.transfer_note;
}

module _ {A : Type 0} where
  unfoldable pub initiation_errors : Error → Response A
  initiation_errors too_many_management_actions = aborted 403
  initiation_errors too_many_running_transfers = aborted 403
  initiation_errors debtor_does_not_exist = aborted 404
  initiation_errors transfers_conflict = aborted 409
  initiation_errors transfer_exists = redirected 303
  initiation_errors _ = aborted 500

  unfoldable pub listing_errors : Error → Response A
  listing_errors debtor_does_not_exist = aborted 404
  listing_errors _ = aborted 500

  unfoldable pub cancellation_errors : Error → Response A
  cancellation_errors forbidden_transfer_cancellation = aborted 403
  cancellation_errors transfer_does_not_exist = aborted 404
  cancellation_errors _ = aborted 500

unfoldable pub get_transfers : ℤ → Endpoint (List ℕ)
unfolding listing_errors
get_transfers debtor_id db = answer 200 listing_errors (get_debtor_transfer_uuids debtor_id db) db

module _ (s : Settings) where
  unfoldable pub post_to : ℤ → TransferRequest → Option AccountUri → Endpoint RunningTransfer
  unfolding initiation_errors
  post_to debtor_id q none = abort 422
  post_to debtor_id q (some account) =
      if not (account.debtor_id == debtor_id) then abort 422 else λ db.
      answer 201 initiation_errors
        (initiate_running_transfer debtor_id q.transfer_uuid (data_of q account.account_id)
          s.max_transfers_per_month db)
        db

  unfoldable pub post_transfer :
      (String → Option AccountUri) → ℤ → TransferRequest → Endpoint RunningTransfer
  unfolding post_to
  post_transfer parse_account_uri debtor_id q =
      post_to debtor_id q (parse_account_uri q.recipient_uri)

unfoldable pub get_transfer : ℤ → ℕ → Endpoint RunningTransfer
unfolding get_running_transfer
get_transfer debtor_id transfer_uuid db =
    found_or 404 (get_running_transfer debtor_id transfer_uuid db) db

unfoldable pub post_cancellation : ℤ → ℕ → Endpoint RunningTransfer
unfolding cancellation_errors
post_cancellation debtor_id transfer_uuid db =
    answer 200 cancellation_errors (cancel_running_transfer debtor_id transfer_uuid db) db

-- `except TransferDoesNotExist: pass`
unfoldable pub deletion_errors : Error → Response (Unit {0})
deletion_errors transfer_does_not_exist = reply 204 tt
deletion_errors _ = aborted 500

unfoldable pub delete_transfer_endpoint : ℤ → ℕ → Endpoint (Unit {0})
unfolding deletion_errors
delete_transfer_endpoint debtor_id transfer_uuid db =
    answer 204 deletion_errors (delete_running_transfer debtor_id transfer_uuid db) db
