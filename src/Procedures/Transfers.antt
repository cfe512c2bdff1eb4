-- ===== src/Procedures/Transfers.antt =====
-- The issuing transfers: initiation, cancellation, deletion, finalization.
use swpt_debtors.Prelude.{
  ℕ, ◌+◌, Bool, ◌&&◌, Option, none, some, List, [], ◌∷◌, ◌++◌, map, String, ◌==◌, nat_Eq, string_Eq,
  int_Eq, ℤ, pos, ◌+ℤ◌, ltb_ℤ, select_rows, if◌then◌else◌,
}
use swpt_debtors.Store.{
  belongs_to, transfer_row, request_row, count_uuid, delete_transfer, uncount_transfer,
}
use swpt_debtors.Models.{
  Database, RunningTransfer, is_settled, is_finalized, sc_canceled_by_the_sender,
}
use swpt_debtors.Procedures.Monad.{
  Procedure, debtor_does_not_exist, transfer_does_not_exist, transfer_exists, transfers_conflict,
  too_many_running_transfers, forbidden_transfer_cancellation, pure, raise, raise_if, query,
  require, assert_that, modify, ◌>>=◌, ◌>>◌, now, save_debtor, save_transfer,
}
use swpt_debtors.Procedures.Debtors.{get_active_debtor}
use swpt_debtors.Procedures.Config.{throttle_debtor_actions}

unfoldable pub get_running_transfer : ℤ → ℕ → Database → Option RunningTransfer
get_running_transfer debtor_id transfer_uuid db =
    transfer_row debtor_id transfer_uuid db.running_transfers

-- `_find_running_transfer`
unfoldable pub find_running_transfer : ℤ → ℤ → Database → Option RunningTransfer
find_running_transfer coordinator_id coordinator_request_id db =
    request_row coordinator_id coordinator_request_id db.running_transfers

unfoldable pub get_debtor_transfer_uuids : ℤ → Procedure (List ℕ)
unfolding get_active_debtor
get_debtor_transfer_uuids debtor_id = do
  found ← query (get_active_debtor debtor_id)
  _ ← require found debtor_does_not_exist
  query λ db. map (λ rt. rt.transfer_uuid) (select_rows (belongs_to debtor_id) db.running_transfers)

-- `_finalize_running_transfer`; the transfer is written back by the caller.
unfoldable pub finalize_running_transfer :
    RunningTransfer → Option String → Option ℤ → Procedure RunningTransfer
unfolding now
finalize_running_transfer rt error_code total_locked_amount =
    if is_finalized rt then pure rt else do
      ts ← now
      pure (record rt {
        finalized_at = some ts;
        error_code = error_code;
        total_locked_amount = total_locked_amount;
      })

unfoldable pub cancel_running_transfer : ℤ → ℕ → Procedure RunningTransfer
unfolding get_running_transfer finalize_running_transfer save_transfer
cancel_running_transfer debtor_id transfer_uuid = do
  found ← query (get_running_transfer debtor_id transfer_uuid)
  rt ← require found transfer_does_not_exist
  raise_if (is_settled rt) forbidden_transfer_cancellation
  rt' ← finalize_running_transfer rt (some sc_canceled_by_the_sender) none
  save_transfer rt'
  pure rt'

unfoldable pub delete_running_transfer : ℤ → ℕ → Procedure (Unit {0})
delete_running_transfer debtor_id transfer_uuid = do
  number_of_deleted_rows ← query (λ db. count_uuid debtor_id transfer_uuid db.running_transfers)
  modify λ db. record db {
    running_transfers = delete_transfer debtor_id transfer_uuid db.running_transfers;
  }
  raise_if (number_of_deleted_rows == 0) transfer_does_not_exist
  assert_that (number_of_deleted_rows == 1)
  modify λ db. record db { debtors = uncount_transfer debtor_id db.debtors }

-- What the client asks for.
pub record TransferData : Type 0 where
  pub amount : ℕ
  pub recipient_uri : String
  pub recipient : String
  pub transfer_note_format : String
  pub transfer_note : String

unfoldable pub same_transfer_data : RunningTransfer → TransferData → Bool
same_transfer_data rt t =
    rt.amount == t.amount
    && (rt.recipient_uri == t.recipient_uri
        && (rt.recipient == t.recipient
            && (rt.transfer_note_format == t.transfer_note_format
                && rt.transfer_note == t.transfer_note)))

unfoldable pub refuse_if_initiated : Option RunningTransfer → TransferData → Procedure (Unit {0})
refuse_if_initiated none t = pure tt
refuse_if_initiated (some rt) t =
    raise (if same_transfer_data rt t then transfer_exists else transfers_conflict)

unfoldable pub new_running_transfer : ℤ → ℕ → TransferData → ℕ → ℤ → RunningTransfer
new_running_transfer debtor_id transfer_uuid t initiated_at coordinator_request_id = record {
  debtor_id = debtor_id;
  transfer_uuid = transfer_uuid;
  amount = t.amount;
  recipient_uri = t.recipient_uri;
  recipient = t.recipient;
  transfer_note_format = t.transfer_note_format;
  transfer_note = t.transfer_note;
  initiated_at = initiated_at;
  finalized_at = none;
  error_code = none;
  total_locked_amount = none;
  coordinator_request_id = coordinator_request_id;
  transfer_id = none;
}

-- The row, with the next value of its sequence.
unfoldable pub insert_running_transfer : ℤ → ℕ → TransferData → Procedure RunningTransfer
unfolding now
insert_running_transfer debtor_id transfer_uuid t = do
  initiated_at ← now
  n ← query (λ db. db.next_coordinator_request_id)
  let rt = new_running_transfer debtor_id transfer_uuid t initiated_at (pos n)
  modify λ db. record db {
    running_transfers = db.running_transfers ++ rt ∷ [];
    next_coordinator_request_id = n + 1;
  }
  pure rt

unfoldable pub initiate_running_transfer : ℤ → ℕ → TransferData → ℕ → Procedure RunningTransfer
unfolding get_running_transfer throttle_debtor_actions insert_running_transfer save_debtor now
initiate_running_transfer debtor_id transfer_uuid t max_actions_per_month = do
  current_ts ← now
  found ← query (get_running_transfer debtor_id transfer_uuid)
  refuse_if_initiated found t
  throttled ← throttle_debtor_actions debtor_id max_actions_per_month current_ts
  let debtor = record throttled {
    running_transfers_count = throttled.running_transfers_count +ℤ pos 1;
  }
  raise_if (ltb_ℤ (pos max_actions_per_month) debtor.running_transfers_count)
      too_many_running_transfers
  save_debtor debtor
  rt ← insert_running_transfer debtor_id transfer_uuid t
  inserted_at ← now
  modify λ db. record db {
    prepare_transfer_signals =
        db.prepare_transfer_signals
        ++ record {
          debtor_id = debtor_id;
          coordinator_request_id = rt.coordinator_request_id;
          amount = t.amount;
          recipient = t.recipient;
          inserted_at = inserted_at;
        }
          ∷ [];
  }
  pure rt
