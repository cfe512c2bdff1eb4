-- ===== src/Store.antt =====
-- The statements that the procedures send to the tables of debtors and running transfers.
pub mod DebtorLaws
pub mod TransferLaws
pub mod OtherLaws
use swpt_debtors.Prelude.{
  ℕ, Bool, ◌&&◌, Option, List, ◌==◌, nat_Eq, int_Eq, ℤ, pos, ◌-ℤ◌, first, count, update_rows,
  delete_rows,
}
use swpt_debtors.Models.{Debtor, RunningTransfer}

-- The row of a debtor, by its primary key.
unfoldable pub debtor_row : ℤ → List Debtor → Option Debtor
debtor_row debtor_id = first (λ d. d.debtor_id == debtor_id)

-- A changed debtor is written back.
unfoldable pub put_debtor : Debtor → List Debtor → List Debtor
put_debtor d = update_rows (λ x. x.debtor_id == d.debtor_id) (λ _. d)

unfoldable pub remove_debtor : ℤ → List Debtor → List Debtor
remove_debtor debtor_id = delete_rows (λ d. d.debtor_id == debtor_id)

-- `running_transfers_count = running_transfers_count - 1`
unfoldable pub uncount_transfer : ℤ → List Debtor → List Debtor
uncount_transfer debtor_id =
    update_rows (λ d. d.debtor_id == debtor_id)
      (λ d. record d { running_transfers_count = d.running_transfers_count -ℤ pos 1 })

-- Tests of the primary key of a transfer, of its unique index, and of its debtor.
abbrev pub has_uuid : ℤ → ℕ → RunningTransfer → Bool
has_uuid debtor_id transfer_uuid rt = rt.debtor_id == debtor_id && rt.transfer_uuid == transfer_uuid

abbrev pub has_request_id : ℤ → ℤ → RunningTransfer → Bool
has_request_id debtor_id coordinator_request_id rt =
    rt.debtor_id == debtor_id && rt.coordinator_request_id == coordinator_request_id

abbrev pub belongs_to : ℤ → RunningTransfer → Bool
belongs_to debtor_id rt = rt.debtor_id == debtor_id

unfoldable pub transfer_row : ℤ → ℕ → List RunningTransfer → Option RunningTransfer
transfer_row debtor_id transfer_uuid = first (has_uuid debtor_id transfer_uuid)

unfoldable pub request_row : ℤ → ℤ → List RunningTransfer → Option RunningTransfer
request_row debtor_id coordinator_request_id =
    first (has_request_id debtor_id coordinator_request_id)

-- The number of rows with a primary key, and of those of a debtor.
unfoldable pub count_uuid : ℤ → ℕ → List RunningTransfer → ℕ
count_uuid debtor_id transfer_uuid = count (has_uuid debtor_id transfer_uuid)

unfoldable pub count_of : ℤ → List RunningTransfer → ℕ
count_of debtor_id = count (belongs_to debtor_id)

-- A changed transfer is written back.
unfoldable pub put_transfer : RunningTransfer → List RunningTransfer → List RunningTransfer
put_transfer rt = update_rows (has_uuid rt.debtor_id rt.transfer_uuid) (λ _. rt)

unfoldable pub delete_transfer : ℤ → ℕ → List RunningTransfer → List RunningTransfer
delete_transfer debtor_id transfer_uuid = delete_rows (has_uuid debtor_id transfer_uuid)

unfoldable pub delete_transfers_of : ℤ → List RunningTransfer → List RunningTransfer
delete_transfers_of debtor_id = delete_rows (belongs_to debtor_id)
