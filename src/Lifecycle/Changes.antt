-- ===== src/Lifecycle/Changes.antt =====
-- The abstract machine of the table of running transfers.
use swpt_debtors.Prelude.{
  ◌+◌, ◌≡◌, Bool, false, Option, none, some, [], ◌∷◌, ◌++◌, String, ℤ, pos, first, delete_rows,
}
use swpt_debtors.Platform.{Timestamp}
use swpt_debtors.Models.{Database, RunningTransfer, is_finalized}
use swpt_debtors.Store.{transfer_row, put_transfer}

-- How a transfer may change: an open one that has taken no prepared transfer may take one, and an
-- open one may be finalized.
pub data Advances (rt rt' : RunningTransfer) : Type 0 where
  stays : rt' ≡ rt → Advances rt rt'
  settles :
      (transfer_id : ℤ)
      → is_finalized rt ≡ false
      → rt.transfer_id ≡ none
      → rt' ≡ record rt { transfer_id = some transfer_id }
      → Advances rt rt'
  finalizes :
      (ts : Timestamp) (error_code : Option String) (total_locked_amount : Option ℤ)
      → is_finalized rt ≡ false
      → rt' ≡ record rt {
        finalized_at = some ts;
        error_code = error_code;
        total_locked_amount = total_locked_amount;
      }
      → Advances rt rt'

-- A transfer as it starts.
abbrev pub IsOpen : RunningTransfer → Type 0
IsOpen rt = (is_finalized rt ≡ false) × (rt.transfer_id ≡ none) × (rt.error_code ≡ none)

-- What a transaction may do to the table: nothing; start a transfer whose UUID is free, under the
-- next request identifier; let one transfer advance; delete rows.
pub data Change (db db' : Database) : Type 0 where
  unchanged :
      db'.running_transfers ≡ db.running_transfers
      → db'.next_coordinator_request_id ≡ db.next_coordinator_request_id
      → Change db db'
  started :
      (rt : RunningTransfer)
      → IsOpen rt
      → transfer_row rt.debtor_id rt.transfer_uuid db.running_transfers ≡ none
      → rt.coordinator_request_id ≡ pos db.next_coordinator_request_id
      → db'.running_transfers ≡ db.running_transfers ++ rt ∷ []
      → db'.next_coordinator_request_id ≡ db.next_coordinator_request_id + 1
      → Change db db'
  advanced :
      (query : RunningTransfer → Bool) (rt rt' : RunningTransfer)
      → first query db.running_transfers ≡ some rt
      → Advances rt rt'
      → db'.running_transfers ≡ put_transfer rt' db.running_transfers
      → db'.next_coordinator_request_id ≡ db.next_coordinator_request_id
      → Change db db'
  deleted :
      (test : RunningTransfer → Bool)
      → db'.running_transfers ≡ delete_rows test db.running_transfers
      → db'.next_coordinator_request_id ≡ db.next_coordinator_request_id
      → Change db db'
