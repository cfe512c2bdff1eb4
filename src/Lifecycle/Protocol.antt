-- ===== src/Lifecycle/Protocol.antt =====
-- The messages of an exchange with the accounting authority, and what its answers echo.
use swpt_debtors.Prelude.{
  ℕ, ◌+◌, ◌≡◌, refl, true, Option, none, some, List, [], ◌∷◌, ◌++◌, string_Eq, str_eq_iff, int_Eq,
  int_eq_iff, option_Eq, option_eq, ◌≤ℤ◌, ℤ, pos, arith,
}
use swpt_debtors.Models.{Database, RunningTransfer, is_finalized, root_creditor_id, sc_ok}
use swpt_debtors.Procedures.Transfers.{TransferData, new_running_transfer}
use swpt_debtors.Procedures.Messages.{PreparedTransfer, FinalizedTransfer}
use swpt_debtors.Procedures.Incoming.{the_signal_matches_the_transfer}
use swpt_debtors.Outgoing.{
  PrepareTransfer, FinalizeTransfer, dump_prepare_transfer, dump_finalize_transfer,
}
use swpt_debtors.Behaviour.Initiation.{initiated}
use swpt_debtors.Behaviour.Prepared.{answer, may_commit}

-- A prepared transfer that answers a request, as the protocol has it: the fields of the request come
-- back, and at least the least amount is locked.
pub record Prepares (q : PrepareTransfer) (m : PreparedTransfer) : Type 0 where
  pub type : m.coordinator_type ≡ q.coordinator_type
  pub coordinator : m.coordinator_id ≡ q.coordinator_id
  pub request : m.coordinator_request_id ≡ q.coordinator_request_id
  pub debtor : m.debtor_id ≡ q.debtor_id
  pub creditor : m.creditor_id ≡ q.creditor_id
  pub recipient : m.recipient ≡ q.recipient
  pub locked : pos q.min_locked_amount ≤ℤ m.locked_amount

-- A finalized transfer that reports that all of it has been committed.
pub record Commits (q : FinalizeTransfer) (m : FinalizedTransfer) : Type 0 where
  pub type : m.coordinator_type ≡ q.coordinator_type
  pub coordinator : m.coordinator_id ≡ q.coordinator_id
  pub request : m.coordinator_request_id ≡ q.coordinator_request_id
  pub debtor : m.debtor_id ≡ q.debtor_id
  pub creditor : m.creditor_id ≡ q.creditor_id
  pub transfer : m.transfer_id ≡ q.transfer_id
  pub committed : m.committed_amount ≡ pos q.committed_amount
  pub status : m.status_code ≡ sc_ok

-- The row that was inserted last
unfoldable pub last_of {ℓ} : {A : Type ℓ} → List A → Option A
last_of [] = none
last_of (x ∷ xs) = elim xs [ [] ↦ some x | _ ∷ _ ↦ last_of xs ]

pub last_of-append {ℓ} : {A : Type ℓ} (xs : List A) (x : A) → last_of (xs ++ x ∷ []) ≡ some x
unfolding last_of
last_of-append [] x = refl
last_of-append (y ∷ []) x = refl
last_of-append (y ∷ z ∷ xs) x = last_of-append (z ∷ xs) x

-- The messages that a request and an answer send
abbrev pub asked : ℤ → ℕ → TransferData → Database → PrepareTransfer
asked k uuid t db = dump_prepare_transfer (record {
  debtor_id = k;
  coordinator_request_id = (initiated k uuid t db).coordinator_request_id;
  amount = t.amount;
  recipient = t.recipient;
  inserted_at = db.clock (db.readings + 1 + 1);
})

module _ (k : ℤ) (uuid : ℕ) (t : TransferData) (db : Database) (m : PreparedTransfer)
    (echo : Prepares (asked k uuid t db) m) where
  pub committable : may_commit m (initiated k uuid t db) ≡ true
  unfolding dump_prepare_transfer the_signal_matches_the_transfer new_running_transfer option_eq
      is_finalized
  committable = ground (
    arith,
    echo.debtor,
    echo.creditor,
    echo.recipient,
    echo.locked,
    int_eq_iff k m.debtor_id,
    int_eq_iff root_creditor_id m.creditor_id,
    str_eq_iff t.recipient m.recipient,
  )

abbrev pub told : PreparedTransfer → RunningTransfer → Database → FinalizeTransfer
told m rt db = dump_finalize_transfer (answer m (some rt) db.next_signal_id (db.clock db.readings))

-- The row of a transfer that has taken a prepared transfer.
abbrev pub taken_by : PreparedTransfer → RunningTransfer → RunningTransfer
taken_by m rt = record rt { transfer_id = some m.transfer_id }
