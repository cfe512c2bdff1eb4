-- ===== src/Invariants/Written.antt =====
-- What the procedures that write running transfers back leave in the two tables.
use swpt_debtors.Prelude.{ℕ, ◌≡◌, sym, string_Eq, int_Eq, ℤ, arith}
use mathlib.Core.Path.{subst₂}
use swpt_debtors.Models.{Database}
use swpt_debtors.Store.{debtor_row, count_of}
use swpt_debtors.Store.TransferLaws.{count_of-put}
use swpt_debtors.Procedures.Transfers.{cancel_running_transfer}
use swpt_debtors.Procedures.Incoming.{
  process_rejected_issuing_transfer_signal, process_prepared_issuing_transfer_signal,
  process_finalized_issuing_transfer_signal,
}
use swpt_debtors.Procedures.Messages.{RejectedTransfer, PreparedTransfer, FinalizedTransfer}
use swpt_debtors.System.{committed}
use swpt_debtors.Invariants.Edits.{CountsRow, Counts}

-- No row of a debtor has changed, and every debtor has as many transfers as before.
abbrev pub Written : Database → Database → Type 0
Written db db' =
    (db'.debtors ≡ db.debtors)
    × ((k : ℤ) → count_of k db'.running_transfers ≡ count_of k db.running_transfers)

pub Written-Counts :
    (db db' : Database)
    → Written db db'
    → Counts db.debtors db.running_transfers
    → Counts db'.debtors db'.running_transfers
Written-Counts db db' (rows, same) h k =
    subst₂ (λ ds n. CountsRow (debtor_row k ds) n) (sym rows) (sym (same k)) (h k)

pub cancel-Written :
    (j : ℤ) (uuid : ℕ) (db : Database)
    → Written db (committed (cancel_running_transfer j uuid db) db)
unfolding cancel_running_transfer
cancel-Written j uuid db = (ground arith, λ k. grind (arith, count_of-put))

pub prepared-Written :
    (m : PreparedTransfer) (db : Database)
    → Written db (committed (process_prepared_issuing_transfer_signal m db) db)
unfolding process_prepared_issuing_transfer_signal
prepared-Written m db = (ground arith, λ k. grind (arith, count_of-put))

pub rejected-Written :
    (m : RejectedTransfer) (db : Database)
    → Written db (committed (process_rejected_issuing_transfer_signal m db) db)
unfolding process_rejected_issuing_transfer_signal
rejected-Written m db = (ground arith, λ k. grind (arith, count_of-put))

pub finalized-Written :
    (m : FinalizedTransfer) (db : Database)
    → Written db (committed (process_finalized_issuing_transfer_signal m db) db)
unfolding process_finalized_issuing_transfer_signal
finalized-Written m db = (ground arith, λ k. grind (arith, count_of-put))
