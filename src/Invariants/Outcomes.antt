-- ===== src/Invariants/Outcomes.antt =====
-- What each procedure leaves in the two tables, on all its branches at once.
use swpt_debtors.Prelude.{
  ◌≡◌, sym, Option, none, some, nat_Eq, string_Eq, int_Eq, ℤ, arith, if◌then◌else◌,
}
use mathlib.Core.Path.{subst₂}
use swpt_debtors.Platform.{Platform, Timestamp}
use swpt_debtors.Models.{Database, Debtor, is_active}
use swpt_debtors.Store.{debtor_row, count_of}
use swpt_debtors.Procedures.Signalling.{next_config}
use swpt_debtors.Procedures.Debtors.{restrict_debtor}
use swpt_debtors.System.{committed}
use swpt_debtors.Invariants.Edits.{CountsRow, Counts, KeepsCount, edit, edit-Counts}

-- The tables after a transaction that edits the row of one debtor.
abbrev pub Edits : ℤ → (Debtor → Option Debtor) → Database → Database → Type 0
Edits j f db db' =
    (db'.debtors ≡ edit (debtor_row j db.debtors) f db.debtors)
    × (db'.running_transfers ≡ db.running_transfers)

pub Edits-Counts :
    (j : ℤ) (f : Debtor → Option Debtor) (db db' : Database)
    → Edits j f db db'
    → ((d : Debtor) → KeepsCount d (f d))
    → Counts db.debtors db.running_transfers
    → Counts db'.debtors db'.running_transfers
Edits-Counts j f db db' (rows, same) keep h k =
    subst₂ (λ ds ts. CountsRow (debtor_row k ds) (count_of k ts)) (sym rows) (sym same)
      (edit-Counts db.running_transfers j f db.debtors keep h k)

module _ ⦃p : Platform⦄ where
  abbrev pub restricted : ℤ → Timestamp → Debtor → Option Debtor
  restricted m now d =
      if is_active d then some (next_config now (record d { min_balance = m })) else none

  pub restrict-Edits :
      (j m : ℤ) (db : Database)
      → Edits j (restricted m (db.clock db.readings)) db (committed (restrict_debtor j m db) db)
  unfolding restrict_debtor
  restrict-Edits j m db = (ground arith, ground arith)

  pub restricted-KeepsCount :
      (m : ℤ) (now : Timestamp) (d : Debtor) → KeepsCount d (restricted m now d)
  unfolding next_config is_active
  restricted-KeepsCount m now d = ground arith
