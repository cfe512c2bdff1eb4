-- ===== src/Procedures/Flush.antt =====
-- The end of an `@atomic` procedure: `db.session.add` only adds a row to the session; the INSERT comes
-- with the flush, which raises IntegrityError if the primary key is taken, and then the transaction is
-- rolled back. The keys of the other tables are tested by the procedures or given by sequences.
use swpt_debtors.Prelude.{
  ◌&&◌, ◌||◌, Bool, false, List, [], ◌∷◌, ◌==◌, nat_Eq, int_Eq, if◌then◌else◌,
}
use swpt_debtors.Models.{Database, ConfigureAccountSignal}
use swpt_debtors.Procedures.Monad.{Procedure, Result, ok, err, integrity_error}

-- The primary key of ConfigureAccountSignal
abbrev pub has_same_key : ConfigureAccountSignal → ConfigureAccountSignal → Bool
has_same_key x y = x.debtor_id == y.debtor_id && (x.ts == y.ts && x.seqnum == y.seqnum)

unfoldable pub is_key_taken : List ConfigureAccountSignal → ConfigureAccountSignal → Bool
is_key_taken [] x = false
is_key_taken (y ∷ ys) x = has_same_key y x || is_key_taken ys x

-- The rows that a transaction has added to those that were there before
unfoldable pub added_rows :
    List ConfigureAccountSignal → List ConfigureAccountSignal → List ConfigureAccountSignal
added_rows [] rows = rows
added_rows (_ ∷ before) [] = []
added_rows (_ ∷ before) (_ ∷ rows) = added_rows before rows

unfoldable pub is_any_key_taken : List ConfigureAccountSignal → List ConfigureAccountSignal → Bool
unfolding is_key_taken
is_any_key_taken present [] = false
is_any_key_taken present (x ∷ xs) = is_key_taken present x || is_any_key_taken present xs

-- The database keeps every signal that has been sent; `present` are the rows that are still in the
-- table, as the workers that send the messages delete them. A transaction adds one signal at most.
unfoldable pub violates_key : List ConfigureAccountSignal → Database → Database → Bool
unfolding added_rows is_any_key_taken
violates_key present db db' =
    is_any_key_taken present (added_rows db.configure_account_signals db'.configure_account_signals)

abbrev pub flushed : {A : Type 0} → List ConfigureAccountSignal → Database → Result A → Result A
flushed present db (err e) = err e
flushed present db (ok a db') =
    if violates_key present db db' then err integrity_error else ok a db'

-- A procedure with its transaction, which is flushed into a table with the rows `present`
unfoldable pub atomic : {A : Type 0} → List ConfigureAccountSignal → Procedure A → Procedure A
atomic present procedure db = flushed present db (procedure db)
