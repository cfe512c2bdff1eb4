-- ===== src/Procedures/Monad.antt =====
-- A transaction: it reads and changes the database, or it raises. An exception that leaves a
-- procedure rolls its transaction back, so `err` brings no database with it; the procedures that
-- call one another run in one transaction. Transactions are taken one after another.
use swpt_debtors.Prelude.{◌+◌, Bool, true, false, Option, none, some, nat_Eq, ℤ, int_Eq}
use swpt_debtors.Platform.{Timestamp}
use swpt_debtors.Store.{debtor_row, put_debtor, put_transfer}
use swpt_debtors.Models.{Database, Debtor, RunningTransfer}

-- The exceptions of procedures.py, a failed `assert`, and the `IntegrityError` of a duplicate key.
pub data Error : Type 0 where
  update_conflict : Error
  already_up_to_date : Error
  misconfigured_node : Error
  invalid_reservation_id : Error
  debtor_does_not_exist : Error
  debtor_exists : Error
  transfer_does_not_exist : Error
  transfer_exists : Error
  transfers_conflict : Error
  too_many_running_transfers : Error
  forbidden_transfer_cancellation : Error
  too_many_management_actions : Error
  too_many_saved_documents : Error
  assertion_error : Error
  integrity_error : Error

pub data Result (A : Type 0) : Type 0 where
  ok : A → Database → Result A
  err : Error → Result A

abbrev pub Procedure : Type 0 → Type 0
Procedure A = Database → Result A

module _ {A : Type 0} where
  abbrev pub pure : A → Procedure A
  pure a db = ok a db

  abbrev pub raise : Error → Procedure A
  raise e db = err e

  abbrev pub query : (Database → A) → Procedure A
  query f db = ok (f db) db

  -- `if x is None: raise e`
  abbrev pub require : Option A → Error → Procedure A
  require none e db = err e
  require (some a) e db = ok a db

  -- `if x:` around the rest of a procedure that returns nothing
  abbrev pub when_some : Option A → (A → Procedure (Unit {0})) → Procedure (Unit {0})
  when_some none f db = ok tt db
  when_some (some a) f db = f a db

infixl 5 ◌>>=◌ ◌>>◌
abbrev pub ◌>>=◌ : {A B : Type 0} → Procedure A → (A → Procedure B) → Procedure B
◌>>=◌ m f db = elim (m db) [ ok a db' ↦ f a db' | err e ↦ err e ]

abbrev pub ◌>>◌ : {B : Type 0} → Procedure (Unit {0}) → Procedure B → Procedure B
m >> k = m >>= λ _. k

-- `if c: raise e`
abbrev pub raise_if : Bool → Error → Procedure (Unit {0})
raise_if true e db = err e
raise_if false e db = ok tt db

-- `assert c`
abbrev pub assert_that : Bool → Procedure (Unit {0})
assert_that true db = ok tt db
assert_that false db = err assertion_error

abbrev pub modify : (Database → Database) → Procedure (Unit {0})
modify f db = ok tt (f db)

-- `datetime.now(tz=timezone.utc)`: the next reading of the clock
unfoldable pub now : Procedure Timestamp
now db = ok (db.clock db.readings) (record db { readings = db.readings + 1 })

unfoldable pub find_debtor : ℤ → Database → Option Debtor
find_debtor debtor_id db = debtor_row debtor_id db.debtors

-- The session writes a changed row back.
unfoldable pub save_debtor : Debtor → Procedure (Unit {0})
save_debtor d = modify λ db. record db { debtors = put_debtor d db.debtors }

unfoldable pub save_transfer : RunningTransfer → Procedure (Unit {0})
save_transfer rt =
    modify λ db. record db { running_transfers = put_transfer rt db.running_transfers }
