-- ===== src/Web/Response.antt =====
-- The answers of the endpoints: the status and what the schema renders; the headers are left out.
-- An exception that an endpoint does not catch is the status 500.
use swpt_debtors.Prelude.{ℕ, Option, none, some}
use swpt_debtors.Models.{Database}
use swpt_debtors.Procedures.Monad.{Error, Result, ok, err}

pub data Response (A : Type 0) : Type 0 where
  reply : ℕ → A → Response A
  redirected : ℕ → Response A
  aborted : ℕ → Response A

-- An endpoint may run several transactions.
abbrev pub Endpoint : Type 0 → Type 0
Endpoint A = Database → Response A × Database

module _ {A : Type 0} where
  abbrev pub abort : ℕ → Endpoint A
  abort status db = (aborted status, db)

  -- One procedure, and what the `except` clauses make of its exceptions
  abbrev pub answer : ℕ → (Error → Response A) → Result A → Endpoint A
  answer status caught (ok a db') db = (reply status a, db')
  answer status caught (err e) db = (caught e, db)

  -- `query or abort(status)`
  abbrev pub found_or : ℕ → Option A → Endpoint A
  found_or status none db = (aborted status, db)
  found_or status (some a) db = (reply 200 a, db)
