-- ===== src/Lifecycle/Runs.antt =====
-- The transfers over all runs of the system: their keys, and what becomes of each.
use swpt_debtors.Prelude.{
  ℕ, ◌≡◌, refl, sym, true, Option, some, List, int_Eq, int_eq_iff, option_Eq, inr, ℤ, count, arith,
}
use mathlib.Core.Path.{subst}
use swpt_debtors.Platform.{Platform, Timestamp}
use swpt_debtors.Settings.{Settings}
use swpt_debtors.Models.{Database, RunningTransfer}
use swpt_debtors.Store.{request_row, has_request_id}
use swpt_debtors.Store.TransferLaws.{request_row-key}
use swpt_debtors.System.{Event, step, run, run_induction, empty}
use swpt_debtors.Prelude.UniqueRows.{first-counted}
use swpt_debtors.Lifecycle.Keys.{Keys, is_used, Change-Keys}
use swpt_debtors.Lifecycle.History.{
  Survives, Survives-refl, Survives-trans, Change-used, Change-Survives,
}
use swpt_debtors.Lifecycle.Steps.{step-Change}

-- The keys of the transfers of a database.
abbrev pub HasKeys : Database → Type 0
HasKeys db = Keys db.next_coordinator_request_id db.running_transfers

-- A database later than one where the row `o` was found by a request identifier.
record Later (k r : ℤ) (o : Option RunningTransfer) (db : Database) : Type 0 where
  keys : HasKeys db
  used : is_used db.next_coordinator_request_id r ≡ true
  survives : Survives o (request_row k r db.running_transfers)

found-used :
    (k r : ℤ) (rt : RunningTransfer) (db : Database)
    → HasKeys db
    → request_row k r db.running_transfers ≡ some rt
    → is_used db.next_coordinator_request_id r ≡ true
found-used k r rt db keys found =
    let key = request_row-key k r db.running_transfers rt found in
    let mine : has_request_id k r rt ≡ true =
      ground (arith, key, int_eq_iff rt.debtor_id k, int_eq_iff rt.coordinator_request_id r) in
    ground (
      arith,
      keys.unused k r,
      first-counted (has_request_id k r) (has_request_id k r) db.running_transfers rt
          (unfold request_row in found) mine,
    )

module _ ⦃p : Platform⦄ (s : Settings) where
  step-Keys : (e : Event) (db : Database) → HasKeys db → HasKeys (step s e db)
  step-Keys e db = Change-Keys (step-Change s e db)

  -- In every database that a sequence of transactions reaches from an empty one, a debtor has at most
  -- one transfer with a UUID and at most one with a request identifier, and none with a request
  -- identifier that the sequence has not given yet.
  pub run-Keys : (es : List Event) (clock : ℕ → Timestamp) → HasKeys (run s es (empty clock))
  unfolding count
  run-Keys es clock = run_induction s HasKeys step-Keys es (empty clock) (record {
    uuid_unique = λ k uuid. omega arith;
    request_unique = λ k r. omega arith;
    unused = λ k r. inr refl;
  })

  step-Later :
      (k r : ℤ) (o : Option RunningTransfer) (e : Event) (db : Database)
      → Later k r o db
      → Later k r o (step s e db)
  step-Later k r o e db h =
      let change = step-Change s e db in
      record {
        keys = Change-Keys change h.keys;
        used = Change-used change r h.used;
        survives = Survives-trans h.survives (Change-Survives change k r h.keys h.used);
      }

  pub run-Survives :
      (k r : ℤ) (rt : RunningTransfer) (es : List Event) (db : Database)
      → HasKeys db
      → request_row k r db.running_transfers ≡ some rt
      → Survives (some rt) (request_row k r (run s es db).running_transfers)
  run-Survives k r rt es db keys found =
      (run_induction s (Later k r (some rt)) (step-Later k r (some rt)) es db (record {
        keys = keys;
        used = found-used k r rt db keys found;
        survives = subst (Survives (some rt)) (sym found) (Survives-refl (some rt));
      })).survives
