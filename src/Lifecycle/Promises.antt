-- ===== src/Lifecycle/Promises.antt =====
-- What the system promises about a transfer in whatever happens later: its terms and its outcome
-- stay, only one prepared transfer is committed for it, and none once it is cancelled.
use swpt_debtors.Prelude.{
  ℕ, ◌≡◌, refl, sym, ap, ◌∙◌, true, false, Option, none, some, List, [], ◌∷◌, ◌++◌, ◌==◌, int_Eq,
  int_eq_iff, option_Eq, option_eq, inl, inr, ℤ, arith,
}
use mathlib.Core.Path.{subst}
use swpt_debtors.Prelude.UniqueRows.{first_unique}
use swpt_debtors.Platform.{Platform, Timestamp}
use swpt_debtors.Settings.{Settings}
use swpt_debtors.Models.{Database, RunningTransfer, is_finalized, is_settled}
use swpt_debtors.Store.{transfer_row, request_row, has_uuid, has_request_id}
use swpt_debtors.Store.TransferLaws.{request_row-put_self, transfer_row-key}
use swpt_debtors.Procedures.Incoming.{process_prepared_issuing_transfer_signal}
use swpt_debtors.Procedures.Transfers.{cancel_running_transfer}
use swpt_debtors.Procedures.Monad.{ok}
use swpt_debtors.Procedures.Messages.{PreparedTransfer}
use swpt_debtors.System.{committed, Event, run, empty}
use swpt_debtors.Behaviour.Prepared.{
  may_commit, committed_transfer, answer, answered_with, row_after_commit,
}
use swpt_debtors.Behaviour.Cancellation.{
  cancelled, cancel_unsettled, finalized_takes_none, is_finalized-cancelled, is_settled-cancelled,
}
use swpt_debtors.Lifecycle.Keys.{Change-Keys}
use swpt_debtors.Lifecycle.History.{Survives, kept}
use swpt_debtors.Lifecycle.Advances.{prepared-Change, cancel-Change}
use swpt_debtors.Lifecycle.Runs.{HasKeys, run-Keys, run-Survives}

-- The answer to a prepared transfer, where its request identifier found the row `rt` before.
module _ (m : PreparedTransfer) (rt : RunningTransfer) where
  taken_by_another :
      (t : ℤ) (o : Option RunningTransfer)
      → rt.transfer_id ≡ some t
      → (m.transfer_id == t) ≡ false
      → Survives (some rt) o
      → committed_transfer m o ≡ none
  unfolding option_eq
  taken_by_another t none taken other h = refl
  taken_by_another t (some rt') taken other (kept h) =
      let same : rt'.transfer_id ≡ some t = ground (arith, taken, h.taken) in
      ground (arith, same, other, int_eq_iff t m.transfer_id, int_eq_iff m.transfer_id t)

  never_taken :
      (o : Option RunningTransfer)
      → is_finalized rt ≡ true
      → is_settled rt ≡ false
      → Survives (some rt) o
      → committed_transfer m o ≡ none
  never_taken none final unsettled h = refl
  never_taken (some rt') final unsettled (kept h) = elim h.final [
    | inl idle ↦ absurd cc
    | inr same ↦
        subst (λ x. committed_transfer m (some x) ≡ none) (sym same)
          (finalized_takes_none m rt final unsettled)
  ]

request_row_of :
    (k : ℤ) (uuid : ℕ) (rt : RunningTransfer) (db : Database)
    → HasKeys db
    → transfer_row k uuid db.running_transfers ≡ some rt
    → request_row k rt.coordinator_request_id db.running_transfers ≡ some rt
unfolding request_row
request_row_of k uuid rt db keys found =
    let key = transfer_row-key k uuid db.running_transfers rt found in
    let mine : has_request_id k rt.coordinator_request_id rt ≡ true = ground (
      arith,
      key,
      int_eq_iff rt.debtor_id k,
      int_eq_iff rt.coordinator_request_id rt.coordinator_request_id,
    ) in
    first_unique (has_request_id k rt.coordinator_request_id) (has_uuid k uuid) db.running_transfers
      rt (unfold transfer_row in found) mine (keys.request_unique k rt.coordinator_request_id)

pub row_after_cancel :
    (k : ℤ) (uuid : ℕ) (rt : RunningTransfer) (db : Database)
    → HasKeys db
    → transfer_row k uuid db.running_transfers ≡ some rt
    → is_settled rt ≡ false
    → request_row k rt.coordinator_request_id
        (committed (cancel_running_transfer k uuid db) db).running_transfers
      ≡ some (cancelled rt (db.clock db.readings))
row_after_cancel k uuid rt db keys found unsettled =
    let rt' = cancelled rt (db.clock db.readings) in
    let key = transfer_row-key k uuid db.running_transfers rt found in
    ap (request_row k rt.coordinator_request_id) (cancel_unsettled k uuid db rt found unsettled).1
    ∙ request_row-put_self k rt.coordinator_request_id rt rt' db.running_transfers
        (request_row_of k uuid rt db keys found) (ground (arith, key.0)) (ground arith)
        (ground arith)

module _ ⦃p : Platform⦄ (s : Settings) where
  reached-Keys :
      (es : List Event) (clock : ℕ → Timestamp) (db : Database)
      → db ≡ run s es (empty clock)
      → HasKeys db
  reached-Keys es clock db reached = subst HasKeys (sym reached) (run-Keys s es clock)

  -- A transfer in a database reached from an empty one is, after any further transactions, deleted,
  -- or it has the same terms; a prepared transfer that it has taken it keeps, and once it is
  -- finalized nothing of it changes.
  pub transfer_lasts :
      (es later : List Event) (clock : ℕ → Timestamp) (db : Database) (k r : ℤ)
      (rt : RunningTransfer)
      → db ≡ run s es (empty clock)
      → request_row k r db.running_transfers ≡ some rt
      → Survives (some rt) (request_row k r (run s later db).running_transfers)
  transfer_lasts es later clock db k r rt reached found =
      run-Survives s k r rt later db (reached-Keys es clock db reached) found

  -- In a database reached from an empty one, a prepared transfer that may be committed is committed
  -- by the answer to it. After any further transactions, the answer to another prepared transfer
  -- for the same request dismisses it.
  pub only_one_committed :
      (es later : List Event) (clock : ℕ → Timestamp) (db : Database) (m m' : PreparedTransfer)
      (rt : RunningTransfer)
      → db ≡ run s es (empty clock)
      → request_row m.coordinator_id m.coordinator_request_id db.running_transfers ≡ some rt
      → may_commit m rt ≡ true
      → m'.coordinator_id ≡ m.coordinator_id
      → m'.coordinator_request_id ≡ m.coordinator_request_id
      → (m'.transfer_id == m.transfer_id) ≡ false
      → let db1 = committed (process_prepared_issuing_transfer_signal m db) db in
        let db2 = run s later db1 in
        (db1.finalize_transfer_signals
          ≡ db.finalize_transfer_signals
            ++ answer m (some rt) db.next_signal_id (db.clock db.readings) ∷ [])
        × ((committed
              (process_prepared_issuing_transfer_signal m' db2)
              db2).finalize_transfer_signals
            ≡ db2.finalize_transfer_signals
              ++ answer m' none db2.next_signal_id (db2.clock db2.readings) ∷ [])
  only_one_committed es later clock db m m' rt reached found may ec er other =
      let keys = reached-Keys es clock db reached in
      let taken = record rt { transfer_id = some m.transfer_id } in
      let db1 = committed (process_prepared_issuing_transfer_signal m db) db in
      let db2 = run s later db1 in
      let row : request_row m'.coordinator_id m'.coordinator_request_id db1.running_transfers
          ≡ some taken =
        cc (ec, er, row_after_commit m rt db found may) in
      let first : committed_transfer m (some rt) ≡ some rt = rw may refl in
      (
        answered_with m db (some rt) (ap (committed_transfer m) found ∙ first),
        answered_with m' db2 none (
            taken_by_another m' taken m.transfer_id
              (request_row m'.coordinator_id m'.coordinator_request_id db2.running_transfers) refl
              other
              (run-Survives s m'.coordinator_id m'.coordinator_request_id taken later db1
                (Change-Keys (prepared-Change m db) keys) row)),
      )

  -- In a database reached from an empty one, a transfer that has taken no prepared transfer can be
  -- cancelled. After any further transactions, the answer to a prepared transfer for it is a
  -- dismissal.
  pub cancelled_never_committed :
      (es later : List Event) (clock : ℕ → Timestamp) (db : Database) (k : ℤ) (uuid : ℕ)
      (rt : RunningTransfer) (m : PreparedTransfer)
      → db ≡ run s es (empty clock)
      → transfer_row k uuid db.running_transfers ≡ some rt
      → is_settled rt ≡ false
      → m.coordinator_id ≡ k
      → m.coordinator_request_id ≡ rt.coordinator_request_id
      → let db1 = committed (cancel_running_transfer k uuid db) db in
        let db2 = run s later db1 in
        (cancel_running_transfer k uuid db ≡ ok (cancelled rt (db.clock db.readings)) db1)
        × ((committed
              (process_prepared_issuing_transfer_signal m db2)
              db2).finalize_transfer_signals
            ≡ db2.finalize_transfer_signals
              ++ answer m none db2.next_signal_id (db2.clock db2.readings) ∷ [])
  cancelled_never_committed es later clock db k uuid rt m reached found unsettled ec er =
      let keys = reached-Keys es clock db reached in
      let ts = db.clock db.readings in
      let db1 = committed (cancel_running_transfer k uuid db) db in
      let db2 = run s later db1 in
      let row : request_row m.coordinator_id m.coordinator_request_id db1.running_transfers
          ≡ some (cancelled rt ts) =
        rw (ec, er) (row_after_cancel k uuid rt db keys found unsettled) in
      (
        (cancel_unsettled k uuid db rt found unsettled).0,
        answered_with m db2 none (
            never_taken m (cancelled rt ts)
              (request_row m.coordinator_id m.coordinator_request_id db2.running_transfers)
              (is_finalized-cancelled rt ts) (is_settled-cancelled rt ts ∙ unsettled)
              (run-Survives s m.coordinator_id m.coordinator_request_id (cancelled rt ts) later db1
                (Change-Keys (cancel-Change k uuid db) keys) row)),
      )
