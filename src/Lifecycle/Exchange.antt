-- ===== src/Lifecycle/Exchange.antt =====
-- A whole exchange with the accounting authority: from the debtor's request, through the messages,
-- to what the debtor is told.
use swpt_debtors.Prelude.{
  ℕ, ◌≡◌, refl, sym, ap, ◌∙◌, true, false, none, some, List, [], ◌∷◌, ◌++◌, ◌==◌, string_Eq,
  str_eq_iff, int_Eq, int_eq_iff, option_Eq, option_eq, ℤ, pos, arith,
}
use mathlib.Core.Path.{subst, subst₂}
use swpt_debtors.Platform.{Platform}
use swpt_debtors.Settings.{Settings}
use swpt_debtors.Models.{
  Database, Debtor, RunningTransfer, PrepareTransferSignal, FinalizeTransferSignal, is_active,
  is_finalized, root_creditor_id, sc_ok, ct_issuing,
}
use swpt_debtors.Store.{request_row, transfer_row, debtor_row}
use swpt_debtors.Procedures.Transfers.{
  TransferData, initiate_running_transfer, new_running_transfer,
}
use swpt_debtors.Procedures.Messages.{PreparedTransfer, FinalizedTransfer}
use swpt_debtors.Procedures.Incoming.{
  process_prepared_issuing_transfer_signal, process_finalized_issuing_transfer_signal,
}
use swpt_debtors.Actors.{actor, prepared_transfer, finalized_transfer}
use swpt_debtors.System.{committed, Event, run}
use swpt_debtors.Outgoing.{dump_prepare_transfer, dump_finalize_transfer}
use swpt_debtors.Schemas.Transfers.{result_of}
use swpt_debtors.Behaviour.Initiation.{debtor_refusal, initiated, initiate_found}
use swpt_debtors.Behaviour.Prepared.{
  answer, answered_with, may_commit, committed_transfer, row_after_commit,
}
use swpt_debtors.Behaviour.Outcome.{is_success, finalization_reported, finalized_by, is_about}
use swpt_debtors.Lifecycle.Protocol.{
  Prepares, Commits, last_of, last_of-append, asked, committable, told, taken_by,
}

module _ ⦃p : Platform⦄ where
  actor-prepared :
      (m : PreparedTransfer) (db : Database)
      → m.coordinator_type ≡ ct_issuing
      → committed (actor (prepared_transfer m) db) db
        ≡ committed (process_prepared_issuing_transfer_signal m db) db
  unfolding actor
  actor-prepared m db e =
      let same : (m.coordinator_type == ct_issuing) ≡ true =
        (str_eq_iff m.coordinator_type ct_issuing).1 e in
      rw same refl

  actor-finalized :
      (m : FinalizedTransfer) (db : Database)
      → m.coordinator_type ≡ ct_issuing
      → committed (actor (finalized_transfer m) db) db
        ≡ committed (process_finalized_issuing_transfer_signal m db) db
  unfolding actor
  actor-finalized m db e =
      let same : (m.coordinator_type == ct_issuing) ≡ true =
        (str_eq_iff m.coordinator_type ct_issuing).1 e in
      rw same refl

  -- The row `rt` is found and may be committed: it takes the prepared transfer, which the answer
  -- commits.
  take_prepared :
      (m : PreparedTransfer) (rt : RunningTransfer) (db : Database)
      → m.coordinator_type ≡ ct_issuing
      → request_row m.coordinator_id m.coordinator_request_id db.running_transfers ≡ some rt
      → may_commit m rt ≡ true
      → let db' = committed (actor (prepared_transfer m) db) db in
        (request_row m.coordinator_id m.coordinator_request_id db'.running_transfers
          ≡ some (taken_by m rt))
        × (db'.finalize_transfer_signals
            ≡ db.finalize_transfer_signals
              ++ answer m (some rt) db.next_signal_id (db.clock db.readings) ∷ [])
  take_prepared m rt db type found may =
      let first : committed_transfer m (some rt) ≡ some rt = rw may refl in
      rw (actor-prepared m db type) (
        row_after_commit m rt db found may,
        answered_with m db (some rt) (ap (committed_transfer m) found ∙ first),
      )

  confirm :
      (m : PreparedTransfer) (f : FinalizedTransfer) (rt : RunningTransfer) (db : Database)
      → request_row f.coordinator_id f.coordinator_request_id db.running_transfers
        ≡ some (taken_by m rt)
      → is_finalized (taken_by m rt) ≡ false
      → f.coordinator_type ≡ ct_issuing
      → f.debtor_id ≡ rt.debtor_id
      → f.creditor_id ≡ root_creditor_id
      → f.transfer_id ≡ m.transfer_id
      → f.committed_amount ≡ pos rt.amount
      → f.status_code ≡ sc_ok
      → let db' = committed (actor (finalized_transfer f) db) db in
        let rt' = finalized_by f (taken_by m rt) (db.clock db.readings) in
        (request_row f.coordinator_id f.coordinator_request_id db'.running_transfers ≡ some rt')
        × (result_of rt'
            ≡ some (record {
              finalized_at = db.clock db.readings;
              committed_amount = rt.amount;
              error = none;
            }))
  unfolding option_eq
  confirm m f rt db found idle type debtor creditor transfer amount status =
      let about : is_about f (taken_by m rt) ≡ true = ground (
        arith,
        int_eq_iff rt.debtor_id f.debtor_id,
        int_eq_iff root_creditor_id f.creditor_id,
        int_eq_iff m.transfer_id f.transfer_id,
        debtor,
        creditor,
        transfer,
      ) in
      let success : is_success f (taken_by m rt) ≡ true = ground (
        arith,
        str_eq_iff f.status_code sc_ok,
        int_eq_iff f.committed_amount (pos rt.amount),
        status,
        amount,
      ) in
      let done = finalization_reported f (taken_by m rt) db 0 0 found idle about in
      (
        ap (λ x. request_row f.coordinator_id f.coordinator_request_id x.running_transfers)
              (actor-finalized f db type)
            ∙ done.0,
        done.1 ∙ rw success refl,
      )

  -- The row that a table has got last
  newest : {A : Type 0} (xs ys : List A) (x y : A) → xs ≡ ys ++ y ∷ [] → last_of xs ≡ some x → y ≡ x
  newest xs ys x y appended last =
      let same : some y ≡ some x = sym (last_of-append ys y) ∙ ap last_of (sym appended) ∙ last in
      cc

  same_row :
      (k r k' r' : ℤ) (rt : RunningTransfer) (db : Database)
      → k' ≡ k
      → r' ≡ r
      → request_row k r db.running_transfers ≡ some rt
      → request_row k' r' db.running_transfers ≡ some rt
  same_row k r k' r' rt db same_debtor same_request found =
      subst₂ (λ i j. request_row i j db.running_transfers ≡ some rt) (sym same_debtor)
        (sym same_request) found

  -- An active debtor within its limits asks for a transfer. The accounting authority answers the
  -- message that asks for a prepared transfer, the last one after the request, with a prepared
  -- transfer that echoes it and locks enough; then it reports that the answer to that, the last one
  -- after it, is committed. Other transactions may come before each of the two reports, as long as the
  -- transfer is then still there as the step before has left it. Then the debtor is told that the
  -- whole amount was transferred, without an error.
  pub issue_succeeds :
      (s : Settings) (asked_by told_by : List Event) (db : Database) (k : ℤ) (uuid : ℕ)
      (t : TransferData) (limit : ℕ) (d : Debtor) (ask : PrepareTransferSignal)
      (m : PreparedTransfer) (tell : FinalizeTransferSignal) (f : FinalizedTransfer)
      → transfer_row k uuid db.running_transfers ≡ none
      → debtor_row k db.debtors ≡ some d
      → is_active d ≡ true
      → debtor_refusal (some d) limit (db.clock db.readings) ≡ none
      → let rt = initiated k uuid t db in
        let r = rt.coordinator_request_id in
        let db1 = committed (initiate_running_transfer k uuid t limit db) db in
        let db2 = run s asked_by db1 in
        let db3 = committed (actor (prepared_transfer m) db2) db2 in
        let db4 = run s told_by db3 in
        let db5 = committed (actor (finalized_transfer f) db4) db4 in
        let rt' = finalized_by f (taken_by m rt) (db4.clock db4.readings) in
        last_of db1.prepare_transfer_signals ≡ some ask
        → Prepares (dump_prepare_transfer ask) m
        → request_row k r db2.running_transfers ≡ some rt
        → last_of db3.finalize_transfer_signals ≡ some tell
        → Commits (dump_finalize_transfer tell) f
        → request_row k r db4.running_transfers ≡ some (taken_by m rt)
        → (db3.finalize_transfer_signals
            ≡ db2.finalize_transfer_signals
              ++ answer m (some rt) db2.next_signal_id (db2.clock db2.readings) ∷ [])
          × (request_row k r db5.running_transfers ≡ some rt')
          × (result_of rt'
              ≡ some (record {
                finalized_at = db4.clock db4.readings;
                committed_amount = t.amount;
                error = none;
              }))
  unfolding dump_prepare_transfer dump_finalize_transfer new_running_transfer is_finalized
  issue_succeeds s asked_by told_by db k uuid t limit d ask m tell f free row active fits asks echo1
        open2 tells final1 open4 =
      let rt = initiated k uuid t db in
      let db1 = committed (initiate_running_transfer k uuid t limit db) db in
      let db2 = run s asked_by db1 in
      let db3 = committed (actor (prepared_transfer m) db2) db2 in
      let db4 = run s told_by db3 in
      let started = initiate_found k uuid t limit d db free row active fits in
      let echo : Prepares (asked k uuid t db) m =
        subst (λ x. Prepares (dump_prepare_transfer x) m)
          (sym
            (newest db1.prepare_transfer_signals db.prepare_transfer_signals ask _ started.3 asks))
          echo1 in
      let found : request_row m.coordinator_id m.coordinator_request_id db2.running_transfers
          ≡ some rt =
        same_row k rt.coordinator_request_id m.coordinator_id m.coordinator_request_id rt db2
          echo.coordinator echo.request open2 in
      let taken = take_prepared m rt db2 echo.type found (committable k uuid t db m echo) in
      let final : Commits (told m rt db2) f =
        subst (λ x. Commits (dump_finalize_transfer x) f)
          (sym (
            newest db3.finalize_transfer_signals db2.finalize_transfer_signals tell _ taken.1
              tells))
          final1 in
      let found4 : request_row f.coordinator_id f.coordinator_request_id db4.running_transfers
          ≡ some (taken_by m rt) =
        same_row k rt.coordinator_request_id f.coordinator_id f.coordinator_request_id
          (taken_by m rt) db4 (final.coordinator ∙ echo.coordinator) (final.request ∙ echo.request)
          open4 in
      let done =
        confirm m f rt db4 found4 refl final.type final.debtor final.creditor final.transfer
          final.committed final.status in
      (
        taken.1,
        same_row f.coordinator_id f.coordinator_request_id k rt.coordinator_request_id _
            (committed (actor (finalized_transfer f) db4) db4)
            (sym (final.coordinator ∙ echo.coordinator)) (sym (final.request ∙ echo.request))
            done.0,
        done.1,
      )
