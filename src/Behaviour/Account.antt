-- ===== src/Behaviour/Account.antt =====
-- The messages about the debtor's account: `process_account_update_signal` and the configuration
-- that the agent and the accounting authority agree on.
use swpt_debtors.Prelude.{
  ◌+◌, ◌*◌, ◌≤◌, ◌≡◌, ◌∙◌, leb, true, false, Option, none, some, string_Eq, nat_Eq, int_Eq,
  int_eq_iff, inl, inr, Bool-cases, arith,
}
use swpt_debtors.Platform.{Platform, Timestamp}
use swpt_debtors.Models.{Database, Debtor, is_active, root_creditor_id, microseconds_per_second}
use swpt_debtors.Store.{debtor_row, put_debtor}
use swpt_debtors.Procedures.Monad.{ok}
use swpt_debtors.Procedures.Debtors.{only_active}
use swpt_debtors.Procedures.AccountUpdate.{
  heartbeat, is_old_event, apply_account_update, update_account, process_account_update_signal,
}
use swpt_debtors.Procedures.Messages.{AccountUpdate}
use swpt_debtors.Behaviour.Prepared.{is_ok}
use swpt_debtors.System.{committed}

module _ ⦃p : Platform⦄ where
  is_old_event-heartbeat :
      (m : AccountUpdate) (ts now : Timestamp) (d : Debtor)
      → is_old_event m (heartbeat ts now d) ≡ is_old_event m d
  unfolding is_old_event heartbeat
  is_old_event-heartbeat m ts now d = ground arith

  fresh_creation_date :
      (m : AccountUpdate) (d : Debtor)
      → is_old_event m d ≡ false
      → leb d.account_creation_date m.creation_date ≡ true
  unfolding is_old_event
  fresh_creation_date m d h = ground arith

  -- An update that is not old is applied to the debtor.
  pub update_account_fresh :
      (m : AccountUpdate) (now : Timestamp) (d : Debtor) (db : Database)
      → is_old_event m d ≡ false
      → update_account m now (some d) db
        ≡ ok tt (record db {
          debtors = put_debtor (apply_account_update m (heartbeat m.ts now d)) db.debtors;
        })
  unfolding update_account
  update_account_fresh m now d db fresh =
      let same = is_old_event-heartbeat m m.ts now d ∙ fresh in
      rw (same, fresh_creation_date m (heartbeat m.ts now d) same)

  -- An old update moves the heartbeat alone.
  pub update_account_old :
      (m : AccountUpdate) (now : Timestamp) (d : Debtor) (db : Database)
      → is_old_event m d ≡ true
      → update_account m now (some d) db
        ≡ ok tt (record db { debtors = put_debtor (heartbeat m.ts now d) db.debtors })
  unfolding update_account
  update_account_old m now d db old = rw (is_old_event-heartbeat m m.ts now d ∙ old)

  update_account-is_ok :
      (m : AccountUpdate) (now : Timestamp) (found : Option Debtor) (db : Database)
      → is_ok (update_account m now found db) ≡ true
  update_account-is_ok m now none db = unfold update_account in ground arith
  update_account-is_ok m now (some d) db = elim (Bool-cases (is_old_event m d)) [
    | inl old ↦ rw (update_account_old m now d db old)
    | inr fresh ↦ rw (update_account_fresh m now d db fresh)
  ]

  -- The assertion on the creation date never fails.
  pub account_update_succeeds :
      (m : AccountUpdate) (db : Database) → is_ok (process_account_update_signal m db) ≡ true
  unfolding process_account_update_signal
  account_update_succeeds m db = ground (
    arith,
    update_account-is_ok m (db.clock db.readings) (only_active (debtor_row m.debtor_id db.debtors))
        (record db { readings = db.readings + 1 }),
  )

  -- The row of the debtor after an update that is neither expired nor old.
  pub row_after_update :
      (m : AccountUpdate) (d : Debtor) (db : Database)
      → m.creditor_id ≡ root_creditor_id
      → debtor_row m.debtor_id db.debtors ≡ some d
      → is_active d ≡ true
      → db.clock db.readings ≤ m.ts + m.ttl * microseconds_per_second
      → is_old_event m d ≡ false
      → (committed (process_account_update_signal m db) db).debtors
        ≡ put_debtor (apply_account_update m (heartbeat m.ts (db.clock db.readings) d)) db.debtors
  unfolding process_account_update_signal
  row_after_update m d db root row active timely fresh = ground (
    arith,
    root,
    row,
    active,
    timely,
    int_eq_iff m.creditor_id root_creditor_id,
    update_account_fresh m (db.clock db.readings) d (record db { readings = db.readings + 1 })
        fresh,
  )

  pub debtor_id-apply :
      (m : AccountUpdate) (now : Timestamp) (d : Debtor)
      → (apply_account_update m (heartbeat m.ts now d)).debtor_id ≡ d.debtor_id
  unfolding apply_account_update heartbeat
  debtor_id-apply m now d = ground arith
