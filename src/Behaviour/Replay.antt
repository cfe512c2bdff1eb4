-- ===== src/Behaviour/Replay.antt =====
-- Account updates that are delivered late or twice to `process_account_update_signal`.
use swpt_debtors.Prelude.{
  ◌+◌, ◌*◌, ◌≤◌, ◌<◌, ◌≡◌, sym, ap, ◌∙◌, ltb, Bool, true, false, some, string_Eq, nat_Eq, int_Eq,
  int_eq_iff, arith, if◌then◌else◌,
}
use swpt_debtors.Platform.{Platform, IsStandard, Timestamp}
use swpt_debtors.Models.{Database, Debtor, is_active, root_creditor_id, microseconds_per_second}
use swpt_debtors.Store.{debtor_row}
use swpt_debtors.Store.DebtorLaws.{debtor_row-put_self, debtor_row-id}
use swpt_debtors.Procedures.AccountUpdate.{
  heartbeat, is_old_event, apply_account_update, process_account_update_signal,
}
use swpt_debtors.Procedures.Messages.{AccountUpdate}
use swpt_debtors.System.{committed}
use swpt_debtors.Behaviour.Account.{row_after_update, update_account_old, debtor_id-apply}

module _ ⦃p : Platform⦄ where
  debtor_id-heartbeat :
      (ts now : Timestamp) (d : Debtor) → (heartbeat ts now d).debtor_id ≡ d.debtor_id
  unfolding heartbeat
  debtor_id-heartbeat ts now d = ground arith

  is_active-apply :
      (m : AccountUpdate) (now : Timestamp) (d : Debtor)
      → is_active (apply_account_update m (heartbeat m.ts now d)) ≡ is_active d
  unfolding apply_account_update heartbeat is_active
  is_active-apply m now d = ground arith

  abbrev pub expired : AccountUpdate → Timestamp → Bool
  expired m now = ltb (m.ts + m.ttl * microseconds_per_second) now

  -- The row of an active debtor after an update that is old.
  row_after_old_update :
      (m : AccountUpdate) (d : Debtor) (db : Database)
      → m.creditor_id ≡ root_creditor_id
      → debtor_row m.debtor_id db.debtors ≡ some d
      → is_active d ≡ true
      → is_old_event m d ≡ true
      → debtor_row m.debtor_id (committed (process_account_update_signal m db) db).debtors
        ≡ some (
            if expired m (db.clock db.readings) then d else heartbeat m.ts (db.clock db.readings) d)
  unfolding process_account_update_signal
  row_after_old_update m d db root row active old =
      let now = db.clock db.readings in
      ground (
        arith,
        root,
        row,
        active,
        old,
        int_eq_iff m.creditor_id root_creditor_id,
        update_account_old m now d (record db { readings = db.readings + 1 }) old,
        debtor_row-put_self m.debtor_id d (heartbeat m.ts now d) db.debtors row,
        debtor_row-id m.debtor_id db.debtors d row,
        debtor_id-heartbeat m.ts now d,
      )

  -- The event of the update `m1` is not later than that of `m`: it is of an older account, or of the
  -- same one with an older change, or with a change of the same time and no later sequence number.
  pub data IsNotLater (m1 m : AccountUpdate) : Type 0 where
    older_account : m1.creation_date < m.creation_date → IsNotLater m1 m
    older_change :
        m1.creation_date ≡ m.creation_date → m1.last_change_ts < m.last_change_ts → IsNotLater m1 m
    older_seqnum :
        m1.creation_date ≡ m.creation_date
        → m1.last_change_ts ≡ m.last_change_ts
        → p.seqnum_le m1.last_change_seqnum m.last_change_seqnum ≡ true
        → IsNotLater m1 m
    same_event :
        m1.creation_date ≡ m.creation_date
        → m1.last_change_ts ≡ m.last_change_ts
        → m1.last_change_seqnum ≡ m.last_change_seqnum
        → IsNotLater m1 m

  is_old_event-after :
      IsStandard p
      → (m1 m : AccountUpdate) (d : Debtor) → IsNotLater m1 m
      → is_old_event m1 (apply_account_update m d) ≡ true
  unfolding is_old_event apply_account_update
  is_old_event-after std m1 m d (older_account lt) = ground (arith, lt)
  is_old_event-after std m1 m d (older_change same lt) = ground (arith, same, lt)
  is_old_event-after std m1 m d (older_seqnum same ts le) = ground (arith, same, ts, le)
  is_old_event-after std m1 m d (same_event same ts seqnum) = ground (
    arith,
    same,
    ts,
    ap (λ n. p.seqnum_eq n m.last_change_seqnum) seqnum ∙ std.seqnum_eq_refl m.last_change_seqnum,
  )

  -- After an update has been applied, an update of an event that is not later, be it the same message
  -- again or another one that comes late, is not applied: at whatever time it is processed, the row
  -- is as the first update has left it, but for the heartbeat, which moves only while the message has
  -- not expired.
  pub late_update_ignored :
      (m m1 : AccountUpdate) (d : Debtor) (db : Database)
      → IsStandard p
      → m.creditor_id ≡ root_creditor_id
      → m1.creditor_id ≡ root_creditor_id
      → m1.debtor_id ≡ m.debtor_id
      → IsNotLater m1 m
      → debtor_row m.debtor_id db.debtors ≡ some d
      → is_active d ≡ true
      → db.clock db.readings ≤ m.ts + m.ttl * microseconds_per_second
      → is_old_event m d ≡ false
      → let d' = apply_account_update m (heartbeat m.ts (db.clock db.readings) d) in
        let db' = committed (process_account_update_signal m db) db in
        let now = db'.clock db'.readings in
        (debtor_row m.debtor_id db'.debtors ≡ some d')
        × (debtor_row m.debtor_id (committed (process_account_update_signal m1 db') db').debtors
            ≡ some (if expired m1 now then d' else heartbeat m1.ts now d'))
  late_update_ignored m m1 d db std root root1 same late row active timely fresh =
      let now = db.clock db.readings in
      let d' = apply_account_update m (heartbeat m.ts now d) in
      let db' = committed (process_account_update_signal m db) db in
      let row' : debtor_row m.debtor_id db'.debtors ≡ some d' =
        ap (debtor_row m.debtor_id) (row_after_update m d db root row active timely fresh)
        ∙ debtor_row-put_self m.debtor_id d d' db.debtors row
            (debtor_id-apply m now d ∙ debtor_row-id m.debtor_id db.debtors d row) in
      let again =
        row_after_old_update m1 d' db' root1 (ap (λ k. debtor_row k db'.debtors) same ∙ row')
          (is_active-apply m now d ∙ active)
          (is_old_event-after std m1 m (heartbeat m.ts now d) late) in
      (
        row',
        ap (λ k. debtor_row k (committed (process_account_update_signal m1 db') db').debtors)
              (sym same)
            ∙ again,
      )
