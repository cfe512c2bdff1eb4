-- ===== src/Lifecycle/Configured.antt =====
-- A configuration from its announcement to the report of the accounting authority.
use swpt_debtors.Prelude.{
  ℕ, ◌+◌, ◌*◌, ◌≤◌, ◌≡◌, sym, ap, ◌∙◌, true, false, none, some, List, ℤ, int_Eq, nat_Eq, pos, ◌≤ℤ◌,
  arith,
}
use mathlib.Core.Path.{subst}
use swpt_debtors.Platform.{Platform, IsStandard, Timestamp}
use swpt_debtors.Settings.{Settings}
use swpt_debtors.Models.{
  Database, Debtor, ConfigureAccountSignal, is_active, root_creditor_id, microseconds_per_second,
}
use swpt_debtors.Store.{debtor_row}
use swpt_debtors.Procedures.Config.{get_debtor_info_iri_from_config_data}
use swpt_debtors.Procedures.Signalling.{configure_account_signal}
use swpt_debtors.Procedures.AccountUpdate.{
  heartbeat, is_old_event, apply_account_update, process_account_update_signal,
}
use swpt_debtors.Procedures.Messages.{AccountUpdate}
use swpt_debtors.System.{Event, committed, run, empty}
use swpt_debtors.Behaviour.Handshake.{Reports, config_handshake}
use swpt_debtors.Invariants.Announcements.{last_signal, Announced, RowAnnounced, IsAnnounced}
use swpt_debtors.Invariants.AnnouncedRuns.{run-IsAnnounced}

module _ ⦃p : Platform⦄ (s : Settings) where
  -- The last message about an active debtor is the one that announces its row.
  last_announces :
      (es : List Event) (clock : ℕ → Timestamp) (db : Database) (k : ℤ) (d : Debtor)
      → db ≡ run s es (empty clock)
      → debtor_row k db.debtors ≡ some d
      → is_active d ≡ true
      → Announced d (last_signal k db.configure_account_signals)
  last_announces es clock db k d reached row active =
      let kept : IsAnnounced db = subst IsAnnounced (sym reached) (run-IsAnnounced s es clock) in
      let told : RowAnnounced (some d) (last_signal k db.configure_account_signals) =
        subst (λ o. RowAnnounced o (last_signal k db.configure_account_signals)) row (kept k) in
      told active

  -- In a database reached from an empty one, the accounting authority reports the configuration of
  -- the last message about the account of an active debtor, in an update that is neither expired nor
  -- old. Then the row of the debtor has an effectual configuration without an error, the reported
  -- balance, and the link of the configuration that the message announced.
  pub announced_takes_effect :
      (es : List Event) (clock : ℕ → Timestamp) (db : Database) (m : AccountUpdate) (d : Debtor)
      (x : ConfigureAccountSignal)
      → IsStandard p
      → db ≡ run s es (empty clock)
      → debtor_row m.debtor_id db.debtors ≡ some d
      → is_active d ≡ true
      → d.min_balance ≤ℤ pos 0
      → last_signal m.debtor_id db.configure_account_signals ≡ some x
      → Reports m x
      → m.creditor_id ≡ root_creditor_id
      → db.clock db.readings ≤ m.ts + m.ttl * microseconds_per_second
      → is_old_event m d ≡ false
      → let d' = apply_account_update m (heartbeat m.ts (db.clock db.readings) d) in
        (debtor_row m.debtor_id (committed (process_account_update_signal m db) db).debtors
          ≡ some d')
        × (d'.is_config_effectual ≡ true)
        × (d'.config_error ≡ none)
        × (d'.balance ≡ m.principal)
        × (d'.debtor_info_iri ≡ get_debtor_info_iri_from_config_data x.config_data)
  announced_takes_effect es clock db m d x std reached row active nonpos last reports root timely
        fresh =
      let (t, told) = last_announces es clock db m.debtor_id d reached row active in
      let same : x ≡ configure_account_signal d t = ground (arith, last, told) in
      let done =
        config_handshake m d t db std root row active nonpos timely fresh
          (subst (Reports m) same reports) in
      (done.0, done.1, done.2, done.3, done.4 ∙ ap get_debtor_info_iri_from_config_data reports.3)
