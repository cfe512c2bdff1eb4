-- ===== src/Behaviour/Handshake.antt =====
-- The configuration that the agent announces and the accounting authority reports: what
-- `process_account_update_signal` makes of the report.
use swpt_debtors.Prelude.{
  ◌+◌, ◌*◌, ◌≤◌, ◌≡◌, refl, ap, ◌∙◌, true, false, none, some, string_Eq, str_eq_iff, nat_Eq, int_Eq,
  int_eq_iff, pos, ◌≤ℤ◌, arith,
}
use swpt_debtors.Platform.{Platform, IsStandard, Timestamp}
use swpt_debtors.Models.{
  Database, Debtor, ConfigureAccountSignal, is_active, root_creditor_id, microseconds_per_second,
}
use swpt_debtors.Store.{debtor_row}
use swpt_debtors.Store.DebtorLaws.{debtor_row-put_self, debtor_row-id}
use swpt_debtors.Procedures.Config.{get_debtor_info_iri_from_config_data}
use swpt_debtors.Procedures.Signalling.{configure_account_signal}
use swpt_debtors.Procedures.Incoming.{negligible_amount_matches}
use swpt_debtors.Procedures.AccountUpdate.{
  heartbeat, is_old_event, config_is_effectual, apply_account_update, process_account_update_signal,
}
use swpt_debtors.Procedures.Messages.{AccountUpdate}
use swpt_debtors.System.{committed}
use swpt_debtors.Behaviour.Account.{row_after_update, debtor_id-apply}

module _ ⦃p : Platform⦄ where
  -- Whether a message reports the configuration that a signal has announced.
  abbrev pub Reports : AccountUpdate → ConfigureAccountSignal → Type 0
  Reports m c =
      (m.last_config_ts ≡ c.ts)
      × (m.last_config_seqnum ≡ c.seqnum)
      × (m.config_flags ≡ c.config_flags)
      × (m.config_data ≡ c.config_data)
      × (m.negligible_amount ≡ c.negligible_amount)

  config_is_effectual_of_report :
      (m : AccountUpdate) (d : Debtor) (inserted_at : Timestamp)
      → IsStandard p
      → d.min_balance ≤ℤ pos 0
      → Reports m (configure_account_signal d inserted_at)
      → config_is_effectual m d ≡ true
  unfolding config_is_effectual negligible_amount_matches configure_account_signal
  config_is_effectual_of_report m d inserted_at std nonpos (ts, seq, flags, text, amount) = ground (
    arith,
    ts,
    seq,
    flags,
    text,
    amount,
    std.real_precision d.min_balance nonpos,
    int_eq_iff m.last_config_seqnum d.last_config_seqnum,
    int_eq_iff m.config_flags d.config_flags,
    str_eq_iff m.config_data d.config_data,
  )

  config_is_effectual-heartbeat :
      (m : AccountUpdate) (ts now : Timestamp) (d : Debtor)
      → config_is_effectual m (heartbeat ts now d) ≡ config_is_effectual m d
  unfolding config_is_effectual heartbeat
  config_is_effectual-heartbeat m ts now d = ground arith

  effectual_fields :
      (m : AccountUpdate) (d : Debtor)
      → config_is_effectual m d ≡ true
      → let d' = apply_account_update m d in
        (d'.is_config_effectual ≡ true)
        × (d'.config_error ≡ none)
        × (d'.balance ≡ m.principal)
        × (d'.debtor_info_iri ≡ get_debtor_info_iri_from_config_data m.config_data)
  unfolding apply_account_update
  effectual_fields m d h = (h, rw h, refl, rw h)

  -- The handshake on the configuration. When the accounting authority reports the configuration
  -- that the agent has announced, in an update that is neither expired nor old, the row of the
  -- active debtor has an effectual configuration and no configuration error, the reported balance,
  -- and the link to the public info document that the configuration contains. The announced amount
  -- goes through a REAL column, and the tolerance `EPS` makes up for it.
  pub config_handshake :
      (m : AccountUpdate) (d : Debtor) (inserted_at : Timestamp) (db : Database)
      → IsStandard p
      → m.creditor_id ≡ root_creditor_id
      → debtor_row m.debtor_id db.debtors ≡ some d
      → is_active d ≡ true
      → d.min_balance ≤ℤ pos 0
      → db.clock db.readings ≤ m.ts + m.ttl * microseconds_per_second
      → is_old_event m d ≡ false
      → Reports m (configure_account_signal d inserted_at)
      → let d' = apply_account_update m (heartbeat m.ts (db.clock db.readings) d) in
        (debtor_row m.debtor_id (committed (process_account_update_signal m db) db).debtors
          ≡ some d')
        × (d'.is_config_effectual ≡ true)
        × (d'.config_error ≡ none)
        × (d'.balance ≡ m.principal)
        × (d'.debtor_info_iri ≡ get_debtor_info_iri_from_config_data m.config_data)
  config_handshake m d inserted_at db std root row active nonpos timely fresh reports =
      let now = db.clock db.readings in
      let d' = apply_account_update m (heartbeat m.ts now d) in
      let fields = effectual_fields m (heartbeat m.ts now d) (
        config_is_effectual-heartbeat m m.ts now d
        ∙ config_is_effectual_of_report m d inserted_at std nonpos reports) in
      (
        ap (debtor_row m.debtor_id) (row_after_update m d db root row active timely fresh)
            ∙ debtor_row-put_self m.debtor_id d d' db.debtors row
                (debtor_id-apply m now d ∙ debtor_row-id m.debtor_id db.debtors d row),
        fields.0,
        fields.1,
        fields.2,
        fields.3,
      )
