-- ===== src/Procedures/AccountUpdate.antt =====
-- `process_account_update_signal`.
use swpt_debtors.Prelude.{
  ◌+◌, ◌*◌, ltb, leb, Bool, true, not, ◌&&◌, Option, none, some, ◌==◌, nat_Eq, string_Eq, int_Eq,
  min, if◌then◌else◌,
}
use swpt_debtors.Platform.{Platform, Timestamp}
use swpt_debtors.Models.{Debtor, root_creditor_id, microseconds_per_second}
use swpt_debtors.Procedures.Monad.{
  Procedure, pure, query, assert_that, ◌>>=◌, ◌>>◌, now, save_debtor,
}
use swpt_debtors.Procedures.Debtors.{get_active_debtor}
use swpt_debtors.Procedures.Config.{get_debtor_info_iri_from_config_data}
use swpt_debtors.Procedures.Signalling.{discard_orphaned_account}
use swpt_debtors.Procedures.Incoming.{negligible_amount_matches}
use swpt_debtors.Procedures.Messages.{AccountUpdate}

-- `if ts > debtor.account_last_heartbeat_ts: …`
unfoldable pub heartbeat : Timestamp → Timestamp → Debtor → Debtor
heartbeat ts current_ts d =
    if ltb d.account_last_heartbeat_ts ts
    then record d { account_last_heartbeat_ts = min ts current_ts }
    else d

module _ ⦃p : Platform⦄ where
  -- `this_event <= prev_event`: Python compares the tuples at the first place where they differ.
  unfoldable pub is_old_event : AccountUpdate → Debtor → Bool
  is_old_event m d =
      if not (m.creation_date == d.account_creation_date)
      then leb m.creation_date d.account_creation_date
      else if not (m.last_change_ts == d.account_last_change_ts)
      then leb m.last_change_ts d.account_last_change_ts
      else if not (p.seqnum_eq m.last_change_seqnum d.account_last_change_seqnum)
      then p.seqnum_le m.last_change_seqnum d.account_last_change_seqnum
      else true

  unfoldable pub config_is_effectual : AccountUpdate → Debtor → Bool
  unfolding negligible_amount_matches
  config_is_effectual m d =
      m.last_config_ts == d.last_config_ts
      && (m.last_config_seqnum == d.last_config_seqnum
          && (m.config_flags == d.config_flags
              && (m.config_data == d.config_data
                  && negligible_amount_matches d.min_balance m.negligible_amount)))

  -- The assignments at the end of the procedure.
  unfoldable pub apply_account_update : AccountUpdate → Debtor → Debtor
  unfolding config_is_effectual get_debtor_info_iri_from_config_data
  apply_account_update m d =
      let effectual = config_is_effectual m d in
      record d {
        is_config_effectual = effectual;
        config_error = if effectual then none else d.config_error;
        has_server_account = true;
        account_creation_date = m.creation_date;
        account_last_change_ts = m.last_change_ts;
        account_last_change_seqnum = m.last_change_seqnum;
        account_id = m.account_id;
        balance = m.principal;
        transfer_note_max_bytes = m.transfer_note_max_bytes;
        debtor_info_iri =
            if effectual
            then get_debtor_info_iri_from_config_data m.config_data
            else d.debtor_info_iri;
      }

  unfoldable pub update_account : AccountUpdate → Timestamp → Option Debtor → Procedure (Unit {0})
  unfolding discard_orphaned_account save_debtor
  update_account m current_ts none =
      discard_orphaned_account m.debtor_id m.config_flags m.negligible_amount
  update_account m current_ts (some debtor) =
      let d = heartbeat m.ts current_ts debtor in
      if is_old_event m d then save_debtor d else (do
        assert_that (leb d.account_creation_date m.creation_date)
        save_debtor (apply_account_update m d))

  unfoldable pub process_account_update_signal : AccountUpdate → Procedure (Unit {0})
  unfolding get_active_debtor now
  process_account_update_signal m = if not (m.creditor_id == root_creditor_id) then pure tt else do
    current_ts ← now
    if ltb (m.ts + m.ttl * microseconds_per_second) current_ts
        then pure tt
        else do found ← query (get_active_debtor m.debtor_id); update_account m current_ts found
