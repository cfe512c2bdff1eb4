-- ===== src/Procedures/Incoming.antt =====
-- The procedures that process the messages about issuing transfers, rejected configurations and
-- purged accounts.
use swpt_debtors.Prelude.{
  ℕ, ◌+◌, leb, Bool, false, not, ◌&&◌, Option, none, some, [], ◌∷◌, ◌++◌, String, ◌==◌, nat_Eq,
  string_Eq, int_Eq, option_Eq, ℤ, pos, leb_ℤ, if◌then◌else◌,
}
use swpt_debtors.Platform.{Platform, Float}
use swpt_debtors.Models.{
  Debtor, RunningTransfer, is_finalized, root_creditor_id, sc_ok, sc_unexpected_error,
}
use swpt_debtors.Procedures.Monad.{
  Procedure, pure, query, when_some, modify, ◌>>=◌, ◌>>◌, now, find_debtor, save_debtor,
  save_transfer,
}
use swpt_debtors.Procedures.Transfers.{find_running_transfer, finalize_running_transfer}
use swpt_debtors.Procedures.Messages.{
  RejectedConfig, AccountPurge, RejectedTransfer, PreparedTransfer, FinalizedTransfer,
}

module _ ⦃p : Platform⦄ where
  -- `abs(min_balance + negligible_amount) <= EPS * negligible_amount`
  unfoldable pub negligible_amount_matches : ℤ → Float → Bool
  negligible_amount_matches min_balance negligible_amount =
      p.leq (p.absolute (p.plus (p.of_int min_balance) negligible_amount))
        (p.times p.eps negligible_amount)

  -- The conditions of the query, beside the primary key.
  unfoldable pub has_rejected_config : RejectedConfig → Debtor → Bool
  unfolding negligible_amount_matches
  has_rejected_config m d =
      d.last_config_ts == m.config_ts
      && (d.last_config_seqnum == m.config_seqnum
          && (d.config_flags == m.config_flags
              && (d.config_data == m.config_data
                  && (d.config_error == none
                      && negligible_amount_matches d.min_balance m.negligible_amount))))

  unfoldable pub process_rejected_config_signal : RejectedConfig → Procedure (Unit {0})
  unfolding has_rejected_config find_debtor save_debtor
  process_rejected_config_signal m = if not (m.creditor_id == root_creditor_id) then pure tt else do
    found ← query (find_debtor m.debtor_id)
    when_some found λ d.
        if has_rejected_config m d
        then save_debtor (record d { config_error = some m.rejection_code })
        else pure tt

-- What remains of a debtor whose account is purged.
unfoldable pub without_account : Debtor → Debtor
without_account d = record d {
  has_server_account = false;
  balance = pos 0;
  transfer_note_max_bytes = pos 0;
  account_id = "";
  is_config_effectual = false;
}

unfoldable pub process_account_purge_signal : AccountPurge → Procedure (Unit {0})
unfolding find_debtor save_debtor without_account
process_account_purge_signal m = if not (m.creditor_id == root_creditor_id) then pure tt else do
  found ← query (find_debtor m.debtor_id)
  when_some found λ d.
      if d.has_server_account && leb d.account_creation_date m.creation_date
      then save_debtor (without_account d)
      else pure tt

-- Finalize a transfer and write it back.
unfoldable pub save_finalized : RunningTransfer → Option String → Option ℤ → Procedure (Unit {0})
unfolding finalize_running_transfer save_transfer
save_finalized rt error_code total_locked_amount = do
  rt' ← finalize_running_transfer rt error_code total_locked_amount
  save_transfer rt'

unfoldable pub process_rejected_issuing_transfer_signal : RejectedTransfer → Procedure (Unit {0})
unfolding find_running_transfer save_finalized
process_rejected_issuing_transfer_signal m = do
  found ← query (find_running_transfer m.coordinator_id m.coordinator_request_id)
  when_some found λ rt.
      if is_finalized rt
      then pure tt
      else if not (m.status_code == sc_ok)
          && (rt.debtor_id == m.debtor_id && root_creditor_id == m.creditor_id)
      then save_finalized rt (some m.status_code) (some m.total_locked_amount)
      else save_finalized rt (some sc_unexpected_error) none

-- The row of an answer to a prepared transfer.
unfoldable pub add_finalize_transfer_signal :
    PreparedTransfer → ℤ → ℤ → ℕ → String → String → Procedure (Unit {0})
unfolding now
add_finalize_transfer_signal m debtor_id creditor_id committed_amount format note = do
  inserted_at ← now
  modify λ db. record db {
    finalize_transfer_signals =
        db.finalize_transfer_signals
        ++ record {
          debtor_id = debtor_id;
          signal_id = db.next_signal_id;
          creditor_id = creditor_id;
          coordinator_id = m.coordinator_id;
          coordinator_request_id = m.coordinator_request_id;
          transfer_id = m.transfer_id;
          transfer_note_format = format;
          transfer_note = note;
          committed_amount = committed_amount;
          inserted_at = inserted_at;
        }
          ∷ [];
    next_signal_id = db.next_signal_id + 1;
  }

unfoldable pub dismiss_prepared_transfer : PreparedTransfer → Procedure (Unit {0})
unfolding add_finalize_transfer_signal
dismiss_prepared_transfer m = add_finalize_transfer_signal m m.debtor_id m.creditor_id 0 "" ""

unfoldable pub commit_prepared_transfer : PreparedTransfer → RunningTransfer → Procedure (Unit {0})
unfolding add_finalize_transfer_signal
commit_prepared_transfer m rt =
    add_finalize_transfer_signal m rt.debtor_id root_creditor_id rt.amount rt.transfer_note_format
      rt.transfer_note

unfoldable pub the_signal_matches_the_transfer : PreparedTransfer → RunningTransfer → Bool
the_signal_matches_the_transfer m rt =
    rt.debtor_id == m.debtor_id
    && (root_creditor_id == m.creditor_id
        && (rt.recipient == m.recipient && leb_ℤ (pos rt.amount) m.locked_amount))

-- A transfer that is neither finalized nor settled takes the identifier of the prepared one.
unfoldable pub settle : ℤ → RunningTransfer → RunningTransfer
settle transfer_id rt =
    if not (is_finalized rt) && rt.transfer_id == none
    then record rt { transfer_id = some transfer_id }
    else rt

unfoldable pub answer_prepared_transfer :
    PreparedTransfer → Option RunningTransfer → Procedure (Unit {0})
unfolding dismiss_prepared_transfer commit_prepared_transfer save_transfer
answer_prepared_transfer m none = dismiss_prepared_transfer m
answer_prepared_transfer m (some rt) =
    if the_signal_matches_the_transfer m rt
    then (do
      let rt' = settle m.transfer_id rt
      save_transfer rt'
      if rt'.transfer_id == some m.transfer_id
          then commit_prepared_transfer m rt'
          else dismiss_prepared_transfer m)
    else dismiss_prepared_transfer m

unfoldable pub process_prepared_issuing_transfer_signal : PreparedTransfer → Procedure (Unit {0})
unfolding find_running_transfer answer_prepared_transfer
process_prepared_issuing_transfer_signal m = do
  found ← query (find_running_transfer m.coordinator_id m.coordinator_request_id)
  answer_prepared_transfer m found

unfoldable pub process_finalized_issuing_transfer_signal : FinalizedTransfer → Procedure (Unit {0})
unfolding find_running_transfer save_finalized
process_finalized_issuing_transfer_signal m = do
  found ← query (find_running_transfer m.coordinator_id m.coordinator_request_id)
  when_some found λ rt.
      if rt.debtor_id == m.debtor_id
        && (root_creditor_id == m.creditor_id && rt.transfer_id == some m.transfer_id)
      then (if m.status_code == sc_ok && m.committed_amount == pos rt.amount
          then save_finalized rt none none
          else if not (m.status_code == sc_ok) && m.committed_amount == pos 0
          then save_finalized rt (some m.status_code) (some m.total_locked_amount)
          else save_finalized rt (some sc_unexpected_error) none)
      else pure tt
