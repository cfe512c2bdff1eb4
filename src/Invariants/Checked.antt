-- ===== src/Invariants/Checked.antt =====
-- The CHECK constraints of the table of debtors: the changes of a row that keep them.
use swpt_debtors.Prelude.{
  ℕ, ◌≤◌, ◌≡◌, refl, true, false, not, ◌&&◌, Option, none, some, inl, inr, List, String, ◌==◌,
  nat_Eq, string_Eq, int_Eq, option_Eq, ℤ, pos, ◌≤ℤ◌, Bool, Bool-cases, All, All-first,
  All-update_rows, arith,
}
use swpt_debtors.Platform.{Platform, Timestamp, Date}
use swpt_debtors.Models.{
  Database, Debtor, DebtorChecks, is_active, is_activated, is_deactivated, activate, deactivate,
  date_of,
}
use swpt_debtors.Models.Flags.{
  is_active-eq, is_activated-activate, is_deactivated-activate, is_activated-deactivate,
  is_deactivated-deactivate,
}
use swpt_debtors.Store.{debtor_row, put_debtor}
use swpt_debtors.Procedures.Decimal.{str_of_id}
use swpt_debtors.Procedures.Signalling.{next_config}
use swpt_debtors.Procedures.Config.{reset_actions, reset_documents}
use swpt_debtors.Procedures.Incoming.{without_account}
use swpt_debtors.Procedures.AccountUpdate.{heartbeat, apply_account_update}
use swpt_debtors.Procedures.Messages.{RejectedConfig, AccountPurge, AccountUpdate}
use swpt_debtors.Behaviour.Activation.{reserved}
use swpt_debtors.Behaviour.Deactivation.{deactivated}
use swpt_debtors.Behaviour.Initiation.{charged}
use swpt_debtors.Invariants.Edits.{write, edit}
use swpt_debtors.Invariants.Outcomes.{restricted}
use swpt_debtors.Invariants.Rows.{
  rejected, purged, activated_by, configured, with_document, updated,
}
use swpt_debtors.Models.Debtors.{new_debtor}

abbrev has_date : Debtor → Bool
has_date d = elim d.deactivation_date [ none ↦ false | some _ ↦ true ]

-- The constraints as tests
abbrev pub Checked : Debtor → Type 0
Checked d =
    (1 ≤ d.config_latest_update_id)
    × ((is_deactivated d && not (is_activated d)) ≡ false)
    × ((has_date d && not (is_deactivated d)) ≡ false)
    × (d.min_balance ≤ℤ pos 0)

abbrev pub CheckedIf : Option Debtor → Type 0
CheckedIf none = Unit
CheckedIf (some d) = Checked d

pub Checked-DebtorChecks : (d : Debtor) → Checked d → DebtorChecks d
Checked-DebtorChecks d (id, order, dated, balance) = record {
  update_id_pos = id;
  deactivated_after_activated = λ h. ground (arith, order, h);
  date_when_deactivated = elim (Bool-cases (is_deactivated d)) [
    | inl e ↦ inr e
    | inr e ↦ inl (ground (arith, dated, e))
  ];
  min_balance_nonpos = balance;
}

pub put-Checked :
    (d : Debtor) (ds : List Debtor) → Checked d → All Checked ds → All Checked (put_debtor d ds)
unfolding put_debtor
put-Checked d ds new h =
    All-update_rows Checked (λ x. x.debtor_id == d.debtor_id) (λ _. d) ds h (λ _ _ _. new)

pub found-Checked :
    (k : ℤ) (d : Debtor) (ds : List Debtor) → debtor_row k ds ≡ some d → All Checked ds → Checked d
unfolding debtor_row
found-Checked k d ds row h = All-first Checked (λ x. x.debtor_id == k) ds d h row

pub edit-Checked :
    (k : ℤ) (f : Debtor → Option Debtor) (ds : List Debtor)
    → ((d : Debtor) → Checked d → CheckedIf (f d))
    → All Checked ds
    → All Checked (edit (debtor_row k ds) f ds)
edit-Checked k f ds keep h = go (debtor_row k ds) refl
  where
    put : (o : Option Debtor) → CheckedIf o → All Checked (write o ds)
    put none new = h
    put (some d) new = put-Checked d ds new h

    go : (o : Option Debtor) → debtor_row k ds ≡ o → All Checked (edit o f ds)
    go none row = h
    go (some d) row = put (f d) (keep d (found-Checked k d ds row h))

pub charged-Checked : (now : Timestamp) (d : Debtor) → Checked d → Checked (charged now d)
unfolding is_activated is_deactivated reset_actions
charged-Checked now d h = ground arith

pub recounted-Checked :
    (n : ℤ) (d : Debtor) → Checked d → Checked (record d { running_transfers_count = n })
unfolding is_activated is_deactivated
recounted-Checked n d h = h

activate-Checked : (d : Debtor) → Checked d → Checked (activate d)
activate-Checked d h =
    let same : ((activate d).config_latest_update_id ≡ d.config_latest_update_id)
        × ((activate d).deactivation_date ≡ d.deactivation_date)
        × ((activate d).min_balance ≡ d.min_balance) =
      unfold activate in (refl, refl, refl) in
    ground (arith, same, is_activated-activate d, is_deactivated-activate d, h)

deactivate-Checked :
    (today : Date) (d : Debtor) → is_active d ≡ true → Checked d → Checked (deactivate today d)
deactivate-Checked today d active h =
    let same : ((deactivate today d).config_latest_update_id ≡ d.config_latest_update_id)
        × ((deactivate today d).min_balance ≡ d.min_balance) =
      unfold deactivate in (refl, refl) in
    ground (
      arith,
      same,
      active,
      is_active-eq d,
      is_activated-deactivate today d,
      is_deactivated-deactivate today d,
      h,
    )

module _ ⦃p : Platform⦄ where
  pub restricted-Checked :
      (m : ℤ) (now : Timestamp) (d : Debtor)
      → m ≤ℤ pos 0
      → Checked d
      → CheckedIf (restricted m now d)
  unfolding is_activated is_deactivated next_config
  restricted-Checked m now d nonpos h = ground arith

  pub rejected-Checked : (m : RejectedConfig) (d : Debtor) → Checked d → CheckedIf (rejected m d)
  unfolding is_activated is_deactivated
  rejected-Checked m d h = ground arith

  pub purged-Checked : (m : AccountPurge) (d : Debtor) → Checked d → CheckedIf (purged m d)
  unfolding is_activated is_deactivated without_account
  purged-Checked m d h = ground arith

  pub with_document-Checked :
      (limit : ℕ) (now : Timestamp) (d : Debtor) → Checked d → CheckedIf (with_document limit now d)
  unfolding is_activated is_deactivated reset_documents
  with_document-Checked limit now d h = ground arith

  pub configured-Checked :
      (config_data : String) (latest limit : ℕ) (current_ts now : Timestamp) (d : Debtor)
      → Checked d
      → CheckedIf (configured config_data latest limit current_ts now d)
  unfolding is_activated is_deactivated reset_actions next_config
  configured-Checked config_data latest limit current_ts now d h = ground arith

  pub updated-Checked :
      (m : AccountUpdate) (now : Timestamp) (d : Debtor) → Checked d → CheckedIf (updated m now d)
  unfolding is_activated is_deactivated heartbeat apply_account_update
  updated-Checked m now d h = ground arith

  next_config-Checked : (now : Timestamp) (d : Debtor) → Checked d → Checked (next_config now d)
  unfolding next_config is_activated is_deactivated
  next_config-Checked now d h = h

  pub activated_by-Checked :
      (reservation_id : String) (now : Timestamp) (d : Debtor)
      → Checked d
      → CheckedIf (activated_by reservation_id now d)
  activated_by-Checked reservation_id now d h =
      elim (Bool-cases (reservation_id == str_of_id d.reservation_id && not (is_activated d))) [
        | inl e ↦ rw e (next_config-Checked now (activate d) (activate-Checked d h))
        | inr e ↦ rw e tt
      ]

  pub deactivated-Checked :
      (ts config_ts : Timestamp) (d : Debtor)
      → is_active d ≡ true
      → Checked d
      → Checked (deactivated ts config_ts d)
  deactivated-Checked ts config_ts d active h =
      recounted-Checked (pos 0) (next_config config_ts (deactivate (date_of ts) d)) (
        next_config-Checked config_ts (deactivate (date_of ts) d)
          (deactivate-Checked (date_of ts) d active h))

  pub reserved-Checked : (k : ℤ) (db : Database) → Checked (reserved k db)
  unfolding new_debtor is_activated is_deactivated
  reserved-Checked k db = (omega arith, refl, refl, ground arith)
