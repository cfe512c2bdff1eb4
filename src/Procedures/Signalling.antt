-- ===== src/Procedures/Signalling.antt =====
-- `_insert_configure_account_signal` and `_discard_orphaned_account`: the messages that configure
-- the debtor's account.
use swpt_debtors.Prelude.{
  ℕ, ◌-◌, ◌%◌, Bool, not, ◌&&◌, [], ◌∷◌, ◌++◌, ◌==◌, nat_Eq, ℤ, pos, negsuc, max, bit_and, bit_or,
  if◌then◌else◌,
}
use swpt_debtors.Platform.{Platform, Float}
use swpt_debtors.Models.{
  Debtor, ConfigureAccountSignal, default_config_flags, config_scheduled_for_deletion_flag,
}
use swpt_debtors.Procedures.Monad.{Procedure, pure, modify, ◌>>=◌, ◌>>◌, now}

-- `n & 1` in two's complement
unfoldable pub and_one : ℤ → ℕ
and_one (pos n) = bit_and n 1
and_one (negsuc n) = 1 - n % 2

-- `db.session.add(ConfigureAccountSignal(…))`; the row is inserted by the flush, which tests its
-- primary key (Procedures.Flush).
unfoldable pub add_configure_account_signal : ConfigureAccountSignal → Procedure (Unit {0})
add_configure_account_signal s =
    modify λ db. record db { configure_account_signals = db.configure_account_signals ++ s ∷ [] }

module _ ⦃p : Platform⦄ where
  -- The signal that announces a debtor's configuration.
  unfoldable pub configure_account_signal : Debtor → ℕ → ConfigureAccountSignal
  configure_account_signal d inserted_at = record {
    debtor_id = d.debtor_id;
    ts = d.last_config_ts;
    seqnum = d.last_config_seqnum;
    config_data = d.config_data;
    config_flags = d.config_flags;
    negligible_amount = p.to_real (p.negate (p.of_int d.min_balance));
    inserted_at = inserted_at;
  }

  -- The debtor's next configuration version.
  unfoldable pub next_config : ℕ → Debtor → Debtor
  next_config current_ts d = record d {
    last_config_ts = max current_ts d.last_config_ts;
    last_config_seqnum = p.increment_seqnum d.last_config_seqnum;
  }

  unfoldable pub insert_configure_account_signal : Debtor → Procedure Debtor
  unfolding add_configure_account_signal now
  insert_configure_account_signal debtor = do
    current_ts ← now
    let d = next_config current_ts debtor
    inserted_at ← now
    add_configure_account_signal (configure_account_signal d inserted_at)
    pure d

  -- `(1 - EPS) * HUGE_NEGLIGIBLE_AMOUNT`
  abbrev pub safely_huge_amount : Float
  safely_huge_amount = p.times (p.minus p.one p.eps) p.huge_negligible_amount

  unfoldable pub is_already_discarded : ℤ → Float → Bool
  unfolding and_one
  is_already_discarded config_flags negligible_amount =
      not (and_one config_flags == 0) && p.leq safely_huge_amount negligible_amount

  unfoldable pub discard_orphaned_account : ℤ → ℤ → Float → Procedure (Unit {0})
  unfolding is_already_discarded add_configure_account_signal now
  discard_orphaned_account debtor_id config_flags negligible_amount =
      if is_already_discarded config_flags negligible_amount then pure tt else do
        ts ← now
        inserted_at ← now
        add_configure_account_signal (record {
          debtor_id = debtor_id;
          ts = ts;
          seqnum = pos 0;
          config_data = "";
          config_flags = pos (bit_or default_config_flags config_scheduled_for_deletion_flag);
          negligible_amount = p.to_real p.huge_negligible_amount;
          inserted_at = inserted_at;
        })
