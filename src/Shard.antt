-- ===== src/Shard.antt =====
-- `verify_shard_content` of swpt_debtors/cli.py. `ShardingRealm` is a parameter of the settings.
pub mod Verified
use swpt_debtors.Prelude.{ℕ, Bool, true, false, not, ◌&&◌, List, [], ◌∷◌, map, ℤ, if◌then◌else◌}
use swpt_debtors.Settings.{Settings}
use swpt_debtors.Models.{Database}

module _ (s : Settings) where
  -- `verify_table`: `false` is `InvalidRecord`.
  unfoldable pub verify_table : List ℤ → Bool
  verify_table [] = true
  verify_table (debtor_id ∷ rest) =
      let later = verify_table rest in if not (s.realm_match debtor_id false) then false else later

  -- The exit code
  unfoldable pub verify_shard_content : Database → ℕ
  unfolding verify_table
  verify_shard_content db =
      if verify_table (map (λ d. d.debtor_id) db.debtors)
        && (verify_table (map (λ x. x.debtor_id) db.configure_account_signals)
            && (verify_table (map (λ x. x.debtor_id) db.prepare_transfer_signals)
                && verify_table (map (λ x. x.debtor_id) db.finalize_transfer_signals)))
      then 0
      else 1
