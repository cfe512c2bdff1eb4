-- ===== src/Shard/Verified.antt =====
-- When the content of the shard is verified.
use swpt_debtors.Prelude.{◌≡◌, ◌↔◌, refl, true, false, List, [], ◌∷◌, map, ℤ, arith, All}
use swpt_debtors.Settings.{Settings}
use swpt_debtors.Models.{Database}
use swpt_debtors.Shard.{verify_table, verify_shard_content}

module _ (s : Settings) where
  abbrev pub Belongs : ℤ → Type 0
  Belongs debtor_id = s.realm_match debtor_id false ≡ true

  table_verified : (ids : List ℤ) → (verify_table s ids ≡ true) ↔ All Belongs ids
  unfolding verify_table
  table_verified [] = (λ _. tt, λ _. refl)
  table_verified (k ∷ ks) = (
    λ h. (ground (arith, h), (table_verified ks).0 (ground (arith, h))),
    λ h. ground (arith, h.0, (table_verified ks).1 h.1),
  )

  -- The exit code is 0 exactly if the debtors of all rows of the four tables belong to the shard.
  pub verify_shard_content_iff :
      (db : Database)
      → (verify_shard_content s db ≡ 0) ↔ (
          All Belongs (map (λ d. d.debtor_id) db.debtors)
          × All Belongs (map (λ x. x.debtor_id) db.configure_account_signals)
          × All Belongs (map (λ x. x.debtor_id) db.prepare_transfer_signals)
          × All Belongs (map (λ x. x.debtor_id) db.finalize_transfer_signals))
  unfolding verify_shard_content
  verify_shard_content_iff db =
      let a = table_verified (map (λ d. d.debtor_id) db.debtors) in
      let b = table_verified (map (λ x. x.debtor_id) db.configure_account_signals) in
      let c = table_verified (map (λ x. x.debtor_id) db.prepare_transfer_signals) in
      let d = table_verified (map (λ x. x.debtor_id) db.finalize_transfer_signals) in
      (
        λ h. (
          a.0 (ground (arith, h)),
          b.0 (ground (arith, h)),
          c.0 (ground (arith, h)),
          d.0 (ground (arith, h)),
        ),
        λ h. ground (arith, a.1 h.0, b.1 h.1, c.1 h.2, d.1 h.3),
      )
