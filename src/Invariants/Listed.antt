-- ===== src/Invariants/Listed.antt =====
-- The enumeration of the active debtors in the databases that the system reaches.
use swpt_debtors.Prelude.{
  ℕ, ◌+◌, ◌≤◌, ◌≡◌, sym, false, List, [], ◌∷◌, ◌==◌, int_Eq, int_eq, int_eq_iff, ℤ, leb_ℤ, inl, inr,
  Bool-cases, count, map, select_rows, All, arith, if◌then◌else◌,
}
use mathlib.Core.Path.{subst}
use swpt_debtors.Platform.{Platform, Timestamp}
use swpt_debtors.Settings.{Settings}
use swpt_debtors.Models.{Database, Debtor, is_active}
use swpt_debtors.Procedures.Listing.{active_ids, length_ids}
use swpt_debtors.System.{Event, run, empty}
use swpt_debtors.Behaviour.Sorted.{Increasing, DistinctIds}
use swpt_debtors.Behaviour.Enumeration.{enumerate, enumerate_all}
use swpt_debtors.Invariants.DebtorKeys.{has_id, Unique}
use swpt_debtors.Invariants.DebtorRuns.{run-Unique}

no_other :
    (k : ℤ) (ds : List Debtor)
    → count (has_id k) ds ≡ 0
    → All (λ y. int_eq k y ≡ false) (map (λ d. d.debtor_id) (select_rows is_active ds))
unfolding count select_rows
no_other k [] h = tt
no_other k (d ∷ ds) h =
    let other : int_eq k d.debtor_id ≡ false =
      ground (arith, h, int_eq_iff k d.debtor_id, int_eq_iff d.debtor_id k) in
    let rest = no_other k ds (ground (arith, h)) in
    elim (Bool-cases (is_active d)) [ inl e ↦ rw e (other, rest) | inr e ↦ rw e rest ]

pub Unique-DistinctIds :
    (ds : List Debtor) → Unique ds → DistinctIds (map (λ d. d.debtor_id) (select_rows is_active ds))
unfolding count select_rows
Unique-DistinctIds [] h = tt
Unique-DistinctIds (d ∷ ds) h =
    let rest = Unique-DistinctIds ds (λ k. ground (arith, h k)) in
    let alone : count (has_id d.debtor_id) ds ≡ 0 =
      ground (arith, h d.debtor_id, int_eq_iff d.debtor_id d.debtor_id) in
    elim (Bool-cases (is_active d)) [
      | inl e ↦ rw e (no_other d.debtor_id ds alone, rest)
      | inr e ↦ rw e rest
    ]

module _ ⦃p : Platform⦄ (s : Settings) where
  -- In a database reached from an empty one, a client that follows the links to the next pages gets,
  -- in increasing order, the identifier of each active debtor from `start_from` on as often as it
  -- occurs, and no other; it needs at most one page more than there are active debtors.
  pub all_listed :
      (es : List Event) (clock : ℕ → Timestamp) (db : Database) (fuel : ℕ) (start_from : ℤ)
      (page_size : ℕ)
      → db ≡ run s es (empty clock)
      → 1 ≤ page_size
      → length_ids (active_ids db) + 1 ≤ fuel
      → Increasing (enumerate fuel start_from page_size db)
        × ((k : ℤ)
            → count (λ y. y == k) (enumerate fuel start_from page_size db)
              ≡ (if leb_ℤ start_from k then count (λ y. y == k) (active_ids db) else 0))
  all_listed es clock db fuel start_from page_size reached positive enough =
      let unique : Unique db.debtors =
        subst (λ x. Unique x.debtors) (sym reached) (run-Unique s es clock) in
      enumerate_all fuel start_from page_size db positive (Unique-DistinctIds db.debtors unique)
        enough
