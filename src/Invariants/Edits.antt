-- ===== src/Invariants/Edits.antt =====
-- The invariant that ties the counters of running transfers to the rows, and how the statements of
-- a transaction keep it.
use swpt_debtors.Prelude.{
  true, ◌⊎◌, ℕ, ◌≡◌, refl, sym, ◌∙◌, false, Option, none, some, List, ◌==◌, int_Eq, int_eq_iff, ℤ,
  pos, inl, inr, Bool-cases, arith, if◌then◌else◌,
}
use mathlib.Core.Path.{subst}
use swpt_debtors.Models.{Debtor, RunningTransfer, is_active}
use swpt_debtors.Store.{debtor_row, put_debtor, count_of}
use swpt_debtors.Store.DebtorLaws.{debtor_row-id, debtor_row-put}

-- What the row of a debtor says of the number of its transfers: its counter is that number, and it
-- has transfers only if it is active. There are none without a row.
abbrev pub CountsRow : Option Debtor → ℕ → Type 0
CountsRow none n = n ≡ 0
CountsRow (some d) n = (d.running_transfers_count ≡ pos n) × ((is_active d ≡ true) ⊎ (n ≡ 0))

abbrev pub Counts : List Debtor → List RunningTransfer → Type 0
Counts ds ts = (k : ℤ) → CountsRow (debtor_row k ds) (count_of k ts)

-- A change of a row that the invariant does not see.
abbrev pub KeepsCount : Debtor → Option Debtor → Type 0
KeepsCount d none = Unit
KeepsCount d (some d') =
    (d'.debtor_id ≡ d.debtor_id)
    × (d'.running_transfers_count ≡ d.running_transfers_count)
    × (is_active d' ≡ false → is_active d ≡ false)

still :
    (d d' : Debtor) (n : ℕ)
    → (is_active d' ≡ false → is_active d ≡ false)
    → (is_active d ≡ true) ⊎ (n ≡ 0)
    → (is_active d' ≡ true) ⊎ (n ≡ 0)
still d d' n keep old = ground (arith, keep, old)

abbrev pub write : Option Debtor → List Debtor → List Debtor
write none ds = ds
write (some d) ds = put_debtor d ds

-- A transaction that changes at most the row that it has found.
abbrev pub edit : Option Debtor → (Debtor → Option Debtor) → List Debtor → List Debtor
edit none f ds = ds
edit (some d) f ds = write (f d) ds

module _ (ts : List RunningTransfer) where
  -- A row written back, and the number of its transfers after the transaction.
  pub put-CountsRow :
      (j k : ℤ) (d d' : Debtor) (ds : List Debtor) (n : ℕ)
      → debtor_row j ds ≡ some d
      → d'.debtor_id ≡ j
      → CountsRow (if d'.debtor_id == k then some d' else debtor_row k ds) n
      → CountsRow (debtor_row k (put_debtor d' ds)) n
  put-CountsRow j k d d' ds n row key h =
      let new : (if d'.debtor_id == k then some d' else debtor_row k ds)
          ≡ debtor_row k (put_debtor d' ds) =
        ground (arith, debtor_row-put k d' ds, int_eq_iff d'.debtor_id k, key, row) in
      subst (λ o. CountsRow o n) new h

  put-Counts :
      (j : ℤ) (d d' : Debtor) (ds : List Debtor)
      → debtor_row j ds ≡ some d
      → KeepsCount d (some d')
      → Counts ds ts
      → Counts (put_debtor d' ds) ts
  put-Counts j d d' ds row keep h k =
      let key : d'.debtor_id ≡ j = keep.0 ∙ debtor_row-id j ds d row in
      let old : CountsRow (some d) (count_of j ts) =
        subst (λ o. CountsRow o (count_of j ts)) row (h j) in
      put-CountsRow j k d d' ds (count_of k ts) row key (elim (Bool-cases (d'.debtor_id == k)) [
        | inl e ↦
            let same : j ≡ k = sym key ∙ (int_eq_iff d'.debtor_id k).0 e in
            rw e (
              subst (λ i. CountsRow (some d') (count_of i ts)) same
                (keep.1 ∙ old.0, still d d' (count_of j ts) keep.2 old.1))
        | inr e ↦ rw e (h k)
      ])

  pub edit-Counts :
      (j : ℤ) (f : Debtor → Option Debtor) (ds : List Debtor)
      → ((d : Debtor) → KeepsCount d (f d))
      → Counts ds ts
      → Counts (edit (debtor_row j ds) f ds) ts
  edit-Counts j f ds keep h = go (debtor_row j ds) refl
    where
      put :
          (d : Debtor) (o : Option Debtor)
          → debtor_row j ds ≡ some d
          → KeepsCount d o
          → Counts (write o ds) ts
      put d none row k = h
      put d (some d') row k = put-Counts j d d' ds row k h

      go : (o : Option Debtor) → debtor_row j ds ≡ o → Counts (edit o f ds) ts
      go none row = h
      go (some d) row = put d (f d) row (keep d)
