-- ===== src/Store/DebtorLaws.antt =====
-- What the statements do to the row that a query finds, debtor by debtor.
use mathlib.Core.Option
use swpt_debtors.Prelude.{
  ◌≡◌, none, some, List, [], ◌∷◌, ◌++◌, ◌==◌, int_Eq, int_eq_iff, ℤ, pos, ◌-ℤ◌, or_else, first,
  update_rows, delete_rows, first-append, first-true, arith, if◌then◌else◌,
}
use swpt_debtors.Models.{Debtor}
use swpt_debtors.Store.{debtor_row, put_debtor, remove_debtor, uncount_transfer}

pub debtor_row-id :
    (k : ℤ) (ds : List Debtor) (d : Debtor) → debtor_row k ds ≡ some d → d.debtor_id ≡ k
unfolding debtor_row
debtor_row-id k ds d h = (int_eq_iff d.debtor_id k).0 (first-true (λ x. x.debtor_id == k) ds d h)

-- A row that is written back is found.
pub debtor_row-put_self :
    (k : ℤ) (d d' : Debtor) (ds : List Debtor)
    → debtor_row k ds ≡ some d
    → d'.debtor_id ≡ k
    → debtor_row k (put_debtor d' ds) ≡ some d'
unfolding debtor_row put_debtor first update_rows
debtor_row-put_self k d d' [] h e = cc
debtor_row-put_self k d d' (x ∷ ds) h e = ground (
  arith,
  int_eq_iff x.debtor_id k,
  int_eq_iff x.debtor_id d'.debtor_id,
  int_eq_iff d'.debtor_id k,
  debtor_row-put_self k d d' ds,
)

pub debtor_row-append :
    (k : ℤ) (ds : List Debtor) (d : Debtor)
    → debtor_row k (ds ++ d ∷ [])
      ≡ or_else (debtor_row k ds) (if d.debtor_id == k then some d else none)
unfolding debtor_row
debtor_row-append k ds d = first-append (λ x. x.debtor_id == k) ds d

pub debtor_row-put :
    (k : ℤ) (d : Debtor) (ds : List Debtor)
    → debtor_row k (put_debtor d ds)
      ≡ (if d.debtor_id == k then Option.map (λ _. d) (debtor_row k ds) else debtor_row k ds)
unfolding debtor_row put_debtor first update_rows
debtor_row-put k d [] = ground arith
debtor_row-put k d (x ∷ ds) = ground (
  arith,
  int_eq_iff x.debtor_id d.debtor_id,
  int_eq_iff x.debtor_id k,
  int_eq_iff d.debtor_id k,
  debtor_row-put k d ds,
)

pub debtor_row-remove :
    (k j : ℤ) (ds : List Debtor)
    → debtor_row k (remove_debtor j ds) ≡ (if j == k then none else debtor_row k ds)
unfolding debtor_row remove_debtor first delete_rows
debtor_row-remove k j [] = ground arith
debtor_row-remove k j (x ∷ ds) = ground (
  arith,
  int_eq_iff x.debtor_id j,
  int_eq_iff x.debtor_id k,
  int_eq_iff j k,
  debtor_row-remove k j ds,
)

abbrev pub uncounted : Debtor → Debtor
uncounted d = record d { running_transfers_count = d.running_transfers_count -ℤ pos 1 }

pub debtor_row-uncount :
    (k j : ℤ) (ds : List Debtor)
    → debtor_row k (uncount_transfer j ds)
      ≡ (if j == k then Option.map uncounted (debtor_row k ds) else debtor_row k ds)
unfolding debtor_row uncount_transfer first update_rows
debtor_row-uncount k j [] = ground arith
debtor_row-uncount k j (x ∷ ds) = ground (
  arith,
  int_eq_iff x.debtor_id j,
  int_eq_iff x.debtor_id k,
  int_eq_iff j k,
  debtor_row-uncount k j ds,
)
