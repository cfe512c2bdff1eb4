-- ===== src/Invariants/Transactions.antt =====
-- How the transactions that touch both tables keep the counters of running transfers.
use swpt_debtors.Prelude.{
  ℕ, ◌+◌, ◌≡◌, refl, sym, ap, ◌∙◌, true, false, none, some, List, [], ◌∷◌, ◌++◌, ◌==◌, int_Eq,
  int_eq_iff, ℤ, pos, ◌+ℤ◌, ◌-ℤ◌, inl, inr, Bool-cases, Option-cases, arith, if◌then◌else◌,
}
use mathlib.Core.Path.{subst, subst₂}
use swpt_debtors.Models.{Debtor, RunningTransfer, is_active}
use swpt_debtors.Store.{
  debtor_row, put_debtor, remove_debtor, uncount_transfer, count_of, count_uuid, put_transfer,
  delete_transfer, delete_transfers_of,
}
use swpt_debtors.Store.DebtorLaws.{debtor_row-append, debtor_row-remove, debtor_row-uncount}
use swpt_debtors.Store.TransferLaws.{
  count_of-append, count_of-put, count_of-delete_of, count_of-delete,
}
use swpt_debtors.Invariants.Edits.{CountsRow, Counts, put-CountsRow}

-- Writing a transfer back.
pub put_transfer-Counts :
    (rt : RunningTransfer) (ds : List Debtor) (ts : List RunningTransfer)
    → Counts ds ts
    → Counts ds (put_transfer rt ts)
put_transfer-Counts rt ds ts h k =
    subst (CountsRow (debtor_row k ds)) (sym (count_of-put k rt ts)) (h k)

-- A new debtor, where there was none.
pub add_debtor-Counts :
    (d : Debtor) (ds : List Debtor) (ts : List RunningTransfer)
    → debtor_row d.debtor_id ds ≡ none
    → d.running_transfers_count ≡ pos 0
    → Counts ds ts
    → Counts (ds ++ d ∷ []) ts
add_debtor-Counts d ds ts free zero_count h k = elim (Option-cases (debtor_row k ds)) [
  | inl vacant ↦
      let none_left : count_of k ts ≡ 0 = subst (λ o. CountsRow o (count_of k ts)) vacant (h k) in
      subst (λ o. CountsRow o (count_of k ts)) (sym (debtor_row-append k ds d))
        (rw vacant (elim (Bool-cases (d.debtor_id == k)) [
          | inl e ↦ rw e (zero_count ∙ ap pos (sym none_left), inr none_left)
          | inr e ↦ rw e none_left
        ]))
  | inr (x, taken) ↦
      let law : debtor_row k (ds ++ d ∷ []) ≡ debtor_row k ds =
        ground (arith, debtor_row-append k ds d, taken) in
      subst (λ o. CountsRow o (count_of k ts)) (sym law) (h k)
]

-- A debtor that is removed with its transfers.
pub remove_debtor-Counts :
    (j : ℤ) (ds : List Debtor) (ts : List RunningTransfer)
    → Counts ds ts
    → Counts (remove_debtor j ds) (delete_transfers_of j ts)
remove_debtor-Counts j ds ts h k =
    subst₂ CountsRow (sym (debtor_row-remove k j ds)) (sym (count_of-delete_of k j ts))
      (elim (Bool-cases (j == k)) [ inl e ↦ rw e refl | inr e ↦ rw e (h k) ])

-- The row of a debtor whose transfers are all deleted.
pub clear-Counts :
    (j : ℤ) (d d' : Debtor) (ds : List Debtor) (ts : List RunningTransfer)
    → debtor_row j ds ≡ some d
    → d'.debtor_id ≡ j
    → d'.running_transfers_count ≡ pos 0
    → Counts ds ts
    → Counts (put_debtor d' ds) (delete_transfers_of d'.debtor_id ts)
clear-Counts j d d' ds ts row key cleared h k =
    put-CountsRow ts j k d d' ds (count_of k (delete_transfers_of d'.debtor_id ts)) row key (
      subst (CountsRow (if d'.debtor_id == k then some d' else debtor_row k ds))
        (sym (count_of-delete_of k d'.debtor_id ts))
        (elim (Bool-cases (d'.debtor_id == k)) [
          | inl e ↦ rw e (cleared, inr refl)
          | inr e ↦ rw e (h k)
        ]))

pos_plus_one : (n : ℕ) → pos n +ℤ pos 1 ≡ pos (n + 1)
unfolding ◌+ℤ◌
pos_plus_one n = ground arith

pos_minus_one : (n : ℕ) → pos (n + 1) -ℤ pos 1 ≡ pos n
unfolding ◌-ℤ◌
pos_minus_one n = ground arith

-- One transfer more of an active debtor.
pub add_transfer-Counts :
    (j : ℤ) (d d' : Debtor) (rt : RunningTransfer) (ds : List Debtor) (ts : List RunningTransfer)
    → debtor_row j ds ≡ some d
    → d'.debtor_id ≡ j
    → rt.debtor_id ≡ j
    → is_active d' ≡ true
    → d'.running_transfers_count ≡ d.running_transfers_count +ℤ pos 1
    → Counts ds ts
    → Counts (put_debtor d' ds) (ts ++ rt ∷ [])
add_transfer-Counts j d d' rt ds ts row key rkey active more h k =
    let n = count_of k ts in
    let old : CountsRow (some d) (count_of j ts) =
      subst (λ o. CountsRow o (count_of j ts)) row (h j) in
    put-CountsRow ts j k d d' ds (count_of k (ts ++ rt ∷ [])) row key (
      subst (CountsRow (if d'.debtor_id == k then some d' else debtor_row k ds))
        (sym (count_of-append k ts rt))
        (elim (Bool-cases (d'.debtor_id == k)) [
          | inl e ↦
              let same : j ≡ k = sym key ∙ (int_eq_iff d'.debtor_id k).0 e in
              let mine : (rt.debtor_id == k) ≡ true = (int_eq_iff rt.debtor_id k).1 (rkey ∙ same) in
              let counted : d.running_transfers_count ≡ pos n =
                old.0 ∙ ap (λ i. pos (count_of i ts)) same in
              rw (e, mine) (more ∙ ap (λ c. c +ℤ pos 1) counted ∙ pos_plus_one n, inl active)
          | inr e ↦
              let apart : (rt.debtor_id == k) ≡ false =
                ground
                  (arith, e, key, rkey, int_eq_iff d'.debtor_id k, int_eq_iff rt.debtor_id k) in
              let same : n ≡ n + 0 = omega arith in
              rw (e, apart) (subst (CountsRow (debtor_row k ds)) same (h k))
        ]))

-- One transfer less.
pub delete_transfer-Counts :
    (j : ℤ) (uuid : ℕ) (ds : List Debtor) (ts : List RunningTransfer)
    → count_uuid j uuid ts ≡ 1
    → Counts ds ts
    → Counts (uncount_transfer j ds) (delete_transfer j uuid ts)
unfolding is_active
delete_transfer-Counts j uuid ds ts one h k =
    let law = count_of-delete k j uuid ts in
    let n = count_of k (delete_transfer j uuid ts) in
    subst (λ o. CountsRow o n) (sym (debtor_row-uncount k j ds))
      (elim (Bool-cases (j == k)) [
        | inl e ↦ rw e (
            let total : count_of k ts ≡ n + 1 = ground (arith, law, e, one) in
            elim (Option-cases (debtor_row k ds)) [
              | inl vacant ↦
                  let old : count_of k ts ≡ 0 =
                    subst (λ o. CountsRow o (count_of k ts)) vacant (h k) in
                  absurd (omega arith)
              | inr (d, found) ↦
                  let old : CountsRow (some d) (count_of k ts) =
                    subst (λ o. CountsRow o (count_of k ts)) found (h k) in
                  rw found (
                    ap (λ c. c -ℤ pos 1) (old.0 ∙ ap pos total) ∙ pos_minus_one n,
                    ground (arith, old.1, total),
                  )
            ])
        | inr e ↦
            let same : count_of k ts ≡ n = ground (arith, law, e) in
            rw e (subst (CountsRow (debtor_row k ds)) same (h k))
      ])
