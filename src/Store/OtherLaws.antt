-- ===== src/Store/OtherLaws.antt =====
-- The statements about the transfers of one debtor leave those of the others alone.
use swpt_debtors.Prelude.{
  ℕ, ◌≡◌, false, List, [], ◌∷◌, ◌++◌, ◌==◌, nat_Eq, int_Eq, int_eq_iff, ℤ, select_rows, update_rows,
  delete_rows, arith,
}
use swpt_debtors.Models.{RunningTransfer}
use swpt_debtors.Store.{belongs_to, put_transfer, delete_transfer}

-- The transfers of a debtor
abbrev pub transfers_of : ℤ → List RunningTransfer → List RunningTransfer
transfers_of j = select_rows (belongs_to j)

module _ (j k : ℤ) (other : (j == k) ≡ false) where
  pub transfers_of-append :
      (ts : List RunningTransfer) (rt : RunningTransfer)
      → rt.debtor_id ≡ k
      → transfers_of j (ts ++ rt ∷ []) ≡ transfers_of j ts
  unfolding select_rows
  transfers_of-append [] rt key =
      ground (arith, other, key, int_eq_iff rt.debtor_id j, int_eq_iff j k)
  transfers_of-append (x ∷ ts) rt key = ground (arith, transfers_of-append ts rt key)

  pub transfers_of-put :
      (rt : RunningTransfer) (ts : List RunningTransfer)
      → rt.debtor_id ≡ k
      → transfers_of j (put_transfer rt ts) ≡ transfers_of j ts
  unfolding select_rows put_transfer update_rows
  transfers_of-put rt [] key = ground arith
  transfers_of-put rt (x ∷ ts) key = ground (
    arith,
    other,
    key,
    int_eq_iff rt.debtor_id j,
    int_eq_iff x.debtor_id j,
    int_eq_iff x.debtor_id rt.debtor_id,
    int_eq_iff j k,
    transfers_of-put rt ts key,
  )

  pub transfers_of-delete :
      (uuid : ℕ) (ts : List RunningTransfer)
      → transfers_of j (delete_transfer k uuid ts) ≡ transfers_of j ts
  unfolding select_rows delete_transfer delete_rows
  transfers_of-delete uuid [] = ground arith
  transfers_of-delete uuid (x ∷ ts) = ground (
    arith,
    other,
    int_eq_iff x.debtor_id j,
    int_eq_iff x.debtor_id k,
    int_eq_iff j k,
    transfers_of-delete uuid ts,
  )
