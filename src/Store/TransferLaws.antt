-- ===== src/Store/TransferLaws.antt =====
-- What the statements do to the transfers that a query finds or counts.
use swpt_debtors.Prelude.{
  ℕ, ◌+◌, ◌≡◌, refl, none, some, List, [], ◌∷◌, ◌++◌, ◌==◌, nat_Eq, int_Eq, int_eq_iff, ℤ, or_else,
  first, count, update_rows, delete_rows, first-append, first-delete_rows_self, count-append, arith,
  if◌then◌else◌,
}
use swpt_debtors.Models.{RunningTransfer}
use swpt_debtors.Store.{
  has_uuid, has_request_id, belongs_to, transfer_row, request_row, count_uuid, count_of,
  put_transfer, delete_transfer, delete_transfers_of,
}

pub count_of-append :
    (k : ℤ) (ts : List RunningTransfer) (rt : RunningTransfer)
    → count_of k (ts ++ rt ∷ []) ≡ count_of k ts + (if rt.debtor_id == k then 1 else 0)
unfolding count_of
count_of-append k ts rt = count-append (belongs_to k) ts rt

pub count_of-put :
    (k : ℤ) (rt : RunningTransfer) (ts : List RunningTransfer)
    → count_of k (put_transfer rt ts) ≡ count_of k ts
unfolding count_of put_transfer count update_rows
count_of-put k rt [] = refl
count_of-put k rt (x ∷ ts) =
    ground (arith, int_eq_iff x.debtor_id rt.debtor_id, count_of-put k rt ts)

pub count_of-delete_of :
    (k j : ℤ) (ts : List RunningTransfer)
    → count_of k (delete_transfers_of j ts) ≡ (if j == k then 0 else count_of k ts)
unfolding count_of delete_transfers_of count delete_rows
count_of-delete_of k j [] = ground arith
count_of-delete_of k j (x ∷ ts) = ground (
  arith,
  int_eq_iff x.debtor_id j,
  int_eq_iff x.debtor_id k,
  int_eq_iff j k,
  count_of-delete_of k j ts,
)

pub count_of-delete :
    (k j : ℤ) (uuid : ℕ) (ts : List RunningTransfer)
    → count_of k (delete_transfer j uuid ts) + (if j == k then count_uuid j uuid ts else 0)
      ≡ count_of k ts
unfolding count_of count_uuid delete_transfer count delete_rows
count_of-delete k j uuid [] = ground arith
count_of-delete k j uuid (x ∷ ts) = ground (
  arith,
  int_eq_iff x.debtor_id j,
  int_eq_iff x.debtor_id k,
  int_eq_iff j k,
  count_of-delete k j uuid ts,
)

pub transfer_row-key :
    (k : ℤ) (uuid : ℕ) (ts : List RunningTransfer) (rt : RunningTransfer)
    → transfer_row k uuid ts ≡ some rt
    → (rt.debtor_id ≡ k) × (rt.transfer_uuid ≡ uuid)
unfolding transfer_row first
transfer_row-key k uuid [] rt h = cc
transfer_row-key k uuid (x ∷ ts) rt h =
    ground (arith, int_eq_iff x.debtor_id k, transfer_row-key k uuid ts rt)

pub request_row-key :
    (k r : ℤ) (ts : List RunningTransfer) (rt : RunningTransfer)
    → request_row k r ts ≡ some rt
    → (rt.debtor_id ≡ k) × (rt.coordinator_request_id ≡ r)
unfolding request_row first
request_row-key k r [] rt h = cc
request_row-key k r (x ∷ ts) rt h = ground (
  arith,
  int_eq_iff x.debtor_id k,
  int_eq_iff x.coordinator_request_id r,
  request_row-key k r ts rt,
)

-- A row that is written back is found by its primary key.
pub transfer_row-put_self :
    (k : ℤ) (uuid : ℕ) (rt rt' : RunningTransfer) (ts : List RunningTransfer)
    → transfer_row k uuid ts ≡ some rt
    → rt'.debtor_id ≡ k
    → rt'.transfer_uuid ≡ uuid
    → transfer_row k uuid (put_transfer rt' ts) ≡ some rt'
unfolding transfer_row put_transfer first update_rows
transfer_row-put_self k uuid rt rt' [] h e u = cc
transfer_row-put_self k uuid rt rt' (x ∷ ts) h e u = ground (
  arith,
  int_eq_iff x.debtor_id k,
  int_eq_iff x.debtor_id rt'.debtor_id,
  int_eq_iff rt'.debtor_id k,
  transfer_row-put_self k uuid rt rt' ts,
)

-- A row that is written back is found by its request identifier, if it has the keys of the row that
-- was found.
pub request_row-put_self :
    (k r : ℤ) (rt rt' : RunningTransfer) (ts : List RunningTransfer)
    → request_row k r ts ≡ some rt
    → rt'.debtor_id ≡ k
    → rt'.coordinator_request_id ≡ r
    → rt'.transfer_uuid ≡ rt.transfer_uuid
    → request_row k r (put_transfer rt' ts) ≡ some rt'
unfolding request_row put_transfer first update_rows
request_row-put_self k r rt rt' [] h e c u = cc
request_row-put_self k r rt rt' (x ∷ ts) h e c u = ground (
  arith,
  int_eq_iff x.debtor_id k,
  int_eq_iff x.coordinator_request_id r,
  int_eq_iff x.debtor_id rt'.debtor_id,
  int_eq_iff rt'.debtor_id k,
  int_eq_iff rt'.coordinator_request_id r,
  request_row-put_self k r rt rt' ts,
)

pub transfer_row-append :
    (k : ℤ) (uuid : ℕ) (ts : List RunningTransfer) (rt : RunningTransfer)
    → transfer_row k uuid (ts ++ rt ∷ [])
      ≡ or_else (transfer_row k uuid ts) (if has_uuid k uuid rt then some rt else none)
unfolding transfer_row
transfer_row-append k uuid ts rt = first-append (has_uuid k uuid) ts rt

pub request_row-append :
    (k r : ℤ) (ts : List RunningTransfer) (rt : RunningTransfer)
    → request_row k r (ts ++ rt ∷ [])
      ≡ or_else (request_row k r ts) (if has_request_id k r rt then some rt else none)
unfolding request_row
request_row-append k r ts rt = first-append (has_request_id k r) ts rt

-- A deleted row is not found any more.
pub transfer_row-delete_self :
    (k : ℤ) (uuid : ℕ) (ts : List RunningTransfer)
    → transfer_row k uuid (delete_transfer k uuid ts) ≡ none
unfolding transfer_row delete_transfer
transfer_row-delete_self k uuid ts =
    first-delete_rows_self (has_uuid k uuid) (has_uuid k uuid) ts (λ x h. h)

pub request_row-delete_of :
    (k r : ℤ) (ts : List RunningTransfer) → request_row k r (delete_transfers_of k ts) ≡ none
unfolding request_row delete_transfers_of
request_row-delete_of k r ts =
    first-delete_rows_self (has_request_id k r) (belongs_to k) ts (λ x h. ground arith)

pub count_uuid-delete_self :
    (k : ℤ) (uuid : ℕ) (ts : List RunningTransfer)
    → count_uuid k uuid (delete_transfer k uuid ts) ≡ 0
unfolding count_uuid delete_transfer count delete_rows
count_uuid-delete_self k uuid [] = refl
count_uuid-delete_self k uuid (x ∷ ts) = ground (arith, count_uuid-delete_self k uuid ts)

pub transfer_row-count_uuid :
    (k : ℤ) (uuid : ℕ) (ts : List RunningTransfer)
    → count_uuid k uuid ts ≡ 0
    → transfer_row k uuid ts ≡ none
unfolding count_uuid transfer_row count first
transfer_row-count_uuid k uuid [] absent = refl
transfer_row-count_uuid k uuid (x ∷ ts) absent = ground (arith, transfer_row-count_uuid k uuid ts)
