-- ===== src/Lifecycle/Keys.antt =====
-- The keys of the transfers: that they are unique and never used again, whatever a transaction does.
use swpt_debtors.Prelude.{
  ℕ, ◌+◌, ◌≤◌, ltb, ◌≡◌, Bool, true, false, none, some, List, [], ◌∷◌, ◌++◌, nat_Eq, int_Eq,
  int_eq_iff, ℤ, pos, negsuc, ◌⊎◌, first, count, delete_rows, count-append, count-zero_of_first,
  arith,
}
use mathlib.Core.Path.{subst}
use swpt_debtors.Prelude.UniqueRows.{count-update_one, count-delete-le}
use swpt_debtors.Models.{Database, RunningTransfer}
use swpt_debtors.Store.{transfer_row, put_transfer, has_uuid, has_request_id}
use swpt_debtors.Lifecycle.Changes.{
  Advances, stays, settles, finalizes, Change, unchanged, started, advanced, deleted,
}

-- A request identifier that the sequence has given.
abbrev pub is_used : ℕ → ℤ → Bool
is_used next (pos n) = ltb n next
is_used next (negsuc n) = false

-- The queries by the keys tell the rows of a table apart.
pub record Keys (next : ℕ) (ts : List RunningTransfer) : Type 0 where
  pub uuid_unique : (k : ℤ) (uuid : ℕ) → count (has_uuid k uuid) ts ≤ 1
  pub request_unique : (k r : ℤ) → count (has_request_id k r) ts ≤ 1
  pub unused : (k r : ℤ) → (is_used next r ≡ true) ⊎ (count (has_request_id k r) ts ≡ 0)

-- What a change of a row keeps.
pub record SameKeys (rt rt' : RunningTransfer) : Type 0 where
  pub same_debtor : rt'.debtor_id ≡ rt.debtor_id
  pub same_uuid : rt'.transfer_uuid ≡ rt.transfer_uuid
  pub same_request : rt'.coordinator_request_id ≡ rt.coordinator_request_id

pub Advances-SameKeys : {rt rt' : RunningTransfer} → Advances rt rt' → SameKeys rt rt'
Advances-SameKeys (stays e) = ground (arith, e)
Advances-SameKeys (settles t f u e) = ground (arith, e)
Advances-SameKeys (finalizes ts c l f e) = ground (arith, e)

module _ {rt rt' : RunningTransfer} (same : SameKeys rt rt') where
  pub has_uuid_self : has_uuid rt'.debtor_id rt'.transfer_uuid rt ≡ true
  has_uuid_self = ground (arith, int_eq_iff rt.debtor_id rt'.debtor_id)

  has_uuid-same : (k : ℤ) (uuid : ℕ) → has_uuid k uuid rt' ≡ has_uuid k uuid rt
  has_uuid-same k uuid = ground arith

  pub has_request_id-same : (k r : ℤ) → has_request_id k r rt' ≡ has_request_id k r rt
  has_request_id-same k r = ground arith

module _ (next : ℕ) (ts : List RunningTransfer) (keys : Keys next ts) where
  pub put-Keys :
      (query : RunningTransfer → Bool) (rt rt' : RunningTransfer)
      → first query ts ≡ some rt
      → SameKeys rt rt'
      → Keys next (put_transfer rt' ts)
  put-Keys query rt rt' found same =
      let kept : (q : RunningTransfer → Bool)
          → q rt' ≡ q rt
          → count q (put_transfer rt' ts) ≡ count q ts =
        λ q e.
          unfold put_transfer in
          count-update_one q query (has_uuid rt'.debtor_id rt'.transfer_uuid) rt rt'
            (has_uuid_self same) e ts found (keys.uuid_unique rt'.debtor_id rt'.transfer_uuid) in
      record {
        uuid_unique = λ k uuid.
            omega
              (arith, keys.uuid_unique k uuid, kept (has_uuid k uuid) (has_uuid-same same k uuid));
        request_unique = λ k r. omega (
          arith,
          keys.request_unique k r,
          kept (has_request_id k r) (has_request_id-same same k r),
        );
        unused = λ k r.
            ground
              (arith, keys.unused k r, kept (has_request_id k r) (has_request_id-same same k r));
      }

  pub delete-Keys : (test : RunningTransfer → Bool) → Keys next (delete_rows test ts)
  delete-Keys test = record {
    uuid_unique =
        λ k uuid. omega (arith, keys.uuid_unique k uuid, count-delete-le (has_uuid k uuid) test ts);
    request_unique =
        λ k r. omega (arith, keys.request_unique k r, count-delete-le (has_request_id k r) test ts);
    unused = λ k r. ground (arith, keys.unused k r, count-delete-le (has_request_id k r) test ts);
  }

  taken_uuid :
      (rt : RunningTransfer)
      → transfer_row rt.debtor_id rt.transfer_uuid ts ≡ none
      → (k : ℤ) (uuid : ℕ) → has_uuid k uuid rt ≡ true
      → count (has_uuid k uuid) ts ≡ 0
  unfolding transfer_row
  taken_uuid rt free k uuid mine =
      let e : rt.debtor_id ≡ k = ground (arith, int_eq_iff rt.debtor_id k) in
      let e' : rt.transfer_uuid ≡ uuid = ground arith in
      count-zero_of_first (has_uuid k uuid) ts (
        subst (λ j. first (has_uuid j uuid) ts ≡ none) e
          (subst (λ n. first (has_uuid rt.debtor_id n) ts ≡ none) e' free))

  pub start-Keys :
      (rt : RunningTransfer)
      → transfer_row rt.debtor_id rt.transfer_uuid ts ≡ none
      → rt.coordinator_request_id ≡ pos next
      → Keys (next + 1) (ts ++ rt ∷ [])
  start-Keys rt free numbered = record {
    uuid_unique = λ k uuid. ground (
      arith,
      keys.uuid_unique k uuid,
      count-append (has_uuid k uuid) ts rt,
      taken_uuid rt free k uuid,
    );
    request_unique = λ k r. ground (
      arith,
      keys.request_unique k r,
      keys.unused k r,
      numbered,
      int_eq_iff rt.coordinator_request_id r,
      count-append (has_request_id k r) ts rt,
    );
    unused = λ k r. ground (
      arith,
      keys.unused k r,
      numbered,
      int_eq_iff rt.coordinator_request_id r,
      count-append (has_request_id k r) ts rt,
    );
  }

pub Change-Keys :
    {db db' : Database}
    → Change db db'
    → Keys db.next_coordinator_request_id db.running_transfers
    → Keys db'.next_coordinator_request_id db'.running_transfers
Change-Keys {db} (unchanged e n) keys = rw (e, n) keys
Change-Keys {db} (started rt fresh free numbered e n) keys =
    rw (e, n) (start-Keys db.next_coordinator_request_id db.running_transfers keys rt free numbered)
Change-Keys {db} (advanced query rt rt' found adv e n) keys =
    rw (e, n)
      (put-Keys db.next_coordinator_request_id db.running_transfers keys query rt rt' found
        (Advances-SameKeys adv))
Change-Keys {db} (deleted test e n) keys =
    rw (e, n) (delete-Keys db.next_coordinator_request_id db.running_transfers keys test)
