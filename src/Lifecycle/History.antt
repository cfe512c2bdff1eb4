-- ===== src/Lifecycle/History.antt =====
-- What becomes of a transfer: the row of a request identifier that has been given, over any runs.
use swpt_debtors.Prelude.{
  ℕ, ◌≡◌, refl, sym, ap, ◌∙◌, Bool, true, false, Option, none, some, List, [], ◌∷◌, ◌++◌, nat_Eq,
  int_Eq, int_eq_iff, ℤ, pos, negsuc, ◌⊎◌, inl, inr, Bool-cases, Option-cases, first, delete_rows,
  first-append, arith,
}
use mathlib.Core.Path.{subst}
use swpt_debtors.Prelude.UniqueRows.{first-update_one, first-delete_one, first_unique}
use swpt_debtors.Models.{Database, RunningTransfer, is_finalized}
use swpt_debtors.Store.{request_row, put_transfer, has_uuid, has_request_id}
use swpt_debtors.Lifecycle.Changes.{
  Advances, stays, settles, finalizes, Change, unchanged, started, advanced, deleted,
}
use swpt_debtors.Lifecycle.Keys.{
  Keys, is_used, Advances-SameKeys, has_uuid_self, has_request_id-same,
}

-- What a transfer keeps as long as its row exists.
pub record Keeps (rt rt' : RunningTransfer) : Type 0 where
  pub same_terms : rt' ≡ record rt {
    transfer_id = rt'.transfer_id;
    finalized_at = rt'.finalized_at;
    error_code = rt'.error_code;
    total_locked_amount = rt'.total_locked_amount;
  }
  pub taken : (rt.transfer_id ≡ none) ⊎ (rt'.transfer_id ≡ rt.transfer_id)
  pub final : (is_finalized rt ≡ false) ⊎ (rt' ≡ rt)

-- The row of a request identifier and its row later.
pub data Survives : Option RunningTransfer → Option RunningTransfer → Type 0 where
  gone : {o : Option RunningTransfer} → Survives o none
  kept : {rt rt' : RunningTransfer} → Keeps rt rt' → Survives (some rt) (some rt')

pub Keeps-refl : (rt : RunningTransfer) → Keeps rt rt
Keeps-refl rt = record { same_terms = refl; taken = inr refl; final = inr refl }

-- The outcome of one transfer, given to another.
abbrev with_outcome : RunningTransfer → RunningTransfer → RunningTransfer
with_outcome c x = record x {
  transfer_id = c.transfer_id;
  finalized_at = c.finalized_at;
  error_code = c.error_code;
  total_locked_amount = c.total_locked_amount;
}

module _ (a b c : RunningTransfer) where
  taken_twice :
      (a.transfer_id ≡ none) ⊎ (b.transfer_id ≡ a.transfer_id)
      → (b.transfer_id ≡ none) ⊎ (c.transfer_id ≡ b.transfer_id)
      → (a.transfer_id ≡ none) ⊎ (c.transfer_id ≡ a.transfer_id)
  taken_twice (inl e) h = inl e
  taken_twice (inr e) (inl e') = inl (sym e ∙ e')
  taken_twice (inr e) (inr e') = inr (e' ∙ e)

  final_twice :
      (is_finalized a ≡ false) ⊎ (b ≡ a)
      → (is_finalized b ≡ false) ⊎ (c ≡ b)
      → (is_finalized a ≡ false) ⊎ (c ≡ a)
  final_twice (inl e) h = inl e
  final_twice (inr e) (inl e') = inl (sym (ap is_finalized e) ∙ e')
  final_twice (inr e) (inr e') = inr (e' ∙ e)

Keeps-trans : {a b c : RunningTransfer} → Keeps a b → Keeps b c → Keeps a c
Keeps-trans {a} {b} {c} h h' = record {
  same_terms = h'.same_terms ∙ ap (with_outcome c) h.same_terms;
  taken = taken_twice a b c h.taken h'.taken;
  final = final_twice a b c h.final h'.final;
}

pub Survives-refl : (o : Option RunningTransfer) → Survives o o
Survives-refl none = gone
Survives-refl (some rt) = kept (Keeps-refl rt)

pub Survives-trans : {a b c : Option RunningTransfer} → Survives a b → Survives b c → Survives a c
Survives-trans h gone = gone
Survives-trans (kept h) (kept h') = kept (Keeps-trans h h')

Advances-Keeps : {rt rt' : RunningTransfer} → Advances rt rt' → Keeps rt rt'
Advances-Keeps {rt} (stays e) = subst (Keeps rt) (sym e) (Keeps-refl rt)
Advances-Keeps {rt} (settles t idle untaken e) =
    subst (Keeps rt) (sym e) (record { same_terms = refl; taken = inl untaken; final = inl idle })
Advances-Keeps {rt} (finalizes ts c l idle e) =
    subst (Keeps rt) (sym e) (record { same_terms = refl; taken = inr refl; final = inl idle })

module _ (next : ℕ) (ts : List RunningTransfer) (keys : Keys next ts) (k r : ℤ) where
  put-Survives :
      (query : RunningTransfer → Bool) (rt rt' : RunningTransfer)
      → first query ts ≡ some rt
      → Advances rt rt'
      → Survives (request_row k r ts) (request_row k r (put_transfer rt' ts))
  unfolding request_row put_transfer
  put-Survives query rt rt' found adv =
      let same = Advances-SameKeys adv in
      let row =
        first-update_one (has_request_id k r) query (has_uuid rt'.debtor_id rt'.transfer_uuid) rt
          rt' (has_uuid_self same) (has_request_id-same same k r) ts found
          (keys.uuid_unique rt'.debtor_id rt'.transfer_uuid) (keys.request_unique k r) in
      elim (Bool-cases (has_request_id k r rt)) [
        | inl mine ↦
            subst (λ o. Survives o (request_row k r (put_transfer rt' ts)))
              (sym (
                first_unique (has_request_id k r) query ts rt found mine (keys.request_unique k r)))
              (subst (Survives (some rt)) (sym (row ∙ rw mine refl)) (kept (Advances-Keeps adv)))
        | inr other ↦
            subst (Survives (request_row k r ts)) (sym (row ∙ rw other refl))
              (Survives-refl (request_row k r ts))
      ]

  delete-Survives :
      (test : RunningTransfer → Bool)
      → Survives (request_row k r ts) (request_row k r (delete_rows test ts))
  unfolding request_row
  delete-Survives test =
      elim (first-delete_one (has_request_id k r) test ts (keys.request_unique k r)) [
        | inl away ↦ subst (Survives (request_row k r ts)) (sym away) gone
        | inr left ↦
            subst (Survives (request_row k r ts)) (sym left) (Survives-refl (request_row k r ts))
      ]

  start-Survives :
      (rt : RunningTransfer)
      → is_used next r ≡ true
      → rt.coordinator_request_id ≡ pos next
      → request_row k r (ts ++ rt ∷ []) ≡ request_row k r ts
  unfolding request_row
  start-Survives rt used numbered =
      let fresh : has_request_id k r rt ≡ false =
        ground (arith, used, numbered, int_eq_iff rt.coordinator_request_id r) in
      first-append (has_request_id k r) ts rt
      ∙ elim (Option-cases (first (has_request_id k r) ts)) [
        | inl vacant ↦ rw (vacant, fresh) refl
        | inr (rt', row) ↦ rw row refl
      ]

-- The identifiers that have been given stay given.
pub Change-used :
    {db db' : Database}
    → Change db db'
    → (r : ℤ) → is_used db.next_coordinator_request_id r ≡ true
    → is_used db'.next_coordinator_request_id r ≡ true
Change-used (unchanged e n) r used = rw n used
Change-used (started rt fresh free numbered e n) (pos j) used = ground (arith, n, used)
Change-used (started rt fresh free numbered e n) (negsuc j) used = cc
Change-used (advanced query rt rt' found adv e n) r used = rw n used
Change-used (deleted test e n) r used = rw n used

pub Change-Survives :
    {db db' : Database}
    → Change db db'
    → (k r : ℤ) → Keys db.next_coordinator_request_id db.running_transfers
    → is_used db.next_coordinator_request_id r ≡ true
    → Survives (request_row k r db.running_transfers) (request_row k r db'.running_transfers)
Change-Survives {db} (unchanged e n) k r keys used =
    rw e (Survives-refl (request_row k r db.running_transfers))
Change-Survives {db} (started rt fresh free numbered e n) k r keys used =
    rw
      (
        e,
        start-Survives db.next_coordinator_request_id db.running_transfers keys k r rt used
            numbered,
      )
      (Survives-refl (request_row k r db.running_transfers))
Change-Survives {db} (advanced query rt rt' found adv e n) k r keys used = rw e (
    put-Survives db.next_coordinator_request_id db.running_transfers keys k r query rt rt' found
      adv)
Change-Survives {db} (deleted test e n) k r keys used =
    rw e (delete-Survives db.next_coordinator_request_id db.running_transfers keys k r test)
