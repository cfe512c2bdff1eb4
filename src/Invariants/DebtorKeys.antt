-- ===== src/Invariants/DebtorKeys.antt =====
-- The primary key of the debtors: no transaction makes a second row of a debtor.
use swpt_debtors.Prelude.{
  ℕ, ◌≤◌, ◌≡◌, refl, sym, Bool, true, Option, none, some, List, [], ◌∷◌, ◌==◌, string_Eq, nat_Eq,
  int_Eq, int_eq_iff, ℤ, inl, inr, Bool-cases, Option-cases, count, update_rows, arith,
}
use mathlib.Core.Path.{subst}
use swpt_debtors.Prelude.UniqueRows.{count-delete-le}
use swpt_debtors.Models.{Database, Debtor, is_active}
use swpt_debtors.Store.{
  debtor_row, put_debtor, remove_debtor, uncount_transfer, transfer_row, count_uuid,
}
use swpt_debtors.Procedures.Debtors.{only_active}
use swpt_debtors.Procedures.Transfers.{
  TransferData, initiate_running_transfer, delete_running_transfer,
}
use swpt_debtors.Scanner.{delete_all, delete_debtor}
use swpt_debtors.System.{committed}
use swpt_debtors.Behaviour.Initiation.{
  charged, debtor_refusal, refusal, initiate_refused, initiate_found,
}
use swpt_debtors.Invariants.Edits.{write, edit}
use swpt_debtors.Invariants.Outcomes.{Edits}

abbrev pub has_id : ℤ → Debtor → Bool
has_id k d = d.debtor_id == k

abbrev pub Unique : List Debtor → Type 0
Unique ds = (k : ℤ) → count (has_id k) ds ≤ 1

-- No more rows of any debtor than before.
abbrev pub Fewer : List Debtor → List Debtor → Type 0
Fewer ds ds' = (k : ℤ) → count (has_id k) ds' ≤ count (has_id k) ds

pub update-Fewer :
    (p : Debtor → Bool) (f : Debtor → Debtor) (ds : List Debtor)
    → ((d : Debtor) → p d ≡ true → (f d).debtor_id ≡ d.debtor_id)
    → Fewer ds (update_rows p f ds)
unfolding count update_rows
update-Fewer p f [] keeps k = omega arith
update-Fewer p f (d ∷ ds) keeps k = elim (Bool-cases (p d)) [
  | inl e ↦ rw (e, keeps d e) (ground (arith, update-Fewer p f ds keeps k))
  | inr e ↦ rw e (ground (arith, update-Fewer p f ds keeps k))
]

pub put-Fewer : (d : Debtor) (ds : List Debtor) → Fewer ds (put_debtor d ds)
unfolding put_debtor
put-Fewer d ds =
    update-Fewer (λ x. x.debtor_id == d.debtor_id) (λ _. d) ds
      (λ x e. sym ((int_eq_iff x.debtor_id d.debtor_id).0 e))

edit-Fewer :
    (o : Option Debtor) (f : Debtor → Option Debtor) (ds : List Debtor) → Fewer ds (edit o f ds)
edit-Fewer none f ds = λ k. omega arith
edit-Fewer (some d) f ds = go (f d)
  where
    go : (o : Option Debtor) → Fewer ds (write o ds)
    go none = λ k. omega arith
    go (some d') = put-Fewer d' ds

-- The tables of debtors of two databases
abbrev pub Keeps : Database → Database → Type 0
Keeps db db' = Fewer db.debtors db'.debtors

pub same-Keeps : (db db' : Database) → db'.debtors ≡ db.debtors → Keeps db db'
same-Keeps db db' e k = rw e (omega arith)

pub Edits-Keeps :
    (j : ℤ) (f : Debtor → Option Debtor) (db db' : Database) → Edits j f db db' → Keeps db db'
Edits-Keeps j f db db' (rows, _) =
    subst (Fewer db.debtors) (sym rows) (edit-Fewer (debtor_row j db.debtors) f db.debtors)

pub initiate-Keeps :
    (k : ℤ) (uuid : ℕ) (t : TransferData) (limit : ℕ) (db : Database)
    → Keeps db (committed (initiate_running_transfer k uuid t limit db) db)
initiate-Keeps k uuid t limit db =
    let now = db.clock db.readings in
    let running = transfer_row k uuid db.running_transfers in
    elim (Option-cases (refusal running (only_active (debtor_row k db.debtors)) t limit now)) [
      | inr (e, refused) ↦ rw (initiate_refused k uuid t limit db e refused) (same-Keeps db db refl)
      | inl fits ↦ elim (Option-cases (debtor_row k db.debtors)) [
        | inl vacant ↦ absurd (ground (arith, fits, vacant))
        | inr (d, row) ↦
            let free : running ≡ none = ground (arith, fits) in
            let active : is_active d ≡ true = ground (arith, fits, row) in
            let within : debtor_refusal (some d) limit now ≡ none = ground (arith, fits, row) in
            subst (Fewer db.debtors)
              (sym (initiate_found k uuid t limit d db free row active within).2)
              (put-Fewer (charged now d) db.debtors)
      ]
    ]

pub delete-Keeps :
    (k : ℤ) (uuid : ℕ) (db : Database) → Keeps db (committed (delete_running_transfer k uuid db) db)
delete-Keeps k uuid db = elim (Bool-cases (count_uuid k uuid db.running_transfers == 1)) [
  | inl one ↦
      let rows : (committed (delete_running_transfer k uuid db) db).debtors
          ≡ uncount_transfer k db.debtors =
        unfold delete_running_transfer in ground (arith, one) in
      subst (Fewer db.debtors) (sym rows)
        (unfold uncount_transfer in update-Fewer (has_id k) _ db.debtors (λ d e. refl))
  | inr other ↦
      same-Keeps db (committed (delete_running_transfer k uuid db) db)
        (unfold delete_running_transfer in ground (arith, other))
]

pub delete_all-Keeps : (pks : List ℤ) (db : Database) → Keeps db (delete_all pks db)
unfolding delete_all delete_debtor remove_debtor
delete_all-Keeps [] db = same-Keeps db db refl
delete_all-Keeps (j ∷ js) db = λ k. omega (
  arith,
  delete_all-Keeps js (delete_debtor j db) k,
  count-delete-le (has_id k) (has_id j) db.debtors,
)
