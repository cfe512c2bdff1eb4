-- ===== src/Behaviour/Enumeration.antt =====
-- The enumeration of the active debtors: following the pages of `get_debtor_ids`.
use swpt_debtors.Prelude.{
  ℕ, zero, suc, ◌+◌, ◌≤◌, leb, ◌≡◌, refl, sym, ap, ◌∙◌, true, Option, none, some, List, [], ◌∷◌,
  ◌++◌, ℤ, leb_ℤ, inl, inr, select_rows, count, int_Eq, ◌==◌, Bool-cases, arith, if◌then◌else◌,
}
use mathlib.Core.Path.{subst}
use swpt_debtors.Models.{Database}
use swpt_debtors.Procedures.Monad.{Result, ok, err}
use swpt_debtors.Procedures.Listing.{
  insert_id, sort_ids, limit_ids, length_ids, active_ids, get_debtor_ids,
}
use swpt_debtors.Behaviour.Sorted.{
  DistinctIds, Increasing, sort-Increasing, sort_select, select-Increasing, select_select,
  select-count, sort-count, All-selected,
}
use swpt_debtors.Behaviour.Pages.{
  drop_ids, first_id, split_page_lem, limit-drop, length-drop, select_from, All-drop,
}

abbrev pub with_next : List ℤ → Option ℤ → (ℤ → List ℤ) → List ℤ
with_next items none rest = items
with_next items (some next) rest = items ++ rest next

abbrev pub follow : Result (List ℤ × Option ℤ) → (ℤ → List ℤ) → List ℤ
follow (err _) rest = []
follow (ok page _) rest = with_next page.0 page.1 rest

-- A client that follows the links to the next pages; `fuel` bounds their number.
unfoldable pub enumerate : ℕ → ℤ → ℕ → Database → List ℤ
enumerate zero start_from page_size db = []
enumerate (suc fuel) start_from page_size db =
    follow (get_debtor_ids start_from page_size db) (λ next. enumerate fuel next page_size db)

-- The identifiers of the active debtors from `start_from` on, in increasing order
abbrev pub all_from : ℤ → Database → List ℤ
all_from start_from db = select_rows (leb_ℤ start_from) (sort_ids (active_ids db))

pub page_of :
    (start_from : ℤ) (page_size : ℕ) (db : Database)
    → 1 ≤ page_size
    → let ids = all_from start_from db in
      get_debtor_ids start_from page_size db
      ≡ ok (limit_ids page_size ids, first_id (drop_ids page_size ids)) db
unfolding get_debtor_ids
page_of start_from page_size db h =
    let positive : leb 1 page_size ≡ true = ground arith in
    rw
      (
        positive,
        sort_select start_from (active_ids db),
        split_page_lem page_size (all_from start_from db),
      )
      refl

next_page :
    (start_from : ℤ) (page_size : ℕ) (k : ℤ) (rest : List ℤ) (db : Database)
    → DistinctIds (active_ids db)
    → drop_ids page_size (all_from start_from db) ≡ k ∷ rest
    → all_from k db ≡ k ∷ rest
next_page start_from page_size k rest db distinct e =
    let sorted = sort_ids (active_ids db) in
    let increasing =
      select-Increasing start_from sorted (sort-Increasing (active_ids db) distinct) in
    let later =
      All-drop (λ y. leb_ℤ start_from y ≡ true) page_size k (all_from start_from db) rest e
        (All-selected start_from sorted) in
    sym (select_select start_from k sorted later)
    ∙ select_from page_size k (all_from start_from db) rest increasing e

append_nil : (xs : List ℤ) → xs ++ [] ≡ xs
append_nil [] = refl
append_nil (x ∷ xs) = ap (◌∷◌ x) (append_nil xs)

shorter :
    (n : ℕ) (xs : List ℤ) (k : ℤ) (rest : List ℤ)
    → drop_ids n xs ≡ k ∷ rest
    → length_ids (k ∷ rest) + n ≡ length_ids xs
unfolding length_ids
shorter n xs k rest e = omega (arith, ap length_ids e, length-drop n xs)

length-insert : (x : ℤ) (ys : List ℤ) → length_ids (insert_id x ys) ≡ length_ids ys + 1
unfolding insert_id length_ids
length-insert x [] = omega arith
length-insert x (y ∷ ys) = elim (Bool-cases (leb_ℤ x y)) [
  | inl e ↦ rw e (omega arith)
  | inr e ↦ rw e (omega (arith, length-insert x ys))
]

length-sort : (xs : List ℤ) → length_ids (sort_ids xs) ≡ length_ids xs
unfolding sort_ids length_ids
length-sort [] = refl
length-sort (x ∷ xs) = omega (arith, length-insert x (sort_ids xs), length-sort xs)

length-select : (a : ℤ) (xs : List ℤ) → length_ids (select_rows (leb_ℤ a) xs) ≤ length_ids xs
unfolding select_rows length_ids
length-select a [] = omega arith
length-select a (x ∷ xs) = elim (Bool-cases (leb_ℤ a x)) [
  | inl e ↦ rw e (omega (arith, length-select a xs))
  | inr e ↦ rw e (omega (arith, length-select a xs))
]

module _ (start_from : ℤ) (page_size : ℕ) (db : Database) where
  follow_page :
      (next_ids : ℤ → List ℤ) (rest : List ℤ)
      → drop_ids page_size (all_from start_from db) ≡ rest
      → ((k : ℤ) (later : List ℤ) → rest ≡ k ∷ later → next_ids k ≡ k ∷ later)
      → with_next
          (limit_ids page_size (all_from start_from db))
          (first_id (drop_ids page_size (all_from start_from db)))
          next_ids
        ≡ all_from start_from db
  follow_page next_ids [] e continued =
      let ids = all_from start_from db in
      rw e (
        sym (append_nil (limit_ids page_size ids))
        ∙ ap (λ xs. limit_ids page_size ids ++ xs) (sym e)
        ∙ limit-drop page_size ids)
  follow_page next_ids (k ∷ rest) e continued =
      let ids = all_from start_from db in
      rw e (
        ap (λ xs. limit_ids page_size ids ++ xs) (continued k rest refl ∙ sym e)
        ∙ limit-drop page_size ids)

pub enumerate_complete :
    (fuel : ℕ) (start_from : ℤ) (page_size : ℕ) (db : Database)
    → 1 ≤ page_size
    → DistinctIds (active_ids db)
    → length_ids (all_from start_from db) + 1 ≤ fuel
    → enumerate fuel start_from page_size db ≡ all_from start_from db
unfolding enumerate
enumerate_complete zero start_from page_size db h distinct enough = absurd (omega arith)
enumerate_complete (suc fuel) start_from page_size db h distinct enough =
    ap (λ r. follow r (λ next. enumerate fuel next page_size db))
      (page_of start_from page_size db h)
    ∙ follow_page start_from page_size db (λ next. enumerate fuel next page_size db)
        (drop_ids page_size (all_from start_from db)) refl
        (λ k later e.
          let from_k = next_page start_from page_size k later db distinct e in
          let fewer : length_ids (all_from k db) + 1 ≤ fuel = omega (
            arith,
            enough,
            h,
            shorter page_size (all_from start_from db) k later e,
            ap length_ids from_k,
          ) in
          enumerate_complete fuel k page_size db h distinct fewer ∙ from_k)

pub enough_pages :
    (fuel : ℕ) (start_from : ℤ) (db : Database)
    → length_ids (active_ids db) + 1 ≤ fuel
    → length_ids (all_from start_from db) + 1 ≤ fuel
enough_pages fuel start_from db enough = omega (
  arith,
  enough,
  length-select start_from (sort_ids (active_ids db)),
  length-sort (active_ids db),
)

-- The identifiers of the active debtors are distinct. Then a client that follows the links to the
-- next pages gets, in increasing order, each active debtor's identifier from `start_from` on as often
-- as it occurs, and no other; it needs at most one page more than there are active debtors.
pub enumerate_all :
    (fuel : ℕ) (start_from : ℤ) (page_size : ℕ) (db : Database)
    → 1 ≤ page_size
    → DistinctIds (active_ids db)
    → length_ids (active_ids db) + 1 ≤ fuel
    → Increasing (enumerate fuel start_from page_size db)
      × ((k : ℤ)
          → count (λ y. y == k) (enumerate fuel start_from page_size db)
            ≡ (if leb_ℤ start_from k then count (λ y. y == k) (active_ids db) else 0))
enumerate_all fuel start_from page_size db h distinct enough =
    let ids = active_ids db in
    let sorted = sort_ids ids in
    let all =
      enumerate_complete fuel start_from page_size db h distinct
        (enough_pages fuel start_from db enough) in
    (
      subst Increasing (sym all)
          (select-Increasing start_from sorted (sort-Increasing ids distinct)),
      λ k.
          ap (count (λ y. y == k)) all
          ∙ select-count start_from k sorted
          ∙ ap (λ n. if leb_ℤ start_from k then n else 0) (sort-count k ids),
    )
