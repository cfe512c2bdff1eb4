-- ===== src/Procedures/Listing.antt =====
-- `get_debtor_ids`: a page of the identifiers of the active debtors.
use swpt_debtors.Prelude.{
  ℕ, zero, suc, ◌+◌, ltb, leb, Option, none, some, List, [], ◌∷◌, map, ℤ, leb_ℤ, select_rows,
  if◌then◌else◌,
}
use swpt_debtors.Models.{Database, is_active}
use swpt_debtors.Procedures.Monad.{Procedure, pure, query, assert_that, ◌>>=◌, ◌>>◌}

-- ORDER BY debtor_id
unfoldable pub insert_id : ℤ → List ℤ → List ℤ
insert_id x [] = x ∷ []
insert_id x (y ∷ ys) = let rest = insert_id x ys in if leb_ℤ x y then x ∷ y ∷ ys else y ∷ rest

unfoldable pub sort_ids : List ℤ → List ℤ
sort_ids [] = []
sort_ids (x ∷ xs) = insert_id x (sort_ids xs)

-- LIMIT n
unfoldable pub limit_ids : ℕ → List ℤ → List ℤ
limit_ids zero xs = []
limit_ids (suc n) [] = []
limit_ids (suc n) (x ∷ xs) = x ∷ limit_ids n xs

unfoldable pub length_ids : List ℤ → ℕ
length_ids [] = 0
length_ids (x ∷ xs) = suc (length_ids xs)

-- `list.pop()`: what remains, and the last element
unfoldable pub pop_id : List ℤ → List ℤ × Option ℤ
pop_id [] = ([], none)
pop_id (x ∷ xs) = elim xs [
  | [] ↦ ([], some x)
  | y ∷ ys ↦ (let rest = pop_id xs in (x ∷ rest.0, rest.1))
]

-- The identifiers of the active debtors.
abbrev pub active_ids : Database → List ℤ
active_ids db = map (λ d. d.debtor_id) (select_rows is_active db.debtors)

unfoldable pub split_page : ℕ → List ℤ → List ℤ × Option ℤ
unfolding length_ids pop_id
split_page count debtor_ids =
    if ltb count (length_ids debtor_ids) then pop_id debtor_ids else (debtor_ids, none)

unfoldable pub get_debtor_ids : ℤ → ℕ → Procedure (List ℤ × Option ℤ)
unfolding sort_ids limit_ids split_page
get_debtor_ids start_from count = do
  assert_that (leb 1 count)
  debtor_ids ←
      query
        (λ db. limit_ids (count + 1) (sort_ids (select_rows (leb_ℤ start_from) (active_ids db))))
  pure (split_page count debtor_ids)
