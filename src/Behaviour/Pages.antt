-- ===== src/Behaviour/Pages.antt =====
-- Pages of a sorted list: what `LIMIT` and `pop` leave of it.
use swpt_debtors.Prelude.{
  ℕ, zero, suc, ◌+◌, ◌-◌, ◌≡◌, refl, ap, ◌∙◌, true, Option, none, some, List, [], ◌∷◌, ◌++◌, ℤ,
  leb_ℤ, ltb_ℤ, int_Eq, select_rows, arith, All,
}
use mathlib.Core.Path.{subst}
use swpt_debtors.Procedures.Listing.{limit_ids, length_ids, pop_id, split_page}
use swpt_debtors.Behaviour.Sorted.{Increasing, ltb_not_leb}

-- What comes after the first `n` elements
abbrev pub drop_ids : ℕ → List ℤ → List ℤ
drop_ids zero xs = xs
drop_ids (suc n) [] = []
drop_ids (suc n) (x ∷ xs) = drop_ids n xs

abbrev pub first_id : List ℤ → Option ℤ
first_id [] = none
first_id (x ∷ xs) = some x

limit_nil : (n : ℕ) → limit_ids n [] ≡ []
unfolding limit_ids
limit_nil zero = refl
limit_nil (suc n) = refl

drop_nil : (n : ℕ) → drop_ids n [] ≡ []
drop_nil zero = refl
drop_nil (suc n) = refl

split_suc :
    (n : ℕ) (xs : List ℤ)
    → split_page n (limit_ids (suc n) xs) ≡ (limit_ids n xs, first_id (drop_ids n xs))
unfolding split_page limit_ids length_ids pop_id
split_suc zero [] = refl
split_suc zero (x ∷ xs) = refl
split_suc (suc n) [] = ground arith
split_suc (suc n) (x ∷ []) = ground (arith, limit_nil n, drop_nil n)
split_suc (suc n) (x ∷ y ∷ ys) = ground (arith, split_suc n (y ∷ ys))

-- The page and the identifier that the next one starts from
pub split_page_lem :
    (n : ℕ) (xs : List ℤ)
    → split_page n (limit_ids (n + 1) xs) ≡ (limit_ids n xs, first_id (drop_ids n xs))
split_page_lem n xs =
    let e : n + 1 ≡ suc n = omega arith in
    ap (λ k. split_page n (limit_ids k xs)) e ∙ split_suc n xs

pub limit-drop : (n : ℕ) (xs : List ℤ) → limit_ids n xs ++ drop_ids n xs ≡ xs
unfolding limit_ids
limit-drop zero xs = refl
limit-drop (suc n) [] = refl
limit-drop (suc n) (x ∷ xs) = ap (◌∷◌ x) (limit-drop n xs)

pub length-drop : (n : ℕ) (xs : List ℤ) → length_ids (drop_ids n xs) ≡ length_ids xs - n
unfolding length_ids
length-drop zero xs = omega arith
length-drop (suc n) [] = omega arith
length-drop (suc n) (x ∷ xs) = omega (arith, length-drop n xs)

select_above :
    (k : ℤ) (xs : List ℤ) → All (λ y. ltb_ℤ k y ≡ true) xs → select_rows (leb_ℤ k) xs ≡ xs
unfolding select_rows
select_above k [] h = refl
select_above k (x ∷ xs) h =
    let le : leb_ℤ k x ≡ true = ground (arith, h.0) in rw le (ap (◌∷◌ x) (select_above k xs h.1))

pub All-drop :
    (P : ℤ → Type 0) (n : ℕ) (k : ℤ) (xs rest : List ℤ) → drop_ids n xs ≡ k ∷ rest → All P xs → P k
All-drop P zero k [] rest e h = absurd cc
All-drop P zero k (x ∷ xs) rest e h = let same : x ≡ k = cc in subst P same h.0
All-drop P (suc n) k [] rest e h = absurd cc
All-drop P (suc n) k (x ∷ xs) rest e h = All-drop P n k xs rest e h.1

select_here :
    (x : ℤ) (xs : List ℤ) → All (λ y. ltb_ℤ x y ≡ true) xs → select_rows (leb_ℤ x) (x ∷ xs) ≡ x ∷ xs
unfolding select_rows
select_here x xs h =
    let le : leb_ℤ x x ≡ true = ground arith in rw le (ap (◌∷◌ x) (select_above x xs h))

-- In an increasing list, the identifiers from one of them on are those that come after it.
pub select_from :
    (n : ℕ) (k : ℤ) (xs rest : List ℤ)
    → Increasing xs
    → drop_ids n xs ≡ k ∷ rest
    → select_rows (leb_ℤ k) xs ≡ k ∷ rest
unfolding select_rows
select_from zero k [] rest h e = cc
select_from zero k (x ∷ xs) rest h e =
    let same : x ≡ k = cc in
    subst (λ j. select_rows (leb_ℤ j) (x ∷ xs) ≡ k ∷ rest) same (select_here x xs h.0 ∙ e)
select_from (suc n) k [] rest h e = cc
select_from (suc n) k (x ∷ xs) rest h e =
    let below = ltb_not_leb x k (All-drop (λ y. ltb_ℤ x y ≡ true) n k xs rest e h.0) in
    rw below (select_from n k xs rest h.1 e)
