-- ===== src/Prelude/UniqueRows.antt =====
-- Tables where a key is unique: what a write or a deletion of one row does to other queries.
use Prim.Native.Nat.{◌≤◌}
use mathlib.Core.Path.{◌≡◌, refl, ap}
use mathlib.Core.Bool.{Bool, true, false, ◌||◌}
use mathlib.Core.Option.{none, some}
use mathlib.Core.Logic.{◌⊎◌, inl}
use mathlib.Core.List.{List, [], ◌∷◌}
use native.Mathlib.Omega.{arith}
use swpt_debtors.Prelude.Tests.{if◌then◌else◌}
use swpt_debtors.Prelude.Rows.{first, update_rows, delete_rows, count, count-delete_rows}

module _ {ℓ} {A : Type ℓ} where
  pub first-counted :
      (q p : A → Bool) (xs : List A) (x : A) → first q xs ≡ some x → p x ≡ true → 1 ≤ count p xs
  unfolding first count
  first-counted q p [] x h e = cc
  first-counted q p (y ∷ ys) x h e = ground (arith, first-counted q p ys x)

  pub first-none_of_count : (q : A → Bool) (xs : List A) → count q xs ≡ 0 → first q xs ≡ none
  unfolding first count
  first-none_of_count q [] h = refl
  first-none_of_count q (y ∷ ys) h = ground (arith, first-none_of_count q ys)

  -- Where the query `q'` has one row, another query that finds it finds the same row.
  pub first_unique :
      (q' q : A → Bool) (xs : List A) (x : A)
      → first q xs ≡ some x
      → q' x ≡ true
      → count q' xs ≤ 1
      → first q' xs ≡ some x
  unfolding first count
  first_unique q' q [] x h mine once = cc
  first_unique q' q (y ∷ ys) x h mine once =
      ground (arith, first_unique q' q ys x, first-counted q q' ys x)

  update-absent :
      (p : A → Bool) (f : A → A) (xs : List A) → count p xs ≡ 0 → update_rows p f xs ≡ xs
  unfolding update_rows count
  update-absent p f [] h = refl
  update-absent p f (y ∷ ys) h = ground (arith, update-absent p f ys)

  -- A row that the query `q` finds is replaced by `y`, which `q'` does not tell from it.
  module _ (q' q p : A → Bool) (x y : A) (mine : p x ≡ true) (same : q' y ≡ q' x) where
    pub count-update_one :
        (xs : List A)
        → first q xs ≡ some x
        → count p xs ≤ 1
        → count q' (update_rows p (λ _. y) xs) ≡ count q' xs
    unfolding first update_rows count
    count-update_one [] h once = cc
    count-update_one (z ∷ zs) h once = ground (
      arith,
      mine,
      same,
      count-update_one zs,
      update-absent p (λ _. y) zs,
      first-counted q p zs x,
    )

    pub first-update_one :
        (xs : List A)
        → first q xs ≡ some x
        → count p xs ≤ 1
        → count q' xs ≤ 1
        → first q' (update_rows p (λ _. y) xs) ≡ (if q' x then some y else first q' xs)
    unfolding first update_rows count
    first-update_one [] h once once' = cc
    first-update_one (z ∷ zs) h once once' = ground (
      arith,
      mine,
      same,
      first-update_one zs,
      update-absent p (λ _. y) zs,
      first-counted q p zs x,
      first-counted q q' zs x,
    )

  pub count-delete-le : (q p : A → Bool) (xs : List A) → count q (delete_rows p xs) ≤ count q xs
  count-delete-le q p xs = omega (arith, count-delete_rows q p xs)

  pub first-delete_one :
      (q p : A → Bool) (xs : List A)
      → count q xs ≤ 1
      → (first q (delete_rows p xs) ≡ none) ⊎ (first q (delete_rows p xs) ≡ first q xs)
  unfolding first count delete_rows
  first-delete_one q p [] once = inl refl
  first-delete_one q p (y ∷ ys) once = ground (
    arith,
    first-delete_one q p ys,
    first-none_of_count q (delete_rows p ys),
    count-delete-le q p ys,
  )

  pub delete-twice :
      (p q : A → Bool) (xs : List A)
      → delete_rows p (delete_rows q xs) ≡ delete_rows (λ x. q x || p x) xs
  unfolding delete_rows
  delete-twice p q [] = refl
  delete-twice p q (y ∷ ys) = ground (arith, delete-twice p q ys)

  pub delete-none : (xs : List A) → delete_rows (λ _. false) xs ≡ xs
  unfolding delete_rows
  delete-none [] = refl
  delete-none (y ∷ ys) = ap (◌∷◌ y) (delete-none ys)
