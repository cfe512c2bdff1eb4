-- ===== src/Prelude/Rows.antt =====
-- A table as the list of its rows, in the order of insertion, and what a query does to it:
-- `first` is `one_or_none`, `update_rows` and `delete_rows` are the bulk statements, `count` the
-- number of rows that they touch. An insertion is `rows ++ row ∷ []`.
use Prim.Native.Nat.{ℕ, suc, ◌+◌, ◌≤◌}
use mathlib.Core.Path.{◌≡◌, refl, subst}
use mathlib.Core.Bool.{Bool, true, false, ◌&&◌}
use mathlib.Core.Option
use mathlib.Core.Option.{Option, none, some}
use mathlib.Core.Logic.{inl, inr}
use mathlib.Core.List.{List, [], ◌∷◌, ◌++◌}
use native.Mathlib.Omega.{arith}
use swpt_debtors.Prelude.Tests.{if◌then◌else◌, Bool-cases}

module _ {ℓ} {A : Type ℓ} where
  unfoldable pub first : (A → Bool) → List A → Option A
  first p [] = none
  first p (x ∷ xs) = if p x then some x else first p xs

  unfoldable pub update_rows : (A → Bool) → (A → A) → List A → List A
  update_rows p f [] = []
  update_rows p f (x ∷ xs) = (if p x then f x else x) ∷ update_rows p f xs

  unfoldable pub delete_rows : (A → Bool) → List A → List A
  delete_rows p [] = []
  delete_rows p (x ∷ xs) = let rest = delete_rows p xs in if p x then rest else x ∷ rest

  unfoldable pub select_rows : (A → Bool) → List A → List A
  select_rows p [] = []
  select_rows p (x ∷ xs) = let rest = select_rows p xs in if p x then x ∷ rest else rest

  unfoldable pub count : (A → Bool) → List A → ℕ
  count p [] = 0
  count p (x ∷ xs) = let rest = count p xs in if p x then suc rest else rest

  abbrev pub or_else : Option A → Option A → Option A
  or_else none o = o
  or_else (some a) _ = some a

  abbrev pub All {κ} : (A → Type κ) → List A → Type κ
  All P [] = Unit
  All P (x ∷ xs) = P x × All P xs

  pub first-append :
      (p : A → Bool) (xs : List A) (y : A)
      → first p (xs ++ y ∷ []) ≡ or_else (first p xs) (if p y then some y else none)
  unfolding first
  first-append p [] y = refl
  first-append p (x ∷ xs) y = ground (arith, first-append p xs y)

  -- A row that is updated keeps what the query `q` looks at.
  pub first-update_rows :
      (q p : A → Bool) (f : A → A) (xs : List A)
      → ((x : A) → p x ≡ true → q (f x) ≡ q x)
      → first q (update_rows p f xs) ≡ Option.map (λ x. if p x then f x else x) (first q xs)
  unfolding first update_rows
  first-update_rows q p f [] keeps = refl
  first-update_rows q p f (x ∷ xs) keeps = ground (arith, keeps x, first-update_rows q p f xs keeps)

  pub count-append :
      (p : A → Bool) (xs : List A) (y : A)
      → count p (xs ++ y ∷ []) ≡ count p xs + (if p y then 1 else 0)
  unfolding count
  count-append p [] y = ground arith
  count-append p (x ∷ xs) y = ground (arith, count-append p xs y)

  pub count-update_rows :
      (q p : A → Bool) (f : A → A) (xs : List A)
      → ((x : A) → p x ≡ true → q (f x) ≡ q x)
      → count q (update_rows p f xs) ≡ count q xs
  unfolding count update_rows
  count-update_rows q p f [] keeps = refl
  count-update_rows q p f (x ∷ xs) keeps = ground (arith, keeps x, count-update_rows q p f xs keeps)

  pub count-delete_rows :
      (q p : A → Bool) (xs : List A)
      → count q (delete_rows p xs) + count (λ x. p x && q x) xs ≡ count q xs
  unfolding count delete_rows
  count-delete_rows q p [] = omega arith
  count-delete_rows q p (x ∷ xs) = ground (arith, count-delete_rows q p xs)

  -- A query that no deleted row answers finds what it found before.
  pub first-delete_rows_other :
      (q p : A → Bool) (xs : List A)
      → ((x : A) → p x ≡ true → q x ≡ false)
      → first q (delete_rows p xs) ≡ first q xs
  unfolding first delete_rows
  first-delete_rows_other q p [] apart = refl
  first-delete_rows_other q p (x ∷ xs) apart =
      ground (arith, apart x, first-delete_rows_other q p xs apart)

  -- A query whose answers are all deleted finds nothing.
  pub first-delete_rows_self :
      (q p : A → Bool) (xs : List A)
      → ((x : A) → q x ≡ true → p x ≡ true)
      → first q (delete_rows p xs) ≡ none
  unfolding first delete_rows
  first-delete_rows_self q p [] within = refl
  first-delete_rows_self q p (x ∷ xs) within =
      ground (arith, within x, first-delete_rows_self q p xs within)

  pub first-true : (p : A → Bool) (xs : List A) (y : A) → first p xs ≡ some y → p y ≡ true
  unfolding first
  first-true p [] y h = cc
  first-true p (x ∷ xs) y h = ground (arith, first-true p xs y)

  -- A row that `first` finds is counted.
  pub count-pos_of_first :
      (p : A → Bool) (xs : List A) (y : A) → first p xs ≡ some y → 1 ≤ count p xs
  unfolding first count
  count-pos_of_first p [] y h = cc
  count-pos_of_first p (x ∷ xs) y h = ground (arith, count-pos_of_first p xs y)

  pub count-zero_of_first : (p : A → Bool) (xs : List A) → first p xs ≡ none → count p xs ≡ 0
  unfolding first count
  count-zero_of_first p [] h = refl
  count-zero_of_first p (x ∷ xs) h = ground (arith, count-zero_of_first p xs)

  pub count-le_of_imp :
      (p q : A → Bool) (xs : List A) → ((x : A) → p x ≡ true → q x ≡ true) → count p xs ≤ count q xs
  unfolding count
  count-le_of_imp p q [] within = omega arith
  count-le_of_imp p q (x ∷ xs) within = ground (arith, within x, count-le_of_imp p q xs within)

  pub count-eq_of_iff :
      (p q : A → Bool) (xs : List A) → ((x : A) → p x ≡ q x) → count p xs ≡ count q xs
  unfolding count
  count-eq_of_iff p q [] same = refl
  count-eq_of_iff p q (x ∷ xs) same = ground (arith, same x, count-eq_of_iff p q xs same)

module _ {ℓ κ} {A : Type ℓ} (P : A → Type κ) where
  pub All-append : (xs : List A) (y : A) → All P xs → P y → All P (xs ++ y ∷ [])
  All-append [] y h hy = (hy, tt)
  All-append (x ∷ xs) y h hy = (h.0, All-append xs y h.1 hy)

  pub All-first : (p : A → Bool) (xs : List A) (y : A) → All P xs → first p xs ≡ some y → P y
  unfolding first
  All-first p [] y h e = cc
  All-first p (x ∷ xs) y h e = elim (Bool-cases (p x)) [
    | inl t ↦ let same : x ≡ y = ground arith in subst P same h.0
    | inr t ↦ All-first p xs y h.1 (rw t at e)
  ]

  pub All-update_rows :
      (p : A → Bool) (f : A → A) (xs : List A)
      → All P xs
      → ((x : A) → p x ≡ true → P x → P (f x))
      → All P (update_rows p f xs)
  unfolding update_rows
  All-update_rows p f [] h keeps = tt
  All-update_rows p f (x ∷ xs) h keeps = elim (Bool-cases (p x)) [
    | inl t ↦ rw t (keeps x t h.0, All-update_rows p f xs h.1 keeps)
    | inr t ↦ rw t (h.0, All-update_rows p f xs h.1 keeps)
  ]

  pub All-delete_rows : (p : A → Bool) (xs : List A) → All P xs → All P (delete_rows p xs)
  unfolding delete_rows
  All-delete_rows p [] h = tt
  All-delete_rows p (x ∷ xs) h = elim (Bool-cases (p x)) [
    | inl t ↦ rw t (All-delete_rows p xs h.1)
    | inr t ↦ rw t (h.0, All-delete_rows p xs h.1)
  ]

module _ {ℓ κ μ} {A : Type ℓ} (P : A → Type κ) (Q : A → Type μ) where
  pub All-imp : (xs : List A) → All P xs → ((x : A) → P x → Q x) → All Q xs
  All-imp [] h f = tt
  All-imp (x ∷ xs) h f = (f x h.0, All-imp xs h.1 f)
