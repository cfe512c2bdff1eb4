-- ===== src/Behaviour/Sorted.antt =====
-- Sorted lists of identifiers, and what the ORDER BY, WHERE and LIMIT of a query do to them.
use swpt_debtors.Prelude.{
  ◌≡◌, refl, sym, ap, ◌∙◌, true, false, List, [], ◌∷◌, ℤ, pos, negsuc, leb_ℤ, ltb_ℤ, int_eq,
  int_eq_iff, int_Eq, ◌==◌, inl, inr, Bool-cases, select_rows, count, arith, All, if◌then◌else◌,
}
use swpt_debtors.Procedures.Listing.{insert_id, sort_ids}

-- The order, by its tests
pub leb_trans : (a b c : ℤ) → leb_ℤ a b ≡ true → leb_ℤ b c ≡ true → leb_ℤ a c ≡ true
leb_trans a b c h h' = ground arith

pub ltb_trans : (a b c : ℤ) → ltb_ℤ a b ≡ true → leb_ℤ b c ≡ true → ltb_ℤ a c ≡ true
ltb_trans a b c h h' = ground arith

pub ltb_not_leb : (a b : ℤ) → ltb_ℤ a b ≡ true → leb_ℤ b a ≡ false
ltb_not_leb a b h = ground arith

pub not_leb_ltb : (a b : ℤ) → leb_ℤ a b ≡ false → ltb_ℤ b a ≡ true
not_leb_ltb a b h = ground arith

leb_or_eq : (a b : ℤ) → leb_ℤ a b ≡ true → int_eq a b ≡ false → ltb_ℤ a b ≡ true
unfolding int_eq
leb_or_eq (pos a) (pos b) h e = ground arith
leb_or_eq (pos a) (negsuc b) h e = ground arith
leb_or_eq (negsuc a) (pos b) h e = ground arith
leb_or_eq (negsuc a) (negsuc b) h e = ground arith

-- Strictly increasing
abbrev pub Increasing : List ℤ → Type 0
Increasing [] = Unit {0}
Increasing (x ∷ xs) = All (λ y. ltb_ℤ x y ≡ true) xs × Increasing xs

abbrev pub DistinctIds : List ℤ → Type 0
DistinctIds [] = Unit {0}
DistinctIds (x ∷ xs) = All (λ y. int_eq x y ≡ false) xs × DistinctIds xs

module _ (P : ℤ → Type 0) where
  All-insert : (x : ℤ) (ys : List ℤ) → P x → All P ys → All P (insert_id x ys)
  unfolding insert_id
  All-insert x [] px h = (px, tt)
  All-insert x (y ∷ ys) px h = elim (Bool-cases (leb_ℤ x y)) [
    | inl e ↦ rw e (px, h)
    | inr e ↦ rw e (h.0, All-insert x ys px h.1)
  ]

  pub All-sort : (xs : List ℤ) → All P xs → All P (sort_ids xs)
  unfolding sort_ids
  All-sort [] h = tt
  All-sort (x ∷ xs) h = All-insert x (sort_ids xs) h.0 (All-sort xs h.1)

pub All-weaken : {P Q : ℤ → Type 0} (xs : List ℤ) → ((y : ℤ) → P y → Q y) → All P xs → All Q xs
All-weaken [] f h = tt
All-weaken (x ∷ xs) f h = (f x h.0, All-weaken xs f h.1)

insert-Increasing :
    (x : ℤ) (ys : List ℤ)
    → All (λ y. int_eq x y ≡ false) ys
    → Increasing ys
    → Increasing (insert_id x ys)
unfolding insert_id
insert-Increasing x [] new h = (tt, tt)
insert-Increasing x (y ∷ ys) new h = elim (Bool-cases (leb_ℤ x y)) [
  | inl e ↦
      let less = leb_or_eq x y e new.0 in
      rw e ((less, All-weaken ys (λ z lz. ground (arith, less, lz)) h.0), h)
  | inr e ↦ rw e (
    All-insert (λ z. ltb_ℤ y z ≡ true) x ys (not_leb_ltb x y e) h.0,
    insert-Increasing x ys new.1 h.1,
  )
]

pub sort-Increasing : (xs : List ℤ) → DistinctIds xs → Increasing (sort_ids xs)
unfolding sort_ids
sort-Increasing [] h = tt
sort-Increasing (x ∷ xs) h =
    insert-Increasing x (sort_ids xs) (All-sort (λ y. int_eq x y ≡ false) xs h.0)
      (sort-Increasing xs h.1)

insert-count :
    (k x : ℤ) (ys : List ℤ) → count (λ y. y == k) (insert_id x ys) ≡ count (λ y. y == k) (x ∷ ys)
unfolding insert_id count
insert-count k x [] = refl
insert-count k x (y ∷ ys) = elim (Bool-cases (leb_ℤ x y)) [
  | inl e ↦ rw e refl
  | inr e ↦ rw (e, insert-count k x ys) (ground arith)
]

pub sort-count : (k : ℤ) (xs : List ℤ) → count (λ y. y == k) (sort_ids xs) ≡ count (λ y. y == k) xs
unfolding sort_ids count
sort-count k [] = refl
sort-count k (x ∷ xs) = insert-count k x (sort_ids xs) ∙ rw (sort-count k xs) refl

-- `WHERE debtor_id >= a`
module _ (a : ℤ) where
  insert_select :
      (x : ℤ) (ys : List ℤ)
      → select_rows (leb_ℤ a) (insert_id x ys)
        ≡ (if leb_ℤ a x then insert_id x (select_rows (leb_ℤ a) ys) else select_rows (leb_ℤ a) ys)
  unfolding insert_id select_rows
  insert_select x [] = refl
  insert_select x (y ∷ ys) = elim (Bool-cases (leb_ℤ x y)) [
    | inl e ↦ elim (Bool-cases (leb_ℤ a x)) [
      | inl ax ↦ rw (e, ax, leb_trans a x y ax e, e) refl
      | inr ax ↦ rw (e, ax) refl
    ]
    | inr e ↦ elim (Bool-cases (leb_ℤ a y)) [
      | inl ay ↦ elim (Bool-cases (leb_ℤ a x)) [
        | inl ax ↦ rw (e, ay, insert_select x ys, ax, e) refl
        | inr ax ↦ rw (e, ay, insert_select x ys, ax) refl
      ]
      | inr ay ↦ rw (e, ay) (insert_select x ys)
    ]
  ]

  pub sort_select :
      (xs : List ℤ) → sort_ids (select_rows (leb_ℤ a) xs) ≡ select_rows (leb_ℤ a) (sort_ids xs)
  unfolding sort_ids select_rows
  sort_select [] = refl
  sort_select (x ∷ xs) = elim (Bool-cases (leb_ℤ a x)) [
    | inl ax ↦
        rw ax (ap (insert_id x) (sort_select xs) ∙ sym (insert_select x (sort_ids xs) ∙ rw ax refl))
    | inr ax ↦ rw ax (sort_select xs ∙ sym (insert_select x (sort_ids xs) ∙ rw ax refl))
  ]

  pub All-selected : (xs : List ℤ) → All (λ y. leb_ℤ a y ≡ true) (select_rows (leb_ℤ a) xs)
  unfolding select_rows
  All-selected [] = tt
  All-selected (x ∷ xs) = elim (Bool-cases (leb_ℤ a x)) [
    | inl ax ↦ rw ax (ax, All-selected xs)
    | inr ax ↦ rw ax (All-selected xs)
  ]

  pub All-select : (P : ℤ → Type 0) (xs : List ℤ) → All P xs → All P (select_rows (leb_ℤ a) xs)
  unfolding select_rows
  All-select P [] h = tt
  All-select P (x ∷ xs) h = elim (Bool-cases (leb_ℤ a x)) [
    | inl ax ↦ rw ax (h.0, All-select P xs h.1)
    | inr ax ↦ rw ax (All-select P xs h.1)
  ]

  pub select-Increasing : (xs : List ℤ) → Increasing xs → Increasing (select_rows (leb_ℤ a) xs)
  unfolding select_rows
  select-Increasing [] h = tt
  select-Increasing (x ∷ xs) h = elim (Bool-cases (leb_ℤ a x)) [
    | inl ax ↦ rw ax (All-select (λ y. ltb_ℤ x y ≡ true) xs h.0, select-Increasing xs h.1)
    | inr ax ↦ rw ax (select-Increasing xs h.1)
  ]

  pub select_select :
      (k : ℤ) (xs : List ℤ)
      → leb_ℤ a k ≡ true
      → select_rows (leb_ℤ k) (select_rows (leb_ℤ a) xs) ≡ select_rows (leb_ℤ k) xs
  unfolding select_rows
  select_select k [] h = refl
  select_select k (x ∷ xs) h = elim (Bool-cases (leb_ℤ k x)) [
    | inl kx ↦ rw (leb_trans a k x h kx, kx) (ap (◌∷◌ x) (select_select k xs h))
    | inr kx ↦ elim (Bool-cases (leb_ℤ a x)) [
      | inl ax ↦ rw (ax, kx) (select_select k xs h)
      | inr ax ↦ rw (ax, kx) (select_select k xs h)
    ]
  ]

  pub select-count :
      (k : ℤ) (xs : List ℤ)
      → count (λ y. y == k) (select_rows (leb_ℤ a) xs)
        ≡ (if leb_ℤ a k then count (λ y. y == k) xs else 0)
  unfolding select_rows count
  select-count k [] = ground arith
  select-count k (x ∷ xs) = ground (arith, int_eq_iff x k, select-count k xs)
