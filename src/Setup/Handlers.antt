-- ===== src/Setup/Handlers.antt =====
-- What `_remove_handlers` leaves of the handlers of a logger.
use swpt_debtors.Prelude.{
  ℕ, zero, suc, ◌≤◌, ◌≡◌, refl, ap, ◌∙◌, sym, false, none, List, [], ◌∷◌, ◌++◌, ◌==◌, nat_Eq, arith,
  All, All-append,
}
use mathlib.Core.List.{append_assoc, append-nil}
use swpt_debtors.Setup.Logging.{
  Handler, remove, handler_at, remove_loop, count_handlers, remove_handlers,
}

abbrev Differs : Handler → Handler → Type 0
Differs h k = (h == k) ≡ false

-- `addHandler` adds no handler twice.
abbrev pub Distinct : List Handler → Type 0
Distinct [] = Unit
Distinct (h ∷ hs) = All (Differs h) hs × Distinct hs

abbrev pub every_second : List Handler → List Handler
every_second [] = []
every_second (h ∷ []) = []
every_second (h ∷ k ∷ hs) = k ∷ every_second hs

-- No handler of the second list is in the first.
abbrev Apart : List Handler → List Handler → Type 0
Apart kept hs = All (λ h. All (λ k. Differs k h) kept) hs

handler_at-append :
    (n : ℕ) (kept rest : List Handler)
    → count_handlers kept ≡ n
    → handler_at n (kept ++ rest) ≡ handler_at 0 rest
unfolding handler_at
handler_at-append zero [] [] h = refl
handler_at-append zero [] (x ∷ xs) h = refl
handler_at-append (suc n) [] rest h = absurd (omega arith)
handler_at-append zero (k ∷ kept) rest h = absurd (omega arith)
handler_at-append (suc n) (k ∷ kept) rest h = handler_at-append n kept rest (omega arith)

remove-append :
    (h : Handler) (kept rest : List Handler)
    → All (λ k. Differs k h) kept
    → remove h (kept ++ h ∷ rest) ≡ kept ++ rest
unfolding remove
remove-append h [] rest apart = ground arith
remove-append h (k ∷ kept) rest apart = ground (arith, remove-append h kept rest)

count-append_one :
    (kept : List Handler) (h : Handler)
    → count_handlers (kept ++ h ∷ []) ≡ suc (count_handlers kept)
count-append_one [] h = refl
count-append_one (k ∷ kept) h = ap suc (count-append_one kept h)

Apart-append :
    (kept hs : List Handler) (h : Handler)
    → Apart kept hs
    → All (Differs h) hs
    → Apart (kept ++ h ∷ []) hs
Apart-append kept [] h a d = tt
Apart-append kept (x ∷ hs) h a d =
    (All-append (λ k. Differs k x) kept h a.0 d.0, Apart-append kept hs h a.1 d.1)

handler_at-past : (n : ℕ) (hs : List Handler) → count_handlers hs ≤ n → handler_at n hs ≡ none
unfolding handler_at
handler_at-past n [] h = refl
handler_at-past zero (x ∷ xs) h = absurd (omega arith)
handler_at-past (suc n) (x ∷ xs) h = handler_at-past n xs (omega arith)

loop_past : (fuel n : ℕ) (hs : List Handler) → count_handlers hs ≤ n → remove_loop fuel n hs ≡ hs
unfolding remove_loop
loop_past zero n hs h = refl
loop_past (suc fuel) n hs h = rw (remove_loop, handler_at-past n hs h)

loop_leaves :
    (fuel n : ℕ) (kept rest : List Handler)
    → count_handlers kept ≡ n
    → count_handlers rest ≤ fuel
    → Apart kept rest
    → Distinct rest
    → remove_loop fuel n (kept ++ rest) ≡ kept ++ every_second rest
unfolding remove_loop
loop_leaves zero n kept [] same enough apart distinct = refl
loop_leaves zero n kept (x ∷ xs) same enough apart distinct = absurd (omega arith)
loop_leaves (suc fuel) n kept [] same enough apart distinct =
    loop_past (suc fuel) n (kept ++ []) (rw append-nil (omega arith))
loop_leaves (suc fuel) n kept (x ∷ []) same enough apart distinct =
    rw (remove_loop, handler_at-append n kept (x ∷ []) same, remove-append x kept [] apart.0)
      (loop_past fuel (suc n) (kept ++ []) (rw append-nil (omega arith)))
loop_leaves (suc fuel) n kept (x ∷ y ∷ rest) same enough apart distinct =
    let later =
      loop_leaves fuel (suc n) (kept ++ y ∷ []) rest (count-append_one kept y ∙ ap suc same)
        (omega arith) (Apart-append kept rest y apart.1.1 distinct.1.0) distinct.1.1 in
    rw
      (
        remove_loop,
        handler_at-append n kept (x ∷ y ∷ rest) same,
        remove-append x kept (y ∷ rest) apart.0,
      )
      (ap (remove_loop fuel (suc n)) (sym (append_assoc kept (y ∷ []) rest))
        ∙ later
        ∙ append_assoc kept (y ∷ []) (every_second rest))

nothing_kept : (hs : List Handler) → Apart [] hs
nothing_kept [] = tt
nothing_kept (h ∷ hs) = (tt, nothing_kept hs)

-- The handlers of a logger are distinct. `_remove_handlers` removes the first of them, the third, and
-- so on, and leaves every second one.
pub remove_handlers_leaves :
    (hs : List Handler) → Distinct hs → remove_handlers hs ≡ every_second hs
unfolding remove_handlers
remove_handlers_leaves hs d =
    loop_leaves (count_handlers hs) 0 [] hs refl (omega arith) (nothing_kept hs) d
