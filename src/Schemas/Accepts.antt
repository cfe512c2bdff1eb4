-- ===== src/Schemas/Accepts.antt =====
-- What the validators of texts accept.
use Prim.Native.Char.{Char, code}
use swpt_debtors.Prelude.{
  ℕ, zero, suc, ◌≡◌, ◌↔◌, refl, true, String, nat_Eq, inl, inr, Bool-cases, arith,
}
use swpt_debtors.Schemas.Fields.{is_format_char, at_end, matches_format, is_transfer_note_format}

-- At most `n` characters of the set, and perhaps a newline at the end.
pub data Formatted : ℕ → String → Type 0 where
  end : {n : ℕ} → Formatted n ""
  newline : {n : ℕ} (c : Char) → code c ≡ 10 → Formatted n (String.◌∷◌ c "")
  more :
      {n : ℕ} {c : Char} {s : String}
      → is_format_char c ≡ true
      → Formatted n s
      → Formatted (suc n) (String.◌∷◌ c s)

at_end_sound : (n : ℕ) (s : String) → at_end s ≡ true → Formatted n s
unfolding at_end
at_end_sound n String.[] h = end
at_end_sound n (String.◌∷◌ c String.[]) h = newline c (ground arith)
at_end_sound n (String.◌∷◌ c (String.◌∷◌ d s)) h = cc

matches_sound : (n : ℕ) (s : String) → matches_format n s ≡ true → Formatted n s
unfolding matches_format
matches_sound zero s h = at_end_sound zero s h
matches_sound (suc n) String.[] h = end
matches_sound (suc n) (String.◌∷◌ c s) h = elim (Bool-cases (is_format_char c)) [
  | inl e ↦ more e (matches_sound n s (rw e at h))
  | inr e ↦ at_end_sound (suc n) (String.◌∷◌ c s) (rw e at h)
]

matches_nil : (n : ℕ) → matches_format n "" ≡ true
unfolding matches_format
matches_nil zero = refl
matches_nil (suc n) = refl

matches_newline : (n : ℕ) (c : Char) → code c ≡ 10 → matches_format n (String.◌∷◌ c "") ≡ true
unfolding matches_format at_end
matches_newline zero c h = ground arith
matches_newline (suc n) c h = ground arith

matches_complete : {n : ℕ} {s : String} → Formatted n s → matches_format n s ≡ true
unfolding matches_format
matches_complete (end {n}) = matches_nil n
matches_complete (newline {n} c h) = matches_newline n c h
matches_complete (more h f) = rw h (matches_complete f)

-- The format of a note is accepted exactly if it has at most eight characters of the set, and
-- perhaps a newline after them.
pub is_transfer_note_format_iff : (s : String) → (is_transfer_note_format s ≡ true) ↔ Formatted 8 s
unfolding is_transfer_note_format
is_transfer_note_format_iff s = (matches_sound 8 s, matches_complete)
