-- ===== src/Setup/Range.antt =====
-- The range of the parsed debtor identifiers.
use swpt_debtors.Prelude.{
  ℕ, ◌+◌, ◌-◌, ◌^◌, ◌≤◌, ltb, ◌≡◌, ap, ◌∙◌, true, some, String, ℤ, pos, negsuc, ◌≤ℤ◌, leb_ℤ, inl,
  inr, Bool-cases, arith,
}
use mathlib.Core.Path.{subst}
use swpt_debtors.Models.{min_int64, max_int64}
use swpt_debtors.Setup.{Literal, integer, other, malformed, parse_debtor_id, debtor_id_of}

-- The conversion of an unsigned number of 64 bits to the signed one with the same bits.
pub record IsTwosComplement (u64_to_i64 : ℕ → ℤ) : Type 0 where
  pub low : (n : ℕ) → n ≤ max_int64 → u64_to_i64 n ≡ pos n
  pub high : (n : ℕ) → n ≤ max_int64 → u64_to_i64 (max_int64 + 1 + n) ≡ negsuc (max_int64 - n)

module _ (u64_to_i64 : ℕ → ℤ) (twos : IsTwosComplement u64_to_i64) where
  converted_range :
      (n : ℕ)
      → ltb n (2 ^ 64) ≡ true
      → (min_int64 ≤ℤ u64_to_i64 n) × (u64_to_i64 n ≤ℤ pos max_int64)
  converted_range n h = elim (Bool-cases (ltb n (max_int64 + 1))) [
    | inl e ↦ rw (twos.low n (ground (arith, e))) (ground arith, ground (arith, e))
    | inr e ↦
        let split : n ≡ max_int64 + 1 + (n - (max_int64 + 1)) = ground (arith, e) in
        let back : u64_to_i64 n ≡ negsuc (max_int64 - (n - (max_int64 + 1))) =
          ap u64_to_i64 split ∙ twos.high (n - (max_int64 + 1)) (ground (arith, h)) in
        rw back (ground arith, ground arith)
  ]

  literal_range :
      (k : ℤ) (x : Literal)
      → debtor_id_of u64_to_i64 x ≡ some k
      → (min_int64 ≤ℤ k) × (k ≤ℤ pos max_int64)
  unfolding debtor_id_of
  literal_range k malformed e = absurd cc
  literal_range k other e = absurd cc
  literal_range k (integer (negsuc n)) e = ground (arith, e)
  literal_range k (integer (pos n)) e = elim (Bool-cases (leb_ℤ (pos (2 ^ 64)) (pos n))) [
    | inl large ↦ absurd (ground (arith, e, large))
    | inr small ↦
        let same : u64_to_i64 n ≡ k = ground (arith, e, small) in
        subst (λ j. (min_int64 ≤ℤ j) × (j ≤ℤ pos max_int64)) same
          (converted_range n (ground (arith, small)))
  ]

  -- `u64_to_i64` converts between two's complements. Then a debtor identifier that is parsed fits a
  -- signed integer of 64 bits.
  pub parse_debtor_id_range :
      (literal_eval : String → Literal) (text : String) (k : ℤ)
      → parse_debtor_id u64_to_i64 literal_eval text ≡ some k
      → (min_int64 ≤ℤ k) × (k ≤ℤ pos max_int64)
  unfolding parse_debtor_id
  parse_debtor_id_range literal_eval text k h = literal_range k (literal_eval text) h
