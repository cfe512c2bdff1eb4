-- ===== src/Setup.antt =====
-- swpt_debtors/__init__.py: the values of the configuration that the program makes itself.
-- `literal_eval`, `re.escape` and `u64_to_i64` are parameters.
pub mod Range
pub mod Environment
pub mod Overrides
pub mod Configuration
pub mod Logging
pub mod Handlers
use Prim.Native.String
use swpt_debtors.Prelude.{
  ℕ, ◌-◌, ◌^◌, Option, none, some, String, ◌==◌, string_Eq, ℤ, pos, negsuc, ltb_ℤ, leb_ℤ,
  if◌then◌else◌,
}

-- What `literal_eval` returns: an integer (a truth value is one), something else, or it raises.
pub data Literal : Type 0 where
  integer : ℤ → Literal
  other : Literal
  malformed : Literal

-- `none` is an exception.
unfoldable pub debtor_id_of : (ℕ → ℤ) → Literal → Option ℤ
debtor_id_of u64_to_i64 malformed = none
debtor_id_of u64_to_i64 other = none
debtor_id_of u64_to_i64 (integer (negsuc n)) =
    if ltb_ℤ (negsuc n) (negsuc (2 ^ 63 - 1)) then none else some (negsuc n)
debtor_id_of u64_to_i64 (integer (pos n)) =
    if leb_ℤ (pos (2 ^ 64)) (pos n) then none else some (u64_to_i64 n)

-- `_parse_debtor_id`; the text is stripped by the parameter.
unfoldable pub parse_debtor_id : (ℕ → ℤ) → (String → Literal) → String → Option ℤ
unfolding debtor_id_of
parse_debtor_id u64_to_i64 literal_eval s = debtor_id_of u64_to_i64 (literal_eval s)

-- `_as_regex`
unfoldable pub as_regex : (String → String) → String → String
as_regex escape s = String.◌++◌ (String.◌++◌ "^" (escape s)) "$"

-- A pattern that is not configured is made of the user's name.
unfoldable pub subject_regex : (String → String) → String → String → String
unfolding as_regex
subject_regex escape configured username =
    if configured == "" then as_regex escape username else configured
