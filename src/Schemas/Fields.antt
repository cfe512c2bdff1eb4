-- ===== src/Schemas/Fields.antt =====
-- The validators of the fields. `len(s)` counts code points, `len(s.encode("utf8"))` bytes.
use Prim.Native.Char.{Char, code}
use Prim.Native.String
use Prim.Native.String.{count}
use swpt_debtors.Prelude.{
  ℕ, zero, suc, leb, Bool, true, false, ◌&&◌, ◌||◌, Option, none, some, String, ◌==◌, nat_Eq,
  string_Eq, ℤ, leb_ℤ, if◌then◌else◌,
}

-- `none` is a `ValidationError`, or a required field that is missing.
abbrev pub checked {ℓ} : {A : Type ℓ} → Bool → A → Option A
checked true a = some a
checked false a = none

infixl 5 ◌>>=◌ ◌>>◌
abbrev pub ◌>>=◌ {ℓ κ} : {A : Type ℓ} {B : Type κ} → Option A → (A → Option B) → Option B
none >>= f = none
some a >>= f = f a

abbrev pub ◌>>◌ {ℓ} : {B : Type ℓ} → Option (Unit {0}) → Option B → Option B
m >> k = m >>= λ _. k

-- A field with `required=True` and a validator
abbrev pub required {ℓ} : {A : Type ℓ} → Option A → (A → Bool) → Option A
required none valid = none
required (some a) valid = checked (valid a) a

-- A field with `load_default` and a validator; the default is not validated.
abbrev pub with_default {ℓ} : {A : Type ℓ} → A → Option A → (A → Bool) → Option A
with_default a none _ = some a
with_default _ (some a) valid = checked (valid a) a

-- `validate.Range(min, max)`
abbrev pub in_range : ℤ → ℤ → ℤ → Bool
in_range low high n = leb_ℤ low n && leb_ℤ n high

-- `validate.Length(max)`
abbrev pub max_length : ℕ → String → Bool
max_length n s = leb (count s) n

-- The test of a type against the name of the class; a type that is absent is the default.
abbrev pub type_is : String → String → Bool
type_is class_name value = String.◌++◌ value "Schema" == class_name

abbrev pub valid_type : String → Option String → Option (Unit {0})
valid_type class_name none = some tt
valid_type class_name (some value) = checked (type_is class_name value) tt

-- `[0-9A-Za-z.-]`
abbrev pub is_format_char : Char → Bool
is_format_char c =
    (leb b'0' (code c) && leb (code c) b'9')
    || ((leb b'A' (code c) && leb (code c) b'Z')
        || ((leb b'a' (code c) && leb (code c) b'z') || (code c == b'.' || code c == b'-')))

-- What `$` matches: the end, or the place before a newline at the end
unfoldable pub at_end : String → Bool
at_end String.[] = true
at_end (String.◌∷◌ c s) = elim s [ String.[] ↦ code c == 10 | String.◌∷◌ d s' ↦ false ]

-- At most `n` characters of the set, and the end. The newline is not in the set.
unfoldable pub matches_format : ℕ → String → Bool
unfolding at_end
matches_format zero s = at_end s
matches_format (suc n) String.[] = true
matches_format (suc n) (String.◌∷◌ c s) =
    let rest = matches_format n s in if is_format_char c then rest else at_end (String.◌∷◌ c s)

-- TRANSFER_NOTE_FORMAT_REGEX, by `re.match`
unfoldable pub is_transfer_note_format : String → Bool
unfolding matches_format
is_transfer_note_format = matches_format 8
