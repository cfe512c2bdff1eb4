-- ===== src/Setup/Environment.antt =====
-- `MetaEnvReader` of swpt_debtors/__init__.py: the environment overrides the configuration. The texts
-- of integers and floats, `str.lower`, `json.loads` and `_parse_debtor_id` are parameters; attributes
-- that every Python class has are not among those of the configuration.
use swpt_debtors.Prelude.{
  Bool, not, Option, none, some, ◌||◌, List, [], ◌∷◌, map, String, ◌==◌, string_Eq, ℤ, first,
  if◌then◌else◌,
}
use swpt_debtors.Platform.{Float, Json}

-- The values of the configuration
pub data Value : Type 0 where
  missing : Value
  boolean : Bool → Value
  integer : ℤ → Value
  float : Float → Value
  text : String → Value
  mapping : Json → Value

-- A type, or a function that an annotation names
pub data Target : Type 0 where
  to_bool : Target
  to_int : Target
  to_float : Target
  to_str : Target
  to_dict : Target
  parse_debtor_id : Target
  parse_dict : Target

pub record Attribute : Type 0 where
  pub name : String
  pub annotation : Option Target
  pub value : Value

-- `type(value)`, where the type of `None` becomes `str`
unfoldable pub type_of : Value → Target
type_of missing = to_str
type_of (boolean b) = to_bool
type_of (integer n) = to_int
type_of (float x) = to_float
type_of (text s) = to_str
type_of (mapping j) = to_dict

-- `annotations.get(key) or type(getattr(cls, key))`
unfoldable pub target_type : Attribute → Target
unfolding type_of
target_type a = elim a.annotation [ none ↦ type_of a.value | some target ↦ target ]

unfoldable pub is_falsy : String → Bool
is_falsy s = s == "false" || (s == "off" || (s == "no" || s == ""))

-- The conversions; `none` is a `ValueError`.
pub record Conversions : Type 0 where
  pub lower : String → String
  pub int_of : String → Option ℤ
  pub float_of : String → Option Float
  pub debtor_id_of : String → Option ℤ
  pub json_of : String → Option Json
  -- `dict(text)`
  pub dict_of : String → Option Json

unfoldable pub get_attribute : String → List Attribute → Option Attribute
get_attribute key = first (λ a. a.name == key)

-- `setattr`
unfoldable pub set_attribute : String → Value → List Attribute → List Attribute
set_attribute key value = map (λ a. if a.name == key then record a { value = value } else a)

abbrev pub map_value : {A : Type 0} → (A → Value) → Option A → Option Value
map_value f none = none
map_value f (some a) = some (f a)

module _ (c : Conversions) where
  unfoldable pub convert : Target → String → Option Value
  unfolding is_falsy
  convert to_bool s = some (boolean (not (is_falsy (c.lower s))))
  convert to_int s = map_value integer (c.int_of s)
  convert to_float s = map_value float (c.float_of s)
  convert to_str s = some (text s)
  convert to_dict s = map_value mapping (c.dict_of s)
  convert parse_debtor_id s = map_value integer (c.debtor_id_of s)
  convert parse_dict s = map_value mapping (c.json_of s)

  -- `for key, value in os.environ.items()`
  unfoldable pub read_environment :
      List (String × String) → List Attribute → Option (List Attribute)
  unfolding get_attribute set_attribute target_type convert
  read_environment [] attributes = some attributes
  read_environment ((key, s) ∷ rest) attributes = elim (get_attribute key attributes) [
    | none ↦ read_environment rest attributes
    | some a ↦ elim (convert (target_type a) s) [
      | none ↦ none
      | some value ↦ read_environment rest (set_attribute key value attributes)
    ]
  ]
