-- ===== src/Setup/Overrides.antt =====
-- What the environment makes of each attribute of the configuration.
use swpt_debtors.Prelude.{
  ◌≡◌, refl, sym, ap, ◌∙◌, true, false, Option, none, some, List, [], ◌∷◌, String, ◌==◌, string_Eq,
  str_eq_iff, first, inl, inr, Bool-cases, Option-cases, arith, if◌then◌else◌,
}
use swpt_debtors.Setup.Environment.{
  Value, Attribute, Conversions, target_type, get_attribute, set_attribute, convert,
  read_environment,
}

-- The value of a variable of the environment
unfoldable pub variable : String → List (String × String) → Option String
variable key [] = none
variable key ((k, s) ∷ rest) = if k == key then some s else variable key rest

-- No variable stands twice in the environment, and no attribute in the configuration.
abbrev pub DistinctVariables : List (String × String) → Type 0
DistinctVariables [] = Unit
DistinctVariables ((k, s) ∷ rest) = (variable k rest ≡ none) × DistinctVariables rest

abbrev pub DistinctAttributes : List Attribute → Type 0
DistinctAttributes [] = Unit
DistinctAttributes (a ∷ rest) = (get_attribute a.name rest ≡ none) × DistinctAttributes rest

abbrev put_first : Option Attribute → Option (List Attribute) → Option (List Attribute)
put_first none r = none
put_first (some a) none = none
put_first (some a) (some r) = some (a ∷ r)

abbrev with_value : Attribute → Option Value → Option Attribute
with_value a none = none
with_value a (some v) = some (record a { value = v })

get_nothing_set :
    (n k : String) (v : Value) (attributes : List Attribute)
    → get_attribute n attributes ≡ none
    → get_attribute n (set_attribute k v attributes) ≡ none
unfolding get_attribute set_attribute first
get_nothing_set n k v [] h = refl
get_nothing_set n k v (a ∷ rest) h = ground (arith, h, get_nothing_set n k v rest)

module _ (c : Conversions) where
  -- An attribute alone: its variable, if there is one, is converted as its annotation or its default
  -- value says.
  abbrev pub override : List (String × String) → Attribute → Option Attribute
  override env a = elim (variable a.name env) [
    | none ↦ some a
    | some s ↦ with_value a (convert c (target_type a) s)
  ]

  -- Every attribute is overridden by its own variable; one `ValueError` is enough to fail.
  abbrev pub override_all : List (String × String) → List Attribute → Option (List Attribute)
  override_all env [] = some []
  override_all env (a ∷ rest) = put_first (override env a) (override_all env rest)

  other_variable :
      (k s : String) (env : List (String × String)) (a : Attribute)
      → (a.name == k) ≡ false
      → override ((k, s) ∷ env) a ≡ override env a
  unfolding variable
  other_variable k s env a h = ground (arith, str_eq_iff k a.name, str_eq_iff a.name k, h)

  own_variable :
      (k s : String) (env : List (String × String)) (a : Attribute)
      → (a.name == k) ≡ true
      → override ((k, s) ∷ env) a ≡ with_value a (convert c (target_type a) s)
  unfolding variable
  own_variable k s env a h = ground (arith, str_eq_iff k a.name, str_eq_iff a.name k, h)

  -- An attribute without a variable of its own
  settled :
      (k : String) (env : List (String × String)) (a : Attribute) (v : Value)
      → variable k env ≡ none
      → (a.name == k) ≡ true
      → override env (record a { value = v }) ≡ some (record a { value = v })
  settled k env a v free h =
      let same : variable a.name env ≡ none =
        ap (λ n. variable n env) ((str_eq_iff a.name k).0 h) ∙ free in
      rw (override, same)

  unused_variable :
      (k s : String) (env : List (String × String)) (attributes : List Attribute)
      → get_attribute k attributes ≡ none
      → override_all ((k, s) ∷ env) attributes ≡ override_all env attributes
  unfolding get_attribute first
  unused_variable k s env [] h = refl
  unused_variable k s env (a ∷ rest) h =
      let other : (a.name == k) ≡ false = ground (arith, h) in
      rw (other_variable k s env a other, unused_variable k s env rest (ground (arith, h, other)))

  set_nothing :
      (k : String) (v : Value) (attributes : List Attribute)
      → get_attribute k attributes ≡ none
      → set_attribute k v attributes ≡ attributes
  unfolding get_attribute set_attribute first
  set_nothing k v [] h = refl
  set_nothing k v (a ∷ rest) h =
      let other : (a.name == k) ≡ false = ground (arith, h) in
      rw other (ap (λ r. a ∷ r) (set_nothing k v rest (ground (arith, h, other))))

  used_variable :
      (k s : String) (v : Value) (env : List (String × String)) (a : Attribute)
      (attributes : List Attribute)
      → variable k env ≡ none
      → DistinctAttributes attributes
      → get_attribute k attributes ≡ some a
      → convert c (target_type a) s ≡ some v
      → override_all ((k, s) ∷ env) attributes ≡ override_all env (set_attribute k v attributes)
  used_variable k s v env a [] free distinct found done =
      unfold get_attribute first in absurd (ground (arith, found))
  used_variable k s v env a (b ∷ rest) free distinct found done = elim (Bool-cases (b.name == k)) [
    | inl e ↦
        let here : b ≡ a = unfold get_attribute first in ground (arith, found, e) in
        let gone : get_attribute k rest ≡ none =
          ap (λ n. get_attribute n rest) (sym ((str_eq_iff b.name k).0 e)) ∙ distinct.0 in
        let value : convert c (target_type b) s ≡ some v =
          ap (λ x. convert c (target_type x) s) here ∙ done in
        let set : set_attribute k v (b ∷ rest) ≡ record b { value = v } ∷ rest =
          unfold set_attribute in
          rw e (ap (λ r. record b { value = v } ∷ r) (set_nothing k v rest gone)) in
        rw (
          set,
          own_variable k s env b e,
          value,
          settled k env b v free e,
          unused_variable k s env rest gone,
        )
    | inr e ↦
        let later : get_attribute k rest ≡ some a =
          unfold get_attribute first in ground (arith, found, e) in
        let set : set_attribute k v (b ∷ rest) ≡ b ∷ set_attribute k v rest =
          unfold set_attribute in rw e in
        rw (
          set,
          other_variable k s env b e,
          used_variable k s v env a rest free distinct.1 later done,
        )
  ]

  failed_variable :
      (k s : String) (env : List (String × String)) (a : Attribute) (attributes : List Attribute)
      → get_attribute k attributes ≡ some a
      → convert c (target_type a) s ≡ none
      → override_all ((k, s) ∷ env) attributes ≡ none
  failed_variable k s env a [] found done =
      unfold get_attribute first in absurd (ground (arith, found))
  failed_variable k s env a (b ∷ rest) found done = elim (Bool-cases (b.name == k)) [
    | inl e ↦
        let here : b ≡ a = unfold get_attribute first in ground (arith, found, e) in
        let value : convert c (target_type b) s ≡ none =
          ap (λ x. convert c (target_type x) s) here ∙ done in
        rw (own_variable k s env b e, value)
    | inr e ↦
        let later : get_attribute k rest ≡ some a =
          unfold get_attribute first in ground (arith, found, e) in
        rw (failed_variable k s env a rest later done) (failing (override ((k, s) ∷ env) b))
  ]
    where
      failing : (o : Option Attribute) → put_first o none ≡ none
      failing none = refl
      failing (some x) = refl

  set-DistinctAttributes :
      (k : String) (v : Value) (attributes : List Attribute)
      → DistinctAttributes attributes
      → DistinctAttributes (set_attribute k v attributes)
  unfolding set_attribute
  set-DistinctAttributes k v [] d = tt
  set-DistinctAttributes k v (a ∷ rest) d =
      let kept = get_nothing_set a.name k v rest d.0 in
      let later = set-DistinctAttributes k v rest d.1 in
      elim (Bool-cases (a.name == k)) [ inl e ↦ rw e (kept, later) | inr e ↦ rw e (kept, later) ]

  nothing_set : (attributes : List Attribute) → override_all [] attributes ≡ some attributes
  unfolding variable
  nothing_set [] = refl
  nothing_set (a ∷ rest) = rw (nothing_set rest)

  -- No variable stands twice in the environment, and no attribute in the configuration. Then the
  -- configuration that is read, or the failure, is that of overriding every attribute by its own
  -- variable, whatever the order of the environment; other variables are ignored.
  pub read_environment-eq-override_all :
      (env : List (String × String)) (attributes : List Attribute)
      → DistinctVariables env
      → DistinctAttributes attributes
      → read_environment c env attributes ≡ override_all env attributes
  unfolding read_environment
  read_environment-eq-override_all [] attributes distinct named = sym (nothing_set attributes)
  read_environment-eq-override_all ((k, s) ∷ env) attributes distinct named =
      elim (Option-cases (get_attribute k attributes)) [
        | inl absent ↦
            rw (read_environment, absent)
              (read_environment-eq-override_all env attributes distinct.1 named
                ∙ sym (unused_variable k s env attributes absent))
        | inr (a, found) ↦ elim (Option-cases (convert c (target_type a) s)) [
          | inl failed ↦
              rw (read_environment, found, failed)
                (sym (failed_variable k s env a attributes found failed))
          | inr (v, done) ↦
              rw (read_environment, found, done)
                (read_environment-eq-override_all env (set_attribute k v attributes) distinct.1
                    (set-DistinctAttributes k v attributes named)
                  ∙ sym (used_variable k s v env a attributes distinct.0 named found done))
        ]
      ]
