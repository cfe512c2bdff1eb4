-- ===== src/Web/Users.antt =====
-- The users of the Web API and their permissions. The patterns of the configuration, the integer in
-- the first group of a match, and `u64_to_i64` are parameters.
use swpt_debtors.Prelude.{
  ℕ, Bool, true, false, not, ◌&&◌, ◌||◌, Option, none, some, String, ◌==◌, string_Eq, int_Eq,
  option_Eq, ℤ, if◌then◌else◌,
}
use swpt_debtors.Settings.{Settings, is_valid_debtor_id}

pub data UserType : Type 0 where
  superuser : UserType
  supervisor : UserType
  debtor_user : UserType

-- A user, with the debtor that a user of that type stands for.
pub record User : Type 0 where
  pub user_type : UserType
  pub debtor_id : Option ℤ

pub record UserPatterns : Type 0 where
  -- `get_pattern(user_type).match(user_id)` finds a match
  pub matches : UserType → String → Bool
  -- `int(m.group(1))`
  pub group_number : String → ℕ
  pub u64_to_i64 : ℕ → ℤ

-- `abort(status)` before a request reaches its endpoint, or the value for the endpoint
pub data Access (A : Type 0) : Type 0 where
  allowed : A → Access A
  denied : ℕ → Access A

abbrev pub no_debtor : UserType → User
no_debtor user_type = record { user_type = user_type; debtor_id = none }

-- READ_ONLY_METHODS
unfoldable pub is_read_only : String → Bool
is_read_only method = method == "GET" || (method == "HEAD" || method == "OPTIONS")

module _ (w : UserPatterns) where
  -- The types are tried in their order; without a match the request is aborted with 403.
  unfoldable pub match_user : String → Option User
  match_user user_id =
      if w.matches superuser user_id
      then some (no_debtor superuser)
      else if w.matches supervisor user_id
      then some (no_debtor supervisor)
      else if w.matches debtor_user user_id
      then some (record {
        user_type = debtor_user;
        debtor_id = some (w.u64_to_i64 (w.group_number user_id));
      })
      else none

  unfoldable pub parse_swpt_user_id_header : Option String → Option User
  parse_swpt_user_id_header none = some (no_debtor superuser)
  parse_swpt_user_id_header (some user_id) = match_user user_id

  -- The endpoint learns whether the user is a superuser.
  unfoldable pub admin_access : Option User → Access Bool
  admin_access none = denied 403
  admin_access (some u) = elim u.user_type [
    | superuser ↦ allowed true
    | supervisor ↦ allowed false
    | debtor_user ↦ denied 403
  ]

  unfoldable pub ensure_admin : Option String → Access Bool
  unfolding admin_access
  ensure_admin header = admin_access (parse_swpt_user_id_header header)

  abbrev is_of_type : UserType → UserType → Bool
  is_of_type superuser superuser = true
  is_of_type supervisor supervisor = true
  is_of_type debtor_user debtor_user = true
  is_of_type _ _ = false

  -- The two tests on the type of the user.
  unfoldable pub permit : User → Option ℤ → String → Access (Option ℤ)
  permit u url_debtor_id method =
      if is_of_type u.user_type debtor_user && not (u.debtor_id == url_debtor_id)
      then denied 403
      else if is_of_type u.user_type supervisor && not (is_read_only method)
      then denied 403
      else allowed u.debtor_id

  -- A path without a debtor is the user's own.
  unfoldable pub debtor_access : Settings → Option User → Option ℤ → String → Access (Option ℤ)
  unfolding permit
  debtor_access s none url_debtor_id method = denied 403
  debtor_access s (some u) none method = permit u u.debtor_id method
  debtor_access s (some u) (some id) method =
      if not (is_valid_debtor_id s id false) then denied 404 else permit u (some id) method

  unfoldable pub ensure_debtor_permissions :
      Settings → Option String → Option ℤ → String → Access (Option ℤ)
  unfolding debtor_access
  ensure_debtor_permissions s header url_debtor_id method =
      debtor_access s (parse_swpt_user_id_header header) url_debtor_id method
