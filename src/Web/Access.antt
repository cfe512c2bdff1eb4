-- ===== src/Web/Access.antt =====
-- Whom the permissions of the Web API let through.
use swpt_debtors.Prelude.{
  ◌≡◌, refl, true, false, ◌⊎◌, inl, inr, Option, some, String, string_Eq, int_Eq, option_Eq,
  option_eq_iff, ℤ, arith,
}
use swpt_debtors.Settings.{Settings, is_valid_debtor_id}
use swpt_debtors.Web.Users.{
  UserType, superuser, supervisor, debtor_user, User, UserPatterns, allowed, is_read_only, permit,
  debtor_access,
}

-- Debtors have access to their own resources, supervisors read, superusers may do everything.
abbrev pub MayAccess : User → ℤ → String → Type 0
MayAccess u id method =
    (u.user_type ≡ superuser)
    ⊎ ((u.user_type ≡ supervisor) × (is_read_only method ≡ true))
    ⊎ ((u.user_type ≡ debtor_user) × (u.debtor_id ≡ some id))

module _ (w : UserPatterns) (s : Settings) where
  abbrev user : UserType → Option ℤ → User
  user t own = record { user_type = t; debtor_id = own }

  permitted :
      (t : UserType) (own : Option ℤ) (id : ℤ) (method : String) (g : Option ℤ)
      → permit w (user t own) (some id) method ≡ allowed g
      → MayAccess (user t own) id method
  unfolding permit
  permitted superuser own id method g h = inl refl
  permitted supervisor own id method g h = inr (inl (refl, ground (arith, h)))
  permitted debtor_user own id method g h =
      inr (inr (refl, ground (arith, h, option_eq_iff own (some id))))

  -- A user that is let through to a path with a debtor has a debtor identifier there that is valid
  -- for this node, and is a superuser, a supervisor who reads, or that debtor.
  pub permissions_sound :
      (u : User) (id : ℤ) (method : String) (g : Option ℤ)
      → debtor_access w s (some u) (some id) method ≡ allowed g
      → (is_valid_debtor_id s id false ≡ true) × MayAccess u id method
  unfolding debtor_access
  permissions_sound u id method g h =
      let valid : is_valid_debtor_id s id false ≡ true = ground (arith, h) in
      let h' : permit w u (some id) method ≡ allowed g = ground (arith, h, valid) in
      (valid, permitted u.user_type u.debtor_id id method g h')
