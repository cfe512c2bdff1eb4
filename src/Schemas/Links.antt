-- ===== src/Schemas/Links.antt =====
-- What the schemas take from elsewhere: the URLs of the endpoints (`url_for` of Flask, with
-- `_external=False`), and `i64_to_u64` and `make_account_uri` of `swpt_pythonlib`.
use swpt_debtors.Prelude.{ℕ, Option, String, ℤ}

pub record Links : Type 0 where
  pub debtor : ℤ → String
  pub debtor_config : ℤ → String
  pub transfers_list : ℤ → String
  pub transfer : ℤ → ℕ → String
  pub save_document : ℤ → String
  pub redirect_to_debtors_info : ℤ → String
  -- `str(i64_to_u64(debtor_id))`
  pub unsigned : ℤ → String
  -- `none` is the `ValueError` of `make_account_uri`.
  pub make_account_uri : ℤ → String → Option String

-- The URLs of the list of debtors and of its pages
pub record ListLinks : Type 0 where
  pub debtors_list : String
  pub enumerate : ℤ → String
