-- ===== src/Web/Handled.antt =====
-- Whole requests about debtors: the permissions, the schema of the request, the endpoint, and the
-- schema of the answer; and every request of the Web API that may change the database, with the
-- status of its answer.
use swpt_debtors.Prelude.{ℕ, Option, none, some, List, String, ℤ}
use swpt_debtors.Platform.{Platform, Timestamp}
use swpt_debtors.Settings.{Settings}
use swpt_debtors.Models.{Database}
use swpt_debtors.Schemas.Links.{Links}
use swpt_debtors.Schemas.Requests.{
  ActivationBody, RestrictionBody, ConfigBody, TransferBody, load_reservation, load_activation,
  load_deactivation, load_restriction, load_config,
}
use swpt_debtors.Schemas.Views.{
  ReservationView, ConfigView, DebtorView, dump_reservation, dump_config, dump_debtor,
}
use swpt_debtors.Web.Users.{
  UserPatterns, Access, allowed, denied, ensure_admin, ensure_debtor_permissions,
}
use swpt_debtors.Web.Response.{Response, reply, redirected, aborted, Endpoint, abort}
use swpt_debtors.Web.Admin.{
  post_random_debtor_reserve, post_debtor_reserve, post_debtor_activate, post_debtor_deactivate,
  post_debtor_restrict,
}
use swpt_debtors.Web.Debtors.{
  get_own_debtor, get_debtor_endpoint, get_debtor_config, patch_debtor_config, post_document,
}
use swpt_debtors.Web.Transfers.{AccountUri, delete_transfer_endpoint}
use swpt_debtors.Web.Served.{guarded, validated, rendered, create_transfer, cancel_transfer}

-- The permissions, with what they tell the endpoint
abbrev pub admitted : {A B : Type 0} → Access B → (B → Endpoint A) → Endpoint A
admitted (denied status) endpoint = abort status
admitted (allowed b) endpoint = endpoint b

abbrev pub status_of : {A : Type 0} → Response A → ℕ
status_of (reply status _) = status
status_of (redirected status) = status
status_of (aborted status) = status

-- The status and the database after a request
abbrev pub served : {A : Type 0} → Endpoint A → Database → ℕ × Database
served endpoint db = (let r = endpoint db in (status_of r.0, r.1))

module _ (w : UserPatterns) (s : Settings) (u : Links) (retention_days : ℕ)
    (header : Option String) where
  -- `admin_api`
  unfoldable pub reserve_random_debtor : Option String → (ℕ → ℤ) → Endpoint ReservationView
  reserve_random_debtor type draw = guarded (ensure_admin w header) (
      validated (load_reservation type)
        λ _. rendered (dump_reservation u retention_days) (post_random_debtor_reserve s draw))

  unfoldable pub reserve_debtor_request : Option String → ℤ → Endpoint ReservationView
  reserve_debtor_request type debtor_id = guarded (ensure_admin w header) (
      validated (load_reservation type)
        λ _. rendered (dump_reservation u retention_days) (post_debtor_reserve s debtor_id))

  -- `debtors_api`
  unfoldable pub redirect_to_debtor : Endpoint (Unit {0})
  redirect_to_debtor = admitted (ensure_debtor_permissions w s header none "GET") get_own_debtor

  unfoldable pub show_debtor : ℤ → Endpoint DebtorView
  show_debtor debtor_id =
      guarded (ensure_debtor_permissions w s header (some debtor_id) "GET")
        (rendered (dump_debtor u) (get_debtor_endpoint debtor_id))

  unfoldable pub show_config : ℤ → Endpoint ConfigView
  show_config debtor_id =
      guarded (ensure_debtor_permissions w s header (some debtor_id) "GET")
        (rendered (dump_config u) (get_debtor_config debtor_id))

  -- `transfers_api`
  unfoldable pub delete_transfer_request : ℤ → ℕ → Endpoint (Unit {0})
  delete_transfer_request debtor_id transfer_uuid =
      guarded (ensure_debtor_permissions w s header (some debtor_id) "DELETE")
        (delete_transfer_endpoint debtor_id transfer_uuid)

  module _ ⦃p : Platform⦄ where
    unfoldable pub activate_debtor_request : ActivationBody → ℤ → Endpoint DebtorView
    activate_debtor_request body debtor_id = guarded (ensure_admin w header) (
        validated (load_activation body) λ reservation_id.
          rendered (dump_debtor u) (post_debtor_activate s debtor_id reservation_id))

    unfoldable pub deactivate_debtor_request : Option String → ℤ → Endpoint (Unit {0})
    deactivate_debtor_request type debtor_id = admitted (ensure_admin w header) λ superuser.
        validated (load_deactivation type) λ _. post_debtor_deactivate s superuser debtor_id

    unfoldable pub restrict_debtor_request : RestrictionBody → ℤ → Endpoint DebtorView
    restrict_debtor_request body debtor_id = admitted (ensure_admin w header) λ superuser.
        validated (load_restriction body) λ min_balance.
          rendered (dump_debtor u) (post_debtor_restrict s superuser debtor_id min_balance)

    unfoldable pub update_config_request : ConfigBody → ℤ → Endpoint ConfigView
    update_config_request body debtor_id =
        guarded (ensure_debtor_permissions w s header (some debtor_id) "PATCH") (
          validated (load_config body) λ q.
            rendered (dump_config u)
              (patch_debtor_config s debtor_id q.config_data q.latest_update_id))

-- The requests that may change the database; all but the first have a debtor in their path. The
-- first comes with the numbers that `randint` draws.
pub data Request : Type 0 where
  reserve_random : Option String → (ℕ → ℤ) → Request
  reserve : Option String → Request
  activate : ActivationBody → Request
  deactivate : Option String → Request
  restrict : RestrictionBody → Request
  update_config : ConfigBody → Request
  create : TransferBody → Request
  cancel : Option String → ℕ → Request
  delete : ℕ → Request
  -- the length, the type and the content of a document
  save : Option ℕ → Option String → List ℕ → Request

module _ ⦃p : Platform⦄ (w : UserPatterns) (s : Settings) (u : Links) (retention_days : ℕ)
    (parse_account_uri : String → Option AccountUri) (delay : ℕ) (current_ts : Timestamp)
    (header : Option String) (debtor_id : ℤ) where
  unfoldable pub serve : Request → Database → ℕ × Database
  serve (reserve_random type draw) =
      served (reserve_random_debtor w s u retention_days header type draw)
  serve (reserve type) = served (reserve_debtor_request w s u retention_days header type debtor_id)
  serve (activate body) =
      served (activate_debtor_request w s u retention_days header body debtor_id)
  serve (deactivate type) =
      served (deactivate_debtor_request w s u retention_days header type debtor_id)
  serve (restrict body) =
      served (restrict_debtor_request w s u retention_days header body debtor_id)
  serve (update_config body) =
      served (update_config_request w s u retention_days header body debtor_id)
  serve (create body) =
      served (create_transfer w s u parse_account_uri delay current_ts header debtor_id body)
  serve (cancel type transfer_uuid) =
      served (
        cancel_transfer w s u parse_account_uri delay current_ts header debtor_id type
          transfer_uuid)
  serve (delete transfer_uuid) =
      served (delete_transfer_request w s u retention_days header debtor_id transfer_uuid)
  serve (save content_length content_type content) =
      served (post_document s w header debtor_id content_length content_type content)
