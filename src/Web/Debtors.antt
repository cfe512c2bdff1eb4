-- ===== src/Web/Debtors.antt =====
-- The endpoints of `debtors_api` and `documents_api`.
use swpt_debtors.Prelude.{
  ℕ, ltb, false, not, Option, none, some, List, String, ◌==◌, string_Eq, ℤ, if◌then◌else◌,
}
use swpt_debtors.Platform.{Platform}
use swpt_debtors.Settings.{Settings, is_valid_debtor_id}
use swpt_debtors.Models.{Debtor, Document}
use swpt_debtors.Procedures.Monad.{
  Error, update_conflict, debtor_does_not_exist, too_many_management_actions,
  too_many_saved_documents,
}
use swpt_debtors.Procedures.Debtors.{get_active_debtor}
use swpt_debtors.Procedures.Config.{update_debtor_config}
use swpt_debtors.Procedures.Documents.{save_document, get_document}
use swpt_debtors.Web.Users.{UserPatterns, Access, allowed, denied, ensure_debtor_permissions}
use swpt_debtors.Web.Response.{
  Response, reply, redirected, aborted, Endpoint, abort, answer, found_or,
}

module _ {A : Type 0} where
  unfoldable pub config_errors : Error → Response A
  config_errors too_many_management_actions = aborted 403
  config_errors debtor_does_not_exist = aborted 404
  config_errors update_conflict = aborted 409
  config_errors _ = aborted 500

  unfoldable pub document_errors : Error → Response A
  document_errors too_many_saved_documents = aborted 403
  document_errors debtor_does_not_exist = aborted 404
  document_errors _ = aborted 500

-- `RedirectToDebtorEndpoint.get`: the debtor of the user, if there is one
unfoldable pub get_own_debtor : Option ℤ → Endpoint (Unit {0})
get_own_debtor none db = (reply 204 tt, db)
get_own_debtor (some debtor_id) db = (redirected 303, db)

unfoldable pub get_debtor_endpoint : ℤ → Endpoint Debtor
unfolding get_active_debtor
get_debtor_endpoint debtor_id db = found_or 403 (get_active_debtor debtor_id db) db

unfoldable pub get_debtor_config : ℤ → Endpoint Debtor
unfolding get_active_debtor
get_debtor_config debtor_id db = found_or 404 (get_active_debtor debtor_id db) db

-- An absent link and an empty one are both false.
unfoldable pub redirect_to_link : Option Debtor → Endpoint (Unit {0})
redirect_to_link none db = (aborted 410, db)
redirect_to_link (some debtor) db = elim debtor.debtor_info_iri [
  | none ↦ (aborted 404, db)
  | some iri ↦ (if iri == "" then aborted 404 else redirected 302, db)
]

-- `request.content_type or "text/html; charset=utf-8"`
unfoldable pub content_type_of : Option String → String
content_type_of none = "text/html; charset=utf-8"
content_type_of (some content_type) =
    if content_type == "" then "text/html; charset=utf-8" else content_type

module _ (s : Settings) where
  unfoldable pub get_debtors_info : ℤ → Endpoint (Unit {0})
  unfolding get_active_debtor redirect_to_link
  get_debtors_info debtor_id =
      if not (is_valid_debtor_id s debtor_id false) then abort 404 else λ db.
      redirect_to_link (get_active_debtor debtor_id db) db

  unfoldable pub get_document_endpoint : ℤ → ℕ → Endpoint Document
  unfolding get_document
  get_document_endpoint debtor_id document_id =
      if not (is_valid_debtor_id s debtor_id false) then abort 404 else λ db.
      found_or 404 (get_document debtor_id document_id db) db

  -- Without a `Content-Length` the comparison with the limit raises a `TypeError`.
  unfoldable pub save_permitted :
      Access (Option ℤ) → ℤ → Option ℕ → Option String → List ℕ → Endpoint Document
  unfolding document_errors content_type_of
  save_permitted (denied status) debtor_id content_length content_type content db =
      (aborted status, db)
  save_permitted (allowed _) debtor_id none content_type content db = (aborted 500, db)
  save_permitted (allowed _) debtor_id (some content_length) content_type content db =
      if ltb s.document_max_content_length content_length
      then (aborted 413, db)
      else answer 201 document_errors
          (save_document debtor_id (content_type_of content_type) content
            s.document_max_saves_per_year db)
          db

  -- `SaveDocumentEndpoint.post` tests the permissions itself.
  unfoldable pub post_document :
      UserPatterns → Option String → ℤ → Option ℕ → Option String → List ℕ → Endpoint Document
  unfolding save_permitted
  post_document w header debtor_id content_length content_type content =
      save_permitted (ensure_debtor_permissions w s header (some debtor_id) "POST") debtor_id
        content_length content_type content

  module _ ⦃p : Platform⦄ where
    unfoldable pub patch_debtor_config : ℤ → String → ℕ → Endpoint Debtor
    unfolding config_errors
    patch_debtor_config debtor_id config_data latest_update_id db =
        answer 200 config_errors
          (update_debtor_config debtor_id config_data latest_update_id s.max_transfers_per_month db)
          db
