-- ===== src/Web/Isolation.antt =====
-- What the requests of a debtor may change.
use swpt_debtors.Prelude.{
  ℕ, ◌≡◌, refl, sym, ap, ◌∙◌, false, inl, inr, Option, none, some, List, String, ◌==◌, string_Eq,
  int_Eq, option_Eq, ℤ, ltb, nat_Eq, Bool-cases,
}
use mathlib.Core.Path.{subst}
use swpt_debtors.Platform.{Platform, Timestamp}
use swpt_debtors.Settings.{Settings}
use swpt_debtors.Models.{Database}
use swpt_debtors.Store.{debtor_row}
use swpt_debtors.Store.OtherLaws.{transfers_of}
use swpt_debtors.Procedures.Monad.{Error, Result, ok, err}
use swpt_debtors.Procedures.Documents.{save_document}
use swpt_debtors.Procedures.Config.{update_debtor_config}
use swpt_debtors.Procedures.Transfers.{
  initiate_running_transfer, cancel_running_transfer, delete_running_transfer,
}
use swpt_debtors.System.{committed}
use swpt_debtors.Schemas.Links.{Links}
use swpt_debtors.Schemas.Requests.{load_config, load_transfer, load_cancelation}
use swpt_debtors.Web.Users.{
  debtor_user, User, UserPatterns, Access, allowed, denied, parse_swpt_user_id_header, ensure_admin,
  ensure_debtor_permissions, debtor_access,
}
use swpt_debtors.Web.Access.{MayAccess, permissions_sound}
use swpt_debtors.Web.Response.{Response, Endpoint, answer}
use swpt_debtors.Web.Debtors.{
  config_errors, document_errors, patch_debtor_config, post_document, save_permitted,
  content_type_of,
}
use swpt_debtors.Web.Transfers.{
  AccountUri, TransferRequest, initiation_errors, cancellation_errors, deletion_errors, post_to,
  post_transfer, post_cancellation, delete_transfer_endpoint, data_of,
}
use swpt_debtors.Web.Served.{guarded, validated, create_transfer, cancel_transfer}
use swpt_debtors.Web.Handled.{
  Request, reserve_random, reserve, activate, deactivate, restrict, update_config, create, cancel,
  delete, save, serve, reserve_random_debtor, reserve_debtor_request, activate_debtor_request,
  deactivate_debtor_request, restrict_debtor_request, update_config_request,
  delete_transfer_request,
}
use swpt_debtors.Web.OtherDebtors.{
  OnlyOf, same-OnlyOf, update_config-OnlyOf, save_document-OnlyOf, initiate-OnlyOf, cancel-OnlyOf,
  delete-OnlyOf,
}

-- An endpoint that changes nothing of the other debtors
abbrev Respects : {A : Type 0} → ℤ → Endpoint A → Database → Type 0
Respects k endpoint db = OnlyOf k db (endpoint db).1

answer-Respects :
    {A : Type 0} (k : ℤ) (status : ℕ) (caught : Error → Response A) (r : Result A) (db : Database)
    → OnlyOf k db (committed r db)
    → OnlyOf k db (answer status caught r db).1
answer-Respects k status caught (ok a db') db h = h
answer-Respects k status caught (err e) db h = h

guarded-Respects :
    {A B : Type 0} (k : ℤ) (access : Access B) (endpoint : Endpoint A) (db : Database)
    → ((b : B) → access ≡ allowed b → Respects k endpoint db)
    → Respects k (guarded access endpoint) db
guarded-Respects k (denied status) endpoint db h = same-OnlyOf k db
guarded-Respects k (allowed b) endpoint db h = h b refl

validated-Respects :
    {A B : Type 0} (k : ℤ) (o : Option B) (endpoint : B → Endpoint A) (db : Database)
    → ((b : B) → Respects k (endpoint b) db)
    → Respects k (validated o endpoint) db
validated-Respects k none endpoint db h = same-OnlyOf k db
validated-Respects k (some b) endpoint db h = h b

post_transfer-Respects :
    (s : Settings) (k : ℤ) (q : TransferRequest) (o : Option AccountUri) (db : Database)
    → Respects k (post_to s k q o) db
unfolding post_to
post_transfer-Respects s k q none db = same-OnlyOf k db
post_transfer-Respects s k q (some account) db = elim (Bool-cases (account.debtor_id == k)) [
  | inr foreign ↦ rw (post_to, foreign) (same-OnlyOf k db)
  | inl own ↦
      rw (post_to, own)
        (answer-Respects k 201 initiation_errors
          (initiate_running_transfer k q.transfer_uuid (data_of q account.account_id)
            s.max_transfers_per_month db)
          db
          (initiate-OnlyOf k q.transfer_uuid (data_of q account.account_id)
            s.max_transfers_per_month db))
]

save-Respects :
    ⦃p : Platform⦄ (s : Settings) (access : Access (Option ℤ)) (k : ℤ) (content_length : Option ℕ)
    (content_type : Option String) (content : List ℕ) (db : Database)
    → Respects k (save_permitted s access k content_length content_type content) db
unfolding save_permitted
save-Respects s (denied status) k content_length content_type content db = same-OnlyOf k db
save-Respects s (allowed g) k none content_type content db = same-OnlyOf k db
save-Respects s (allowed g) k (some n) content_type content db =
    let limit = s.document_max_saves_per_year in
    elim (Bool-cases (ltb s.document_max_content_length n)) [
      | inl large ↦ rw (save_permitted, large) (same-OnlyOf k db)
      | inr fits ↦
          rw (save_permitted, fits)
            (answer-Respects k 201 document_errors
              (save_document k (content_type_of content_type) content limit db) db
              (save_document-OnlyOf k (content_type_of content_type) content limit db))
    ]

config-Respects :
    ⦃p : Platform⦄ (s : Settings) (k : ℤ) (config_data : String) (latest : ℕ) (db : Database)
    → Respects k (patch_debtor_config s k config_data latest) db
unfolding patch_debtor_config
config-Respects s k config_data latest db =
    let limit = s.max_transfers_per_month in
    answer-Respects k 200 config_errors (update_debtor_config k config_data latest limit db) db
      (update_config-OnlyOf k config_data latest limit db)

cancellation-Respects :
    (k : ℤ) (uuid : ℕ) (db : Database) → Respects k (post_cancellation k uuid) db
unfolding post_cancellation
cancellation-Respects k uuid db =
    answer-Respects k 200 cancellation_errors (cancel_running_transfer k uuid db) db
      (cancel-OnlyOf k uuid db)

deletion-Respects :
    (k : ℤ) (uuid : ℕ) (db : Database) → Respects k (delete_transfer_endpoint k uuid) db
unfolding delete_transfer_endpoint
deletion-Respects k uuid db =
    answer-Respects k 204 deletion_errors (delete_running_transfer k uuid db) db
      (delete-OnlyOf k uuid db)

-- A debtor is not let through to the administration.
not_admin :
    (w : UserPatterns) (header : Option String) (own : Option ℤ)
    → parse_swpt_user_id_header w header
      ≡ some (record { user_type = debtor_user; debtor_id = own })
    → ensure_admin w header ≡ denied 403
unfolding ensure_admin
not_admin w header own h = rw h

module _ (w : UserPatterns) (s : Settings) (header : Option String) (own : ℤ)
    (is_debtor : parse_swpt_user_id_header w header
      ≡ some (record { user_type = debtor_user; debtor_id = some own })) where
  -- A debtor is let through only to its own resources.
  own_path :
      (k : ℤ) (method : String) (g : Option ℤ)
      → ensure_debtor_permissions w s header (some k) method ≡ allowed g
      → k ≡ own
  unfolding ensure_debtor_permissions
  own_path k method g h =
      let u : User = record { user_type = debtor_user; debtor_id = some own } in
      let access : debtor_access w s (some u) (some k) method ≡ allowed g =
        ap (λ o. debtor_access w s o (some k) method) (sym is_debtor) ∙ h in
      own_of (permissions_sound w s u k method g access).1
    where
      own_of :
          MayAccess (record { user_type = debtor_user; debtor_id = some own }) k method → k ≡ own
      own_of (inl e) = cc
      own_of (inr (inl e)) = cc
      own_of (inr (inr e)) = cc

  permitted-Respects :
      {A : Type 0} (k : ℤ) (method : String) (endpoint : Endpoint A) (db : Database)
      → Respects k endpoint db
      → Respects own (guarded (ensure_debtor_permissions w s header (some k) method) endpoint) db
  permitted-Respects k method endpoint db h =
      guarded-Respects own (ensure_debtor_permissions w s header (some k) method) endpoint db
        λ g allowed_g. subst (λ i. Respects i endpoint db) (own_path k method g allowed_g) h

  document-Respects :
      ⦃p : Platform⦄ (k : ℤ) (content_length : Option ℕ) (content_type : Option String)
      (content : List ℕ) (db : Database) (access : Access (Option ℤ))
      → ((g : Option ℤ) → access ≡ allowed g → k ≡ own)
      → Respects own (save_permitted s access k content_length content_type content) db
  document-Respects k content_length content_type content db (denied status) h =
      unfold save_permitted in same-OnlyOf own db
  document-Respects k content_length content_type content db (allowed g) h =
      subst
        (λ i. Respects i (save_permitted s (allowed g) k content_length content_type content) db)
        (h g refl) (save-Respects s (allowed g) k content_length content_type content db)

  -- Whatever a debtor requests, on whatever path, the row and the transfers of every other debtor are
  -- as before.
  pub requests_isolated :
      ⦃p : Platform⦄ (u : Links) (retention_days : ℕ)
      (parse_account_uri : String → Option AccountUri) (delay : ℕ) (current_ts : Timestamp) (k : ℤ)
      (q : Request) (db : Database) (j : ℤ)
      → (j == own) ≡ false
      → let db' = (serve w s u retention_days parse_account_uri delay current_ts header k q db).1 in
        (debtor_row j db'.debtors ≡ debtor_row j db.debtors)
        × (transfers_of j db'.running_transfers ≡ transfers_of j db.running_transfers)
  unfolding serve
  requests_isolated u retention parse delay current_ts k (reserve_random type draw) db j other =
      unfold reserve_random_debtor in rw (not_admin w header (some own) is_debtor) (refl, refl)
  requests_isolated u retention parse delay current_ts k (reserve type) db j other =
      unfold reserve_debtor_request in rw (not_admin w header (some own) is_debtor) (refl, refl)
  requests_isolated u retention parse delay current_ts k (activate body) db j other =
      unfold activate_debtor_request in rw (not_admin w header (some own) is_debtor) (refl, refl)
  requests_isolated u retention parse delay current_ts k (deactivate type) db j other =
      unfold deactivate_debtor_request in rw (not_admin w header (some own) is_debtor) (refl, refl)
  requests_isolated u retention parse delay current_ts k (restrict body) db j other =
      unfold restrict_debtor_request in rw (not_admin w header (some own) is_debtor) (refl, refl)
  requests_isolated u retention parse delay current_ts k (update_config body) db j other =
      unfold update_config_request in
      permitted-Respects k "PATCH" _ db
        (validated-Respects k (load_config body) _ db
          λ q. config-Respects s k q.config_data q.latest_update_id db)
        j other
  requests_isolated u retention parse delay current_ts k (create body) db j other =
      unfold create_transfer post_transfer in
      permitted-Respects k "POST" _ db
        (validated-Respects k (load_transfer body) _ db
          λ q. post_transfer-Respects s k q (parse q.recipient_uri) db)
        j other
  requests_isolated u retention parse delay current_ts k (cancel type uuid) db j other =
      unfold cancel_transfer in
      permitted-Respects k "POST" _ db
        (validated-Respects k (load_cancelation type) _ db λ _. cancellation-Respects k uuid db) j
        other
  requests_isolated u retention parse delay current_ts k (delete uuid) db j other =
      unfold delete_transfer_request in
      permitted-Respects k "DELETE" _ db (deletion-Respects k uuid db) j other
  requests_isolated u retention parse delay current_ts k (save length type content) db j other =
      unfold post_document in
      document-Respects k length type content db
        (ensure_debtor_permissions w s header (some k) "POST") (own_path k "POST") j other
