-- ===== src/Web/Served.antt =====
-- Whole requests about transfers: the permissions (`before_request`), the schema of the request
-- (`arguments`, which answers 422), the endpoint, and the schema of the answer (`response`).
use swpt_debtors.Prelude.{ℕ, Option, none, some, String, ℤ}
use swpt_debtors.Platform.{Timestamp}
use swpt_debtors.Settings.{Settings}
use swpt_debtors.Schemas.Links.{Links}
use swpt_debtors.Schemas.Requests.{TransferBody, load_transfer, load_cancelation}
use swpt_debtors.Schemas.Transfers.{TransferView, dump_transfer}
use swpt_debtors.Schemas.Views.{TransfersListView, dump_transfers_list}
use swpt_debtors.Web.Users.{UserPatterns, Access, allowed, denied, ensure_debtor_permissions}
use swpt_debtors.Web.Response.{Response, reply, redirected, aborted, Endpoint, abort}
use swpt_debtors.Web.Transfers.{
  AccountUri, post_transfer, get_transfer, get_transfers, post_cancellation,
}

module _ {A B : Type 0} where
  -- `ensure_debtor_permissions` runs first.
  abbrev pub guarded : Access B → Endpoint A → Endpoint A
  guarded (denied status) endpoint = abort status
  guarded (allowed _) endpoint = endpoint

  -- Then the body is loaded.
  abbrev pub validated : Option B → (B → Endpoint A) → Endpoint A
  validated none endpoint = abort 422
  validated (some b) endpoint = endpoint b

  abbrev pub render : (A → B) → Response A → Response B
  render dump (reply status a) = reply status (dump a)
  render dump (redirected status) = redirected status
  render dump (aborted status) = aborted status

  -- At last the answer is rendered.
  abbrev pub rendered : (A → B) → Endpoint A → Endpoint B
  rendered dump endpoint db = (let r = endpoint db in (render dump r.0, r.1))

-- `current_ts` is the time that `calc_checkup_datetime` reads when the answer is rendered: every
-- request has its own.
module _ (w : UserPatterns) (s : Settings) (u : Links)
    (parse_account_uri : String → Option AccountUri) (delay : ℕ) (current_ts : Timestamp)
    (header : Option String) (debtor_id : ℤ) where
  unfoldable pub create_transfer : TransferBody → Endpoint TransferView
  create_transfer body = guarded (ensure_debtor_permissions w s header (some debtor_id) "POST") (
      validated (load_transfer body) λ q.
        rendered (dump_transfer u delay current_ts) (post_transfer s parse_account_uri debtor_id q))

  unfoldable pub show_transfer : ℕ → Endpoint TransferView
  show_transfer transfer_uuid =
      guarded (ensure_debtor_permissions w s header (some debtor_id) "GET")
        (rendered (dump_transfer u delay current_ts) (get_transfer debtor_id transfer_uuid))

  unfoldable pub cancel_transfer : Option String → ℕ → Endpoint TransferView
  cancel_transfer type transfer_uuid =
      guarded (ensure_debtor_permissions w s header (some debtor_id) "POST") (
        validated (load_cancelation type) λ _.
          rendered (dump_transfer u delay current_ts) (post_cancellation debtor_id transfer_uuid))

  unfoldable pub list_transfers : Endpoint TransfersListView
  list_transfers =
      guarded (ensure_debtor_permissions w s header (some debtor_id) "GET")
        (rendered (dump_transfers_list u debtor_id) (get_transfers debtor_id))
