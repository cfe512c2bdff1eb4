-- ===== src/Web/Listing.antt =====
-- Whole requests for the list of debtors and its pages, and a client that follows the links.
use swpt_debtors.Prelude.{ℕ, zero, suc, Option, none, some, List, [], ◌++◌, String, ℤ}
use swpt_debtors.Settings.{Settings}
use swpt_debtors.Models.{Database}
use swpt_debtors.Schemas.Links.{Links, ListLinks}
use swpt_debtors.Schemas.Listing.{
  DebtorsListView, ObjectReference, ObjectReferencesPage, debtors_list, debtors_page,
}
use swpt_debtors.Web.Users.{UserPatterns, ensure_admin}
use swpt_debtors.Web.Response.{Response, reply, redirected, aborted, Endpoint}
use swpt_debtors.Web.Admin.{get_debtors_page}
use swpt_debtors.Web.Served.{guarded, rendered}

module _ (w : UserPatterns) (s : Settings) (u : Links) (v : ListLinks)
    (header : Option String) where
  -- `DebtorsListEndpoint.get`
  unfoldable pub show_debtors_list : Endpoint DebtorsListView
  unfolding debtors_list
  show_debtors_list = guarded (ensure_admin w header) (λ db. (reply 200 (debtors_list v), db))

  -- `DebtorEnumerateEndpoint.get`
  unfoldable pub show_debtors_page : String → ℤ → Endpoint ObjectReferencesPage
  unfolding debtors_page get_debtors_page
  show_debtors_page full_path debtor_id =
      guarded (ensure_admin w header)
        (rendered (debtors_page u v full_path) (get_debtors_page s debtor_id))

  -- A client that asks for a page by its link and then for those that it links to. `route` is the
  -- routing of the server: the debtor identifier in the path of a page.
  module _ (route : String → Option ℤ) where
    abbrev pub get_page : String → Database → Response ObjectReferencesPage
    get_page link db = elim (route link) [
      | none ↦ aborted 404
      | some debtor_id ↦ (show_debtors_page link debtor_id db).0
    ]

    abbrev pub read_on :
        Response ObjectReferencesPage → (String → List ObjectReference) → List ObjectReference
    read_on (reply status page) rest = elim page.next [
      | none ↦ page.items
      | some link ↦ page.items ++ rest link
    ]
    read_on (redirected status) rest = []
    read_on (aborted status) rest = []

    unfoldable pub crawl : ℕ → String → Database → List ObjectReference
    crawl zero link db = []
    crawl (suc fuel) link db = read_on (get_page link db) (λ next. crawl fuel next db)
