-- ===== src/Schemas/Listing.antt =====
-- How the list of debtors and its pages are rendered: DebtorsListSchema, ObjectReferenceSchema and
-- ObjectReferencesPageSchema.
use swpt_debtors.Prelude.{Option, none, some, List, map, String, ℤ}
use swpt_debtors.Models.{min_int64}
use swpt_debtors.Schemas.Links.{Links, ListLinks}

-- DebtorsListSchema
pub record DebtorsListView : Type 0 where
  pub uri : String
  pub items_type : String
  pub first : String

-- ObjectReferenceSchema
pub record ObjectReference : Type 0 where
  pub uri : String

-- ObjectReferencesPageSchema; the last page has no `next`.
pub record ObjectReferencesPage : Type 0 where
  pub uri : String
  pub items : List ObjectReference
  pub next : Option String

-- What `DebtorsListEndpoint.get` returns; the first page starts from the least identifier.
unfoldable pub debtors_list : ListLinks → DebtorsListView
debtors_list u = record {
  uri = u.debtors_list;
  items_type = "ObjectReference";
  first = u.enumerate min_int64;
}

unfoldable pub debtor_uri : Links → ℤ → ObjectReference
debtor_uri u debtor_id = record { uri = u.debtor debtor_id }

unfoldable pub next_link : ListLinks → Option ℤ → Option String
next_link u none = none
next_link u (some next_debtor_id) = some (u.enumerate next_debtor_id)

-- `full_path` is the path of the request.
unfoldable pub debtors_page : Links → ListLinks → String → List ℤ × Option ℤ → ObjectReferencesPage
unfolding debtor_uri next_link
debtors_page u v full_path (debtor_ids, next_debtor_id) = record {
  uri = full_path;
  items = map (debtor_uri u) debtor_ids;
  next = next_link v next_debtor_id;
}
