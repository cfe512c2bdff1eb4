-- ===== src/Web/Crawled.antt =====
-- What a client gets that follows the links of the list of debtors.
use swpt_debtors.Prelude.{
  ℕ, zero, suc, ◌+◌, ◌≤◌, ◌≡◌, refl, sym, ap, ◌∙◌, Bool, false, Option, none, some, List, [], ◌∷◌,
  ◌++◌, All, map, String, ℤ, leb_ℤ, inl, inr, Bool-cases, select_rows,
}
use mathlib.Core.Path.{subst}
use swpt_debtors.Platform.{Platform, Timestamp}
use swpt_debtors.Settings.{Settings, is_valid_debtor_id}
use swpt_debtors.Models.{Database, min_int64}
use swpt_debtors.Procedures.Monad.{ok}
use swpt_debtors.Procedures.Listing.{active_ids, length_ids, sort_ids, get_debtor_ids}
use swpt_debtors.Schemas.Links.{Links, ListLinks}
use swpt_debtors.Schemas.Listing.{
  ObjectReference, debtors_list, debtor_uri, debtors_page, next_link,
}
use swpt_debtors.System.{Event, run, empty}
use swpt_debtors.Web.Users.{UserPatterns, allowed, ensure_admin}
use swpt_debtors.Web.Response.{reply}
use swpt_debtors.Web.Admin.{get_debtors_page}
use swpt_debtors.Web.Listing.{show_debtors_list, show_debtors_page, get_page, read_on, crawl}
use swpt_debtors.Behaviour.Enumeration.{
  all_from, enumerate, page_of, enough_pages, with_next, follow, enumerate_complete,
}
use swpt_debtors.Behaviour.Sorted.{All-sort, All-select}
use swpt_debtors.Behaviour.Pages.{drop_ids, first_id, All-drop}
use swpt_debtors.Invariants.DebtorKeys.{Unique}
use swpt_debtors.Invariants.DebtorRuns.{run-Unique}
use swpt_debtors.Invariants.Listed.{Unique-DistinctIds}

map-append {ℓ} : {A : Type ℓ} (f : ℤ → A) (xs ys : List ℤ) → map f (xs ++ ys) ≡ map f xs ++ map f ys
map-append f [] ys = refl
map-append f (x ∷ xs) ys = ap (◌∷◌ (f x)) (map-append f xs ys)

select-append :
    (p : ℤ → Bool) (xs ys : List ℤ)
    → select_rows p (xs ++ ys) ≡ select_rows p xs ++ select_rows p ys
unfolding select_rows
select-append p [] ys = refl
select-append p (x ∷ xs) ys = elim (Bool-cases (p x)) [
  | inl e ↦ rw e (ap (◌∷◌ x) (select-append p xs ys))
  | inr e ↦ rw e (select-append p xs ys)
]

module _ (s : Settings) (u : Links) where
  -- The references to the debtors that are valid for this node
  abbrev pub references : List ℤ → List ObjectReference
  references ids = map (debtor_uri u) (select_rows (λ k. is_valid_debtor_id s k false) ids)

  references-append : (xs ys : List ℤ) → references (xs ++ ys) ≡ references xs ++ references ys
  references-append xs ys =
      ap (map (debtor_uri u)) (select-append (λ k. is_valid_debtor_id s k false) xs ys)
      ∙ map-append (debtor_uri u) (select_rows (λ k. is_valid_debtor_id s k false) xs)
          (select_rows (λ k. is_valid_debtor_id s k false) ys)

module _ (w : UserPatterns) (s : Settings) (u : Links) (v : ListLinks) (header : Option String)
    (route : String → Option ℤ) where
  page_shown :
      (g : Bool) (k : ℤ) (page : List ℤ × Option ℤ) (db db' : Database)
      → ensure_admin w header ≡ allowed g
      → route (v.enumerate k) ≡ some k
      → get_debtor_ids k s.debtors_per_page db ≡ ok page db'
      → get_page w s u v header route (v.enumerate k) db
        ≡ reply 200 (
            debtors_page u v
              (v.enumerate k)
              (select_rows (λ i. is_valid_debtor_id s i false) page.0, page.1))
  unfolding show_debtors_page get_debtors_page
  page_shown g k page db db' admin routed found =
      rw (get_page, routed) (rw admin (rw (get_debtors_page, found)))

  -- A page and those that it links to, as the procedure gives them
  page_read :
      (k : ℤ) (page : List ℤ × Option ℤ) (rest : ℤ → List ℤ)
      (next_page : String → List ObjectReference)
      → ((j : ℤ) → page.1 ≡ some j → next_page (v.enumerate j) ≡ references s u (rest j))
      → read_on w s u v header route
          (reply 200 (
            debtors_page u v
              (v.enumerate k)
              (select_rows (λ i. is_valid_debtor_id s i false) page.0, page.1)))
          next_page
        ≡ references s u (with_next page.0 page.1 rest)
  unfolding debtors_page next_link
  page_read k (items, none) rest next_page later = refl
  page_read k (items, some j) rest next_page later =
      ap (λ xs. references s u items ++ xs) (later j refl)
      ∙ sym (references-append s u items (rest j))

  -- The server finds the debtor in the link to the page that starts with it.
  abbrev pub Routed : ℤ → Type 0
  Routed k = route (v.enumerate k) ≡ some k

  next-Routed :
      (k j : ℤ) (db : Database)
      → All Routed (active_ids db)
      → first_id (drop_ids s.debtors_per_page (all_from k db)) ≡ some j
      → Routed j
  next-Routed k j db routed next = go (drop_ids s.debtors_per_page (all_from k db)) refl next
    where
      go :
          (xs : List ℤ)
          → drop_ids s.debtors_per_page (all_from k db) ≡ xs
          → first_id xs ≡ some j
          → Routed j
      go [] e h = absurd cc
      go (x ∷ rest) e h =
          let same : x ≡ j = cc in
          subst Routed same (
            All-drop Routed s.debtors_per_page x (all_from k db) rest e (
              All-select k Routed (sort_ids (active_ids db))
                (All-sort Routed (active_ids db) routed)))

  crawl-eq-enumerate :
      (g : Bool) (fuel : ℕ) (k : ℤ) (db : Database)
      → ensure_admin w header ≡ allowed g
      → 1 ≤ s.debtors_per_page
      → Routed k
      → All Routed (active_ids db)
      → crawl w s u v header route fuel (v.enumerate k) db
        ≡ references s u (enumerate fuel k s.debtors_per_page db)
  unfolding crawl enumerate select_rows
  crawl-eq-enumerate g zero k db admin positive start routed = refl
  crawl-eq-enumerate g (suc fuel) k db admin positive start routed =
      let found = page_of k s.debtors_per_page db positive in
      ap (λ r. read_on w s u v header route r (λ link. crawl w s u v header route fuel link db))
        (page_shown g k _ db db admin start found)
      ∙ page_read k _ (λ j. enumerate fuel j s.debtors_per_page db)
          (λ link. crawl w s u v header route fuel link db)
          (λ j next.
            crawl-eq-enumerate g fuel j db admin positive (next-Routed k j db routed next) routed)
      ∙ ap (references s u)
          (sym (ap (λ r. follow r (λ j. enumerate fuel j s.debtors_per_page db)) found))

  -- The header is that of a user who is let through to the administration, and the server finds the
  -- debtor in each link that it makes: those to the first page, and to the pages that start with an
  -- active debtor. In a database reached from an empty one, a client that
  -- starts at the first page of the list of debtors and follows the links gets, in increasing order,
  -- the reference of each active debtor that is valid for this node, and no other; it needs at most
  -- one page more than there are active debtors.
  pub list_of_debtors_complete :
      ⦃p : Platform⦄ (g : Bool) (es : List Event) (clock : ℕ → Timestamp) (db : Database) (fuel : ℕ)
      → ensure_admin w header ≡ allowed g
      → 1 ≤ s.debtors_per_page
      → All Routed (min_int64 ∷ active_ids db)
      → db ≡ run s es (empty clock)
      → length_ids (active_ids db) + 1 ≤ fuel
      → (show_debtors_list w s u v header db ≡ (reply 200 (debtors_list v), db))
        × (crawl w s u v header route fuel (debtors_list v).first db
            ≡ references s u (select_rows (leb_ℤ min_int64) (sort_ids (active_ids db))))
  unfolding show_debtors_list debtors_list
  list_of_debtors_complete g es clock db fuel admin positive routed reached enough =
      let unique : Unique db.debtors =
        subst (λ x. Unique x.debtors) (sym reached) (run-Unique s es clock) in
      let distinct = Unique-DistinctIds db.debtors unique in
      (
        rw admin,
        crawl-eq-enumerate g fuel min_int64 db admin positive routed.0 routed.1
            ∙ ap (references s u) (
                enumerate_complete fuel min_int64 s.debtors_per_page db positive distinct
                  (enough_pages fuel min_int64 db enough)),
      )
