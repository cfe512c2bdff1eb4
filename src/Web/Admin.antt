-- ===== src/Web/Admin.antt =====
-- The endpoints of `admin_api`.
use swpt_debtors.Prelude.{
  List, select_rows, ℕ, zero, suc, Bool, false, not, Option, none, some, String, ℤ, if◌then◌else◌,
}
use swpt_debtors.Platform.{Platform}
use swpt_debtors.Settings.{Settings, is_valid_debtor_id}
use swpt_debtors.Models.{Debtor}
use swpt_debtors.Procedures.Monad.{
  Error, ok, err, debtor_exists, invalid_reservation_id, debtor_does_not_exist,
}
use swpt_debtors.Procedures.Decimal.{str_of_id}
use swpt_debtors.Procedures.Debtors.{
  reserve_debtor, activate_debtor, deactivate_debtor, restrict_debtor,
}
use swpt_debtors.Procedures.Listing.{get_debtor_ids}
use swpt_debtors.Web.Response.{Response, reply, aborted, Endpoint, abort, answer}

module _ {A : Type 0} where
  unfoldable pub reservation_errors : Error → Response A
  reservation_errors debtor_exists = aborted 409
  reservation_errors _ = aborted 500

  unfoldable pub activation_errors : Error → Response A
  activation_errors debtor_exists = aborted 409
  activation_errors invalid_reservation_id = aborted 422
  activation_errors _ = aborted 500

  unfoldable pub restriction_errors : Error → Response A
  restriction_errors debtor_does_not_exist = aborted 404
  restriction_errors _ = aborted 500

  -- Nothing is caught.
  abbrev pub uncaught : Error → Response A
  uncaught _ = aborted 500

module _ (s : Settings) where
  -- `RandomDebtorReserveEndpoint.post`, with the numbers that `randint` draws: at most `attempts`
  unfoldable pub reserve_random : ℕ → (ℕ → ℤ) → Endpoint Debtor
  reserve_random zero draw db = (aborted 500, db)
  reserve_random (suc attempts) draw db =
      let rest = reserve_random attempts (λ n. draw (suc n)) db in
      if not (is_valid_debtor_id s (draw 0) false)
      then (aborted 500, db)
      else elim (reserve_debtor (draw 0) db) [
        | ok debtor db' ↦ (reply 200 debtor, db')
        | err e ↦ elim e [ debtor_exists ↦ rest | _ ↦ (aborted 500, db) ]
      ]

  unfoldable pub post_random_debtor_reserve : (ℕ → ℤ) → Endpoint Debtor
  unfolding reserve_random
  post_random_debtor_reserve draw = reserve_random 100 draw

  unfoldable pub post_debtor_reserve : ℤ → Endpoint Debtor
  unfolding reservation_errors
  post_debtor_reserve debtor_id =
      if not (is_valid_debtor_id s debtor_id false) then abort 404 else λ db.
      answer 200 reservation_errors (reserve_debtor debtor_id db) db

  -- `DebtorEnumerateEndpoint.get`: the debtors of the page that are valid here, and the next one
  unfoldable pub get_debtors_page : ℤ → Endpoint (List ℤ × Option ℤ)
  get_debtors_page debtor_id db = elim (get_debtor_ids debtor_id s.debtors_per_page db) [
    | ok page db' ↦
        (reply 200 (select_rows (λ k. is_valid_debtor_id s k false) page.0, page.1), db')
    | err e ↦ (aborted 500, db)
  ]

  module _ ⦃p : Platform⦄ where
    unfoldable pub activate_with : ℤ → String → Endpoint Debtor
    unfolding activation_errors
    activate_with debtor_id reservation_id db =
        answer 200 activation_errors (activate_debtor debtor_id reservation_id db) db

    -- Without a reservation identifier the debtor is reserved first, in a transaction of its own.
    unfoldable pub activate_or_reserve : ℤ → Option String → Endpoint Debtor
    unfolding activate_with activation_errors
    activate_or_reserve debtor_id (some reservation_id) db =
        activate_with debtor_id reservation_id db
    activate_or_reserve debtor_id none db = elim (reserve_debtor debtor_id db) [
      | ok debtor db' ↦ activate_with debtor_id (str_of_id debtor.reservation_id) db'
      | err e ↦ (activation_errors e, db)
    ]

    unfoldable pub post_debtor_activate : ℤ → Option String → Endpoint Debtor
    unfolding activate_or_reserve
    post_debtor_activate debtor_id optional_reservation_id =
        if not (is_valid_debtor_id s debtor_id false)
        then abort 404
        else activate_or_reserve debtor_id optional_reservation_id

    unfoldable pub post_debtor_deactivate : Bool → ℤ → Endpoint (Unit {0})
    post_debtor_deactivate superuser debtor_id =
        if not (is_valid_debtor_id s debtor_id false)
        then abort 404
        else if not superuser
        then abort 403
        else λ db. answer 204 uncaught (deactivate_debtor debtor_id db) db

    unfoldable pub post_debtor_restrict : Bool → ℤ → ℤ → Endpoint Debtor
    unfolding restriction_errors
    post_debtor_restrict superuser debtor_id min_balance =
        if not (is_valid_debtor_id s debtor_id false)
        then abort 404
        else if not superuser
        then abort 403
        else λ db. answer 200 restriction_errors (restrict_debtor debtor_id min_balance db) db
