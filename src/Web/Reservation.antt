-- ===== src/Web/Reservation.antt =====
-- The reservation that a client gets, and the activation that it requests with it.
use swpt_debtors.Prelude.{ℕ, ◌≡◌, refl, ap, ◌∙◌, true, false, none, some, String, ℤ}
use swpt_debtors.Platform.{Platform}
use swpt_debtors.Settings.{Settings, is_valid_debtor_id}
use swpt_debtors.Models.{Database, Debtor, is_active, new_debtor}
use swpt_debtors.Store.{debtor_row}
use swpt_debtors.Procedures.Decimal.{str_of_id}
use swpt_debtors.Procedures.Monad.{ok}
use swpt_debtors.Procedures.Debtors.{reserve_debtor, activate_debtor}
use swpt_debtors.System.{committed}
use swpt_debtors.Behaviour.Activation.{reserved, activated, reserve_then_activate}
use swpt_debtors.Schemas.Links.{Links}
use swpt_debtors.Schemas.Requests.{ActivationBody, load_activation}
use swpt_debtors.Schemas.Views.{ReservationView, dump_reservation, reservation_text}
use swpt_debtors.Web.Response.{reply}
use swpt_debtors.Web.Admin.{
  post_debtor_reserve, post_debtor_activate, activate_or_reserve, activate_with,
}

-- The activation request of a client that has got a reservation
abbrev pub activation_of : ReservationView → ActivationBody
activation_of view = record {
  type = some "DebtorActivationRequest";
  reservation_id = some view.reservation_id;
}

module _ ⦃p : Platform⦄ (s : Settings) where
  activation_answered :
      (k : ℤ) (text : String) (d : Debtor) (db db' : Database)
      → is_valid_debtor_id s k false ≡ true
      → activate_debtor k text db ≡ ok d db'
      → post_debtor_activate s k (some text) db ≡ (reply 200 d, db')
  unfolding post_debtor_activate activate_or_reserve activate_with
  activation_answered k text d db db' valid done = rw (valid, done) refl

  reservation_answered :
      (k : ℤ) (d : Debtor) (db db' : Database)
      → is_valid_debtor_id s k false ≡ true
      → reserve_debtor k db ≡ ok d db'
      → post_debtor_reserve s k db ≡ (reply 200 d, db')
  unfolding post_debtor_reserve
  reservation_answered k d db db' valid done = rw (valid, done) refl

  -- A free and valid debtor identifier can be reserved. The rendered reservation has a text that,
  -- sent back in a request, is accepted and activates the debtor.
  pub reservation_activates :
      (u : Links) (retention_days : ℕ) (k : ℤ) (db : Database)
      → is_valid_debtor_id s k false ≡ true
      → debtor_row k db.debtors ≡ none
      → let d = reserved k db in
        let r = post_debtor_reserve s k db in
        let view = dump_reservation u retention_days d in
        let d' = activated (r.1.clock r.1.readings) d in
        let r' = post_debtor_activate s k (some view.reservation_id) r.1 in
        (r.0 ≡ reply 200 d)
        × (load_activation (activation_of view) ≡ some (some view.reservation_id))
        × (r'.0 ≡ reply 200 d')
        × (debtor_row k r'.1.debtors ≡ some d')
        × (is_active d' ≡ true)
  unfolding dump_reservation reservation_text load_activation new_debtor
  reservation_activates u retention_days k db valid free =
      let d = reserved k db in
      let db' = committed (reserve_debtor k db) db in
      let made = reserve_then_activate k db free in
      let first = reservation_answered k d db db' valid made.0 in
      let d' = activated (db'.clock db'.readings) d in
      let r = activate_debtor k (str_of_id d.reservation_id) db' in
      let second : post_debtor_activate s k (some (reservation_text d.reservation_id)) db'
          ≡ (reply 200 d', committed r db') =
        activation_answered k (str_of_id d.reservation_id) d' db' (committed r db') valid made.2 in
      rw first (
        refl,
        refl,
        ap (λ x. x.0) second,
        ap (λ x. debtor_row k x.1.debtors) second ∙ made.3,
        made.4,
      )
