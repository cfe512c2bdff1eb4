-- ===== src/Web/Outcomes.antt =====
-- What the endpoints answer, requests that are made again included.
use swpt_debtors.Prelude.{
  ℕ, ◌≡◌, refl, sym, ap, ◌∙◌, true, false, ◌≤◌, ◌⊎◌, inl, inr, Option, none, some, String, ◌==◌,
  string_Eq, int_Eq, int_eq_iff, nat_Eq, ℤ, arith,
}
use swpt_debtors.Platform.{Platform}
use swpt_debtors.Settings.{Settings, is_valid_debtor_id}
use swpt_debtors.Models.{Database, Debtor, is_active}
use swpt_debtors.Store.{debtor_row, transfer_row, count_uuid, delete_transfer, uncount_transfer}
use swpt_debtors.Store.TransferLaws.{
  transfer_row-delete_self, count_uuid-delete_self, transfer_row-count_uuid,
}
use swpt_debtors.Procedures.Monad.{ok}
use swpt_debtors.Procedures.Decimal.{str_of_id}
use swpt_debtors.Procedures.Debtors.{reserve_debtor, activate_debtor}
use swpt_debtors.Procedures.Transfers.{initiate_running_transfer, delete_running_transfer}
use swpt_debtors.System.{committed}
use swpt_debtors.Behaviour.Activation.{reserve_then_activate, reserved, activated}
use swpt_debtors.Behaviour.Initiation.{initiate_starts, initiated, debtor_refusal}
use swpt_debtors.Web.Response.{reply, redirected}
use swpt_debtors.Web.Admin.{activate_with, activate_or_reserve, post_debtor_activate}
use swpt_debtors.Web.Transfers.{
  AccountUri, TransferRequest, data_of, post_transfer, delete_transfer_endpoint,
}

module _ (s : Settings) where
  -- The first request to initiate a transfer is answered with 201 and the transfer; the same
  -- request again is answered with a redirection, and changes nothing.
  pub post_transfer_again :
      (parse_account_uri : String → Option AccountUri) (k : ℤ) (q : TransferRequest)
      (account : AccountUri) (d : Debtor) (db : Database)
      → parse_account_uri q.recipient_uri ≡ some account
      → account.debtor_id ≡ k
      → transfer_row k q.transfer_uuid db.running_transfers ≡ none
      → debtor_row k db.debtors ≡ some d
      → is_active d ≡ true
      → debtor_refusal (some d) s.max_transfers_per_month (db.clock db.readings) ≡ none
      → let rt = initiated k q.transfer_uuid (data_of q account.account_id) db in
        let r = post_transfer s parse_account_uri k q db in
        (r.0 ≡ reply 201 rt)
        × (transfer_row k q.transfer_uuid r.1.running_transfers ≡ some rt)
        × (post_transfer s parse_account_uri k q r.1 ≡ (redirected 303, r.1))
  unfolding post_transfer
  post_transfer_again parse_account_uri k q account d db parsed own free row active fits =
      let t = data_of q account.account_id in
      let limit = s.max_transfers_per_month in
      let done = initiate_starts k q.transfer_uuid t limit d db free row active fits in
      let rt = initiated k q.transfer_uuid t db in
      let db' = committed (initiate_running_transfer k q.transfer_uuid t limit db) db in
      let same : (account.debtor_id == k) ≡ true = (int_eq_iff account.debtor_id k).1 own in
      let first : post_transfer s parse_account_uri k q db ≡ (reply 201 rt, db') =
        rw (parsed, same, done.0) refl in
      let second : post_transfer s parse_account_uri k q db' ≡ (redirected 303, db') =
        rw (parsed, same, done.7) refl in
      (
        ap (λ x. x.0) first,
        ap (λ x. transfer_row k q.transfer_uuid x.1.running_transfers) first ∙ done.1,
        ap (λ x. post_transfer s parse_account_uri k q x.1) first
            ∙ second
            ∙ ap (λ x. (redirected 303, x.1)) (sym first),
      )

  both_succeed :
      ⦃p : Platform⦄ (k : ℤ) (d d' : Debtor) (db db' db'' : Database)
      → is_valid_debtor_id s k false ≡ true
      → reserve_debtor k db ≡ ok d db'
      → activate_debtor k (str_of_id d.reservation_id) db' ≡ ok d' db''
      → post_debtor_activate s k none db ≡ (reply 200 d', db'')
  unfolding post_debtor_activate activate_or_reserve activate_with
  both_succeed k d d' db db' db'' valid reserves activates = ground (arith, reserves, activates)

  -- A free debtor that is activated without a reservation is active at once.
  pub activate_directly :
      ⦃p : Platform⦄ (k : ℤ) (db : Database)
      → is_valid_debtor_id s k false ≡ true
      → debtor_row k db.debtors ≡ none
      → let d = reserved k db in
        let db' = committed (reserve_debtor k db) db in
        let d' = activated (db'.clock db'.readings) d in
        let r = post_debtor_activate s k none db in
        (r.0 ≡ reply 200 d') × (debtor_row k r.1.debtors ≡ some d') × (is_active d' ≡ true)
  activate_directly k db valid free =
      let made = reserve_then_activate k db free in
      let db' = committed (reserve_debtor k db) db in
      let d' = activated (db'.clock db'.readings) (reserved k db) in
      let r = activate_debtor k (str_of_id (reserved k db).reservation_id) db' in
      let answered : post_debtor_activate s k none db ≡ (reply 200 d', committed r db') =
        both_succeed k (reserved k db) d' db db' (committed r db') valid made.0 made.2 in
      (ap (λ x. x.0) answered, ap (λ x. debtor_row k x.1.debtors) answered ∙ made.3, made.4)

abbrev without_transfer : ℤ → ℕ → Database → Database
without_transfer k uuid db = record db {
  running_transfers = delete_transfer k uuid db.running_transfers;
  debtors = uncount_transfer k db.debtors;
}

delete_absent :
    (k : ℤ) (uuid : ℕ) (db : Database)
    → count_uuid k uuid db.running_transfers ≡ 0
    → delete_transfer_endpoint k uuid db ≡ (reply 204 tt, db)
unfolding delete_transfer_endpoint delete_running_transfer
delete_absent k uuid db absent = rw absent refl

delete_present :
    (k : ℤ) (uuid : ℕ) (db : Database)
    → count_uuid k uuid db.running_transfers ≡ 1
    → delete_transfer_endpoint k uuid db ≡ (reply 204 tt, without_transfer k uuid db)
unfolding delete_transfer_endpoint delete_running_transfer
delete_present k uuid db present = rw present refl

-- The deletion of a transfer is answered with 204 as often as it is requested, where the table has
-- at most one row of it; afterwards the transfer is not found, and the next request changes nothing.
pub delete_again :
    (k : ℤ) (uuid : ℕ) (db : Database)
    → count_uuid k uuid db.running_transfers ≤ 1
    → let r = delete_transfer_endpoint k uuid db in
      (r.0 ≡ reply 204 tt)
      × (transfer_row k uuid r.1.running_transfers ≡ none)
      × (delete_transfer_endpoint k uuid r.1 ≡ (reply 204 tt, r.1))
delete_again k uuid db once =
    let ts = db.running_transfers in
    let cases : (count_uuid k uuid ts ≡ 0) ⊎ (count_uuid k uuid ts ≡ 1) = omega arith in
    elim cases [
      | inl absent ↦
          let done = delete_absent k uuid db absent in
          rw done (refl, transfer_row-count_uuid k uuid ts absent, done)
      | inr present ↦ rw (delete_present k uuid db present) (
        refl,
        transfer_row-delete_self k uuid ts,
        delete_absent k uuid (without_transfer k uuid db) (count_uuid-delete_self k uuid ts),
      )
    ]
