-- ===== src/Behaviour/Activation.antt =====
-- Two-phase creation: `reserve_debtor` and `activate_debtor`.
use swpt_debtors.Prelude.{
  ◌+◌, ◌≡◌, ◌≢◌, refl, ap, ◌∙◌, true, false, none, some, [], ◌∷◌, ◌++◌, String, ◌==◌, string_Eq,
  str_eq_iff, int_Eq, int_eq_iff, ℤ, pos, arith, if◌then◌else◌,
}
use swpt_debtors.Platform.{Platform, Timestamp}
use swpt_debtors.Models.{
  Database, Debtor, is_active, is_activated, is_deactivated, activate, date_of, new_debtor,
}
use swpt_debtors.Models.Flags.{is_active-eq, is_activated-activate, is_deactivated-activate}
use swpt_debtors.Store.{debtor_row, put_debtor}
use swpt_debtors.Store.DebtorLaws.{debtor_row-put_self, debtor_row-id, debtor_row-append}
use swpt_debtors.Procedures.Monad.{ok, err, invalid_reservation_id, debtor_exists}
use swpt_debtors.Procedures.Decimal.{str_of_id}
use swpt_debtors.Procedures.Signalling.{configure_account_signal, next_config}
use swpt_debtors.Procedures.Debtors.{reserve_debtor, activate_debtor}
use swpt_debtors.System.{committed}

module _ ⦃p : Platform⦄ where
  -- A debtor that is activated, with its first configuration version.
  abbrev pub activated : Timestamp → Debtor → Debtor
  activated config_ts d = next_config config_ts (activate d)

  activate_found :
      (k : ℤ) (reservation_id : String) (d : Debtor) (db : Database)
      → debtor_row k db.debtors ≡ some d
      → is_activated d ≡ false
      → (reservation_id == str_of_id d.reservation_id) ≡ true
      → let d' = activated (db.clock db.readings) d in
        let db' = committed (activate_debtor k reservation_id db) db in
        (activate_debtor k reservation_id db ≡ ok d' db')
        × (db'.debtors ≡ put_debtor d' db.debtors)
        × (db'.configure_account_signals
            ≡ db.configure_account_signals
              ++ configure_account_signal d' (db.clock (db.readings + 1)) ∷ [])
  unfolding activate_debtor next_config configure_account_signal
  activate_found k reservation_id d db row reserved same =
      (ground arith, ground arith, ground arith)

  activate_activated :
      (k : ℤ) (reservation_id : String) (d : Debtor) (db : Database)
      → debtor_row k db.debtors ≡ some d
      → is_activated d ≡ true
      → (reservation_id == str_of_id d.reservation_id) ≡ true
      → activate_debtor k reservation_id db ≡ ok d db
  unfolding activate_debtor
  activate_activated k reservation_id d db row done same = ground arith

  fields_of_activated :
      (config_ts : Timestamp) (d : Debtor)
      → let d' = activated config_ts d in
        (d'.debtor_id ≡ d.debtor_id)
        × (is_activated d' ≡ true)
        × (d'.reservation_id ≡ d.reservation_id)
        × (is_deactivated d' ≡ is_deactivated d)
  unfolding next_config activate is_activated is_deactivated
  fields_of_activated config_ts d = (refl, is_activated-activate d, refl, is_deactivated-activate d)

  -- The activation of a reserved debtor: its row is activated and its configuration is announced.
  -- The same request again returns the same debtor and changes nothing.
  pub activate_twice :
      (k : ℤ) (reservation_id : String) (d : Debtor) (db : Database)
      → debtor_row k db.debtors ≡ some d
      → is_activated d ≡ false
      → (reservation_id == str_of_id d.reservation_id) ≡ true
      → let d' = activated (db.clock db.readings) d in
        let db' = committed (activate_debtor k reservation_id db) db in
        (activate_debtor k reservation_id db ≡ ok d' db')
        × (debtor_row k db'.debtors ≡ some d')
        × (is_activated d' ≡ true)
        × (db'.configure_account_signals
            ≡ db.configure_account_signals
              ++ configure_account_signal d' (db.clock (db.readings + 1)) ∷ [])
        × (activate_debtor k reservation_id db' ≡ ok d' db')
  activate_twice k reservation_id d db row reserved same =
      let d' = activated (db.clock db.readings) d in
      let db' = committed (activate_debtor k reservation_id db) db in
      let done = activate_found k reservation_id d db row reserved same in
      let fields = fields_of_activated (db.clock db.readings) d in
      let row' : debtor_row k db'.debtors ≡ some d' =
        ap (debtor_row k) done.1
        ∙ debtor_row-put_self k d d' db.debtors row (fields.0 ∙ debtor_row-id k db.debtors d row) in
      (
        done.0,
        row',
        fields.1,
        done.2,
        activate_activated k reservation_id d' db' row' fields.1
            (ap (λ r. reservation_id == str_of_id r) fields.2 ∙ same),
      )

  -- A reservation identifier that is not the debtor's activates nothing: the error tells whether
  -- the debtor has been activated.
  pub activate_refused :
      (k : ℤ) (reservation_id : String) (d : Debtor) (db : Database)
      → debtor_row k db.debtors ≡ some d
      → reservation_id ≢ str_of_id d.reservation_id
      → activate_debtor k reservation_id db
        ≡ err (if is_activated d then debtor_exists else invalid_reservation_id)
  unfolding activate_debtor
  activate_refused k reservation_id d db row other =
      ground (arith, row, other, str_eq_iff reservation_id (str_of_id d.reservation_id))

  -- The row that a reservation makes.
  abbrev pub reserved : ℤ → Database → Debtor
  reserved k db =
      let n = db.readings in
      new_debtor k db.next_reservation_id (db.clock n) (date_of (db.clock (n + 1)))
        (date_of (db.clock (n + 1 + 1))) (db.clock (n + 1 + 1 + 1))

  pub reserve_found :
      (k : ℤ) (db : Database)
      → debtor_row k db.debtors ≡ none
      → let db' = committed (reserve_debtor k db) db in
        (reserve_debtor k db ≡ ok (reserved k db) db')
        × (db'.debtors ≡ db.debtors ++ reserved k db ∷ [])
        × (db'.running_transfers ≡ db.running_transfers)
  unfolding reserve_debtor
  reserve_found k db free = (ground arith, ground arith, ground arith)

  pub fields_of_reserved :
      (k : ℤ) (db : Database)
      → let d = reserved k db in
        (d.debtor_id ≡ k)
        × (is_activated d ≡ false)
        × (is_deactivated d ≡ false)
        × (d.reservation_id ≡ some db.next_reservation_id)
        × (d.running_transfers_count ≡ pos 0)
  unfolding new_debtor is_activated is_deactivated
  fields_of_reserved k db = (refl, refl, refl, refl, refl)

  -- Two-phase creation. A free debtor identifier can be reserved; then the text of the reservation
  -- identifier activates the debtor, and it is active.
  pub reserve_then_activate :
      (k : ℤ) (db : Database)
      → debtor_row k db.debtors ≡ none
      → let d = reserved k db in
        let db' = committed (reserve_debtor k db) db in
        let d' = activated (db'.clock db'.readings) d in
        let r = activate_debtor k (str_of_id d.reservation_id) db' in
        (reserve_debtor k db ≡ ok d db')
        × (is_activated d ≡ false)
        × (r ≡ ok d' (committed r db'))
        × (debtor_row k (committed r db').debtors ≡ some d')
        × (is_active d' ≡ true)
  reserve_then_activate k db free =
      let d = reserved k db in
      let db' = committed (reserve_debtor k db) db in
      let d' = activated (db'.clock db'.readings) d in
      let made = reserve_found k db free in
      let fields = fields_of_reserved k db in
      let row : debtor_row k db'.debtors ≡ some d =
        ap (debtor_row k) made.1
        ∙ ground
            (arith, free, fields.0, debtor_row-append k db.debtors d, int_eq_iff d.debtor_id k) in
      let done =
        activate_twice k (str_of_id d.reservation_id) d db' row fields.1
          ((str_eq_iff (str_of_id d.reservation_id) (str_of_id d.reservation_id)).1 refl) in
      let after = fields_of_activated (db'.clock db'.readings) d in
      let active : is_active d' ≡ true =
        ground (arith, is_active-eq d', after.1, after.3, fields.2) in
      (made.0, fields.1, done.0, done.1, active)

  -- An identifier that is taken is not reserved.
  pub reserve_taken :
      (k : ℤ) (d : Debtor) (db : Database)
      → debtor_row k db.debtors ≡ some d
      → reserve_debtor k db ≡ err debtor_exists
  unfolding reserve_debtor
  reserve_taken k d db row = ground arith
