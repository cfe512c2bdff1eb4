-- ===== src/Procedures/Debtors.antt =====
-- The life of a debtor: reservation, activation, deactivation, restriction.
use swpt_debtors.Prelude.{
  ℕ, ◌+◌, Bool, true, false, Option, none, some, [], ◌∷◌, ◌++◌, String, ◌==◌, string_Eq, int_Eq, ℤ,
  pos, if◌then◌else◌,
}
use swpt_debtors.Platform.{Platform}
use swpt_debtors.Store.{delete_transfers_of}
use swpt_debtors.Models.{
  Database, Debtor, is_active, is_activated, activate, deactivate, new_debtor, date_of,
}
use swpt_debtors.Procedures.Monad.{
  Procedure, invalid_reservation_id, debtor_does_not_exist, debtor_exists, pure, raise, raise_if,
  query, require, when_some, modify, ◌>>=◌, ◌>>◌, now, find_debtor, save_debtor,
}
use swpt_debtors.Procedures.Decimal.{str_of_id}
use swpt_debtors.Procedures.Signalling.{insert_configure_account_signal}

abbrev pub only_active : Option Debtor → Option Debtor
only_active none = none
only_active (some d) = if is_active d then some d else none

-- `get_debtor(debtor_id, lock=…, active=…)`; locks and deferred columns change no result.
unfoldable pub get_debtor : ℤ → Bool → Database → Option Debtor
unfolding find_debtor
get_debtor debtor_id active db =
    if active then only_active (find_debtor debtor_id db) else find_debtor debtor_id db

unfoldable pub get_active_debtor : ℤ → Database → Option Debtor
unfolding get_debtor
get_active_debtor debtor_id = get_debtor debtor_id true

abbrev pub fresh_reservation : Procedure ℕ
fresh_reservation = do
  reservation_id ← query (λ db. db.next_reservation_id)
  modify λ db. record db { next_reservation_id = db.next_reservation_id + 1 }
  pure reservation_id

abbrev pub is_some : Option Debtor → Bool
is_some none = false
is_some (some _) = true

-- An insertion with a primary key that is taken is the `IntegrityError`.
unfoldable pub reserve_debtor : ℤ → Procedure Debtor
unfolding find_debtor now
reserve_debtor debtor_id = do
  taken ← query (find_debtor debtor_id)
  raise_if (is_some taken) debtor_exists
  created_at ← now
  actions_reset ← now
  documents_reset ← now
  heartbeat ← now
  reservation_id ← fresh_reservation
  let d =
      new_debtor debtor_id reservation_id created_at (date_of actions_reset)
        (date_of documents_reset) heartbeat
  modify λ db. record db { debtors = db.debtors ++ d ∷ [] }
  pure d

-- `_delete_debtor_transfers`
unfoldable pub delete_debtor_transfers : Debtor → Procedure Debtor
delete_debtor_transfers debtor = do
  modify λ db. record db {
    running_transfers = delete_transfers_of debtor.debtor_id db.running_transfers;
  }
  pure (record debtor { running_transfers_count = pos 0 })

module _ ⦃p : Platform⦄ where
  unfoldable pub activate_debtor : ℤ → String → Procedure Debtor
  unfolding get_debtor insert_configure_account_signal save_debtor str_of_id
  activate_debtor debtor_id reservation_id = do
    found ← query (get_debtor debtor_id false)
    debtor ← require found invalid_reservation_id
    if reservation_id == str_of_id debtor.reservation_id
        then (if is_activated debtor
            then pure debtor
            else (do d ← insert_configure_account_signal (activate debtor); save_debtor d; pure d))
        else (if is_activated debtor then raise debtor_exists else raise invalid_reservation_id)

  unfoldable pub deactivate_debtor : ℤ → Procedure (Unit {0})
  unfolding get_active_debtor insert_configure_account_signal save_debtor delete_debtor_transfers
      now
  deactivate_debtor debtor_id = do
    found ← query (get_active_debtor debtor_id)
    when_some found λ debtor. do
      ts ← now
      d ← insert_configure_account_signal (deactivate (date_of ts) debtor)
      d' ← delete_debtor_transfers d
      save_debtor d'

  unfoldable pub restrict_debtor : ℤ → ℤ → Procedure Debtor
  unfolding get_active_debtor insert_configure_account_signal save_debtor
  restrict_debtor debtor_id min_balance = do
    found ← query (get_active_debtor debtor_id)
    debtor ← require found debtor_does_not_exist
    d ← insert_configure_account_signal (record debtor { min_balance = min_balance })
    save_debtor d
    pure d
