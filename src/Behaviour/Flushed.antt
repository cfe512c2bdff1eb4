-- ===== src/Behaviour/Flushed.antt =====
-- How the transaction of `process_account_update_signal` ends: in success, or in an IntegrityError.
use swpt_debtors.Prelude.{
  ◌+◌, ◌≡◌, ◌⊎◌, refl, sym, ap, ◌∙◌, true, false, none, List, [], ◌∷◌, ◌++◌, nat_Eq, int_Eq,
  int_eq_iff, inl, inr, Bool-cases, Option-cases, ℤ, pos, arith, if◌then◌else◌,
}
use mathlib.Core.Path.{subst, subst₂}
use swpt_debtors.Platform.{Platform, Timestamp}
use swpt_debtors.Models.{Database, ConfigureAccountSignal}
use swpt_debtors.Procedures.Monad.{Result, ok, err, integrity_error}
use swpt_debtors.Procedures.Flush.{
  atomic, flushed, violates_key, added_rows, is_any_key_taken, is_key_taken, has_same_key,
}
use swpt_debtors.Procedures.Debtors.{get_active_debtor}
use swpt_debtors.Procedures.AccountUpdate.{process_account_update_signal, update_account}
use swpt_debtors.Procedures.Messages.{AccountUpdate}
use swpt_debtors.System.{committed}
use swpt_debtors.Behaviour.Prepared.{is_ok}
use swpt_debtors.Behaviour.Account.{account_update_succeeds}
use swpt_debtors.Invariants.OrphanAccounts.{sent}

-- A row of the table has the primary key.
pub data Occupied (debtor_id : ℤ) (ts : Timestamp) (seqnum : ℤ)
    : List ConfigureAccountSignal → Type 0 where
  here :
      (x : ConfigureAccountSignal) (xs : List ConfigureAccountSignal)
      → x.debtor_id ≡ debtor_id
      → x.ts ≡ ts
      → x.seqnum ≡ seqnum
      → Occupied debtor_id ts seqnum (x ∷ xs)
  there :
      (x : ConfigureAccountSignal) (xs : List ConfigureAccountSignal)
      → Occupied debtor_id ts seqnum xs
      → Occupied debtor_id ts seqnum (x ∷ xs)

is_key_taken-Occupied :
    (present : List ConfigureAccountSignal) (x : ConfigureAccountSignal)
    → is_key_taken present x ≡ true
    → Occupied x.debtor_id x.ts x.seqnum present
unfolding is_key_taken
is_key_taken-Occupied [] x h = absurd cc
is_key_taken-Occupied (y ∷ ys) x h = elim (Bool-cases (has_same_key y x)) [
  | inl e ↦
      here y ys (ground (arith, e, int_eq_iff y.debtor_id x.debtor_id)) (ground (arith, e))
        (ground (arith, e, int_eq_iff y.seqnum x.seqnum))
  | inr e ↦ there y ys (is_key_taken-Occupied ys x (ground (arith, h, e)))
]

added_none : (xs : List ConfigureAccountSignal) → added_rows xs xs ≡ []
unfolding added_rows
added_none [] = refl
added_none (x ∷ xs) = added_none xs

added_one :
    (xs : List ConfigureAccountSignal) (x : ConfigureAccountSignal)
    → added_rows xs (xs ++ x ∷ []) ≡ x ∷ []
unfolding added_rows
added_one [] x = refl
added_one (y ∷ ys) x = added_one ys x

violates_none :
    (present : List ConfigureAccountSignal) (db db' : Database)
    → db'.configure_account_signals ≡ db.configure_account_signals
    → violates_key present db db' ≡ false
unfolding violates_key is_any_key_taken
violates_none present db db' same =
    ap (λ xs. is_any_key_taken present (added_rows db.configure_account_signals xs)) same
    ∙ ap (is_any_key_taken present) (added_none db.configure_account_signals)

violates_one :
    (present : List ConfigureAccountSignal) (db db' : Database) (x : ConfigureAccountSignal)
    → db'.configure_account_signals ≡ db.configure_account_signals ++ x ∷ []
    → violates_key present db db' ≡ true
    → is_key_taken present x ≡ true
unfolding violates_key is_any_key_taken
violates_one present db db' x same h =
    let is_taken : is_any_key_taken present (x ∷ []) ≡ true =
      sym (
        ap (λ xs. is_any_key_taken present (added_rows db.configure_account_signals xs)) same
        ∙ ap (is_any_key_taken present) (added_one db.configure_account_signals x))
      ∙ h in
    ground (arith, is_taken)

module _ ⦃p : Platform⦄ (present : List ConfigureAccountSignal) (m : AccountUpdate)
    (db : Database) where
  ended : atomic present (process_account_update_signal m) db ≡ (
      if violates_key present db (committed (process_account_update_signal m db) db)
      then err integrity_error
      else ok tt (committed (process_account_update_signal m db) db))
  unfolding atomic
  ended = go (process_account_update_signal m db) (account_update_succeeds m db)
    where
      go :
          (r : Result (Unit {0}))
          → is_ok r ≡ true
          → flushed present db r ≡ (
              if violates_key present db (committed r db)
              then err integrity_error
              else ok tt (committed r db))
      go (ok tt db') h = refl
      go (err e) h = absurd cc

  -- The processing of an account update, in a transaction that is flushed into a table of signals with
  -- the rows `present`: it succeeds, or it is about a debtor that is not active and a row of the table
  -- has the debtor, the time at which the account was to be discarded and the sequence number 0; then
  -- it fails with an IntegrityError. The assertion on the creation date never fails.
  pub account_update_ends :
      let db' = committed (process_account_update_signal m db) db in
      (atomic present (process_account_update_signal m) db ≡ ok tt db')
      ⊎ ((atomic present (process_account_update_signal m) db ≡ err integrity_error)
          × (get_active_debtor m.debtor_id db ≡ none)
          × Occupied m.debtor_id (db.clock (db.readings + 1)) (pos 0) present)
  account_update_ends =
      let db' = committed (process_account_update_signal m db) db in
      elim (Bool-cases (violates_key present db db')) [
        | inr free ↦ inl (ended ∙ rw free refl)
        | inl taken ↦ elim (Option-cases (get_active_debtor m.debtor_id db)) [
          | inr (d, found) ↦
              let silent =
                violates_none present db db'
                  (unfold process_account_update_signal update_account in ground (arith, found)) in
              absurd cc
          | inl idle ↦ elim (sent m db idle) [
            | inl same ↦ let silent = violates_none present db db' same in absurd cc
            | inr (x, key, signals, ts, seqnum) ↦ inr (
              ended ∙ rw taken refl,
              idle,
              occupied x key ts seqnum
                  (is_key_taken-Occupied present x (violates_one present db db' x signals taken)),
            )
          ]
        ]
      ]
    where
      occupied :
          (x : ConfigureAccountSignal)
          → x.debtor_id ≡ m.debtor_id
          → x.ts ≡ db.clock (db.readings + 1)
          → x.seqnum ≡ pos 0
          → Occupied x.debtor_id x.ts x.seqnum present
          → Occupied m.debtor_id (db.clock (db.readings + 1)) (pos 0) present
      occupied x key ts seqnum h =
          subst (λ n. Occupied m.debtor_id (db.clock (db.readings + 1)) n present) seqnum
            (subst₂ (λ k t. Occupied k t x.seqnum present) key ts h)
