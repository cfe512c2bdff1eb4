-- ===== src/Invariants/Announcements.antt =====
-- The messages that announce the configuration of an account: what a transaction must send so that
-- the last message about an active debtor tells the configuration in its row.
use swpt_debtors.Prelude.{
  ◌≡◌, refl, sym, ap, ◌∙◌, true, false, Option, none, some, List, [], ◌∷◌, ◌++◌, ◌==◌, int_Eq,
  int_eq_iff, ℤ, or_else, inl, inr, Bool-cases, arith, if◌then◌else◌,
}
use mathlib.Core.Path.{subst, subst₂}
use swpt_debtors.Platform.{Platform, Timestamp}
use swpt_debtors.Models.{Database, Debtor, ConfigureAccountSignal, is_active}
use swpt_debtors.Store.{debtor_row, put_debtor}
use swpt_debtors.Store.DebtorLaws.{debtor_row-id, debtor_row-put}
use swpt_debtors.Procedures.Signalling.{configure_account_signal}
use swpt_debtors.Invariants.Edits.{write, edit}
use swpt_debtors.Invariants.Outcomes.{Edits}

-- The last message about a debtor's account
unfoldable pub last_signal : ℤ → List ConfigureAccountSignal → Option ConfigureAccountSignal
last_signal k [] = none
last_signal k (x ∷ xs) = or_else (last_signal k xs) (if x.debtor_id == k then some x else none)

pub last_signal-append :
    (k : ℤ) (xs : List ConfigureAccountSignal) (x : ConfigureAccountSignal)
    → last_signal k (xs ++ x ∷ []) ≡ (if x.debtor_id == k then some x else last_signal k xs)
unfolding last_signal
last_signal-append k [] x = ground arith
last_signal-append k (y ∷ ys) x = ground (arith, last_signal-append k ys x)

module _ ⦃p : Platform⦄ where
  -- The message is the one that announces the debtor's configuration as it is in the row.
  abbrev pub Announced : Debtor → Option ConfigureAccountSignal → Type 0
  Announced d o = (inserted_at : Timestamp) × (o ≡ some (configure_account_signal d inserted_at))

  abbrev pub RowAnnounced : Option Debtor → Option ConfigureAccountSignal → Type 0
  RowAnnounced none o = Unit
  RowAnnounced (some d) o = is_active d ≡ true → Announced d o

  abbrev pub TableAnnounced : List Debtor → List ConfigureAccountSignal → Type 0
  TableAnnounced ds xs = (k : ℤ) → RowAnnounced (debtor_row k ds) (last_signal k xs)

  -- The last message about each active debtor announces its configuration.
  abbrev pub IsAnnounced : Database → Type 0
  IsAnnounced db = TableAnnounced db.debtors db.configure_account_signals

  -- A change of a row of which the accounting authority need not be told.
  abbrev pub Silent : Debtor → Option Debtor → Type 0
  Silent d none = Unit
  Silent d (some d') =
      (d'.debtor_id ≡ d.debtor_id)
      × (d'.last_config_ts ≡ d.last_config_ts)
      × (d'.last_config_seqnum ≡ d.last_config_seqnum)
      × (d'.config_data ≡ d.config_data)
      × (d'.config_flags ≡ d.config_flags)
      × (d'.min_balance ≡ d.min_balance)
      × (is_active d' ≡ true → is_active d ≡ true)

  pub same_signal :
      (d d' : Debtor) (inserted_at : Timestamp)
      → Silent d (some d')
      → configure_account_signal d inserted_at ≡ configure_account_signal d' inserted_at
  unfolding configure_account_signal
  same_signal d d' inserted_at (a, b, c, e, f, g, _) = ground (arith, a, b, c, e, f, g)

  pub keep_row :
      (d d' : Debtor) (o : Option ConfigureAccountSignal)
      → Silent d (some d')
      → RowAnnounced (some d) o
      → RowAnnounced (some d') o
  keep_row d d' o keep h active =
      let (t, e) = h (keep.6 active) in (t, e ∙ ap some (same_signal d d' t keep))

  pub tables-IsAnnounced :
      (ds : List Debtor) (xs : List ConfigureAccountSignal) (db : Database)
      → db.debtors ≡ ds
      → db.configure_account_signals ≡ xs
      → TableAnnounced ds xs
      → IsAnnounced db
  tables-IsAnnounced ds xs db rows signals h k =
      subst₂ (λ ds' xs'. RowAnnounced (debtor_row k ds') (last_signal k xs')) (sym rows)
        (sym signals) (h k)

  -- A row found and written back
  put_found :
      (j k : ℤ) (d d' : Debtor) (ds : List Debtor)
      → debtor_row j ds ≡ some d
      → d'.debtor_id ≡ j
      → debtor_row k (put_debtor d' ds) ≡ (if j == k then some d' else debtor_row k ds)
  put_found j k d d' ds row key =
      ground (arith, debtor_row-put k d' ds, int_eq_iff j k, int_eq_iff d'.debtor_id k, key, row)

  pub put_silently :
      (j : ℤ) (d d' : Debtor) (ds : List Debtor) (xs : List ConfigureAccountSignal)
      → debtor_row j ds ≡ some d
      → Silent d (some d')
      → TableAnnounced ds xs
      → TableAnnounced (put_debtor d' ds) xs
  put_silently j d d' ds xs row keep h k =
      let key : d'.debtor_id ≡ j = keep.0 ∙ debtor_row-id j ds d row in
      rw (put_found j k d d' ds row key) (elim (Bool-cases (j == k)) [
        | inl e ↦
            let same : debtor_row k ds ≡ some d = ground (arith, e, int_eq_iff j k, row) in
            rw e (
              keep_row d d' (last_signal k xs) keep
                (subst (λ o. RowAnnounced o (last_signal k xs)) same (h k)))
        | inr e ↦ rw e (h k)
      ])

  -- A row written back, of which the accounting authority is told.
  pub put_told :
      (j : ℤ) (d d' : Debtor) (inserted_at : Timestamp) (ds : List Debtor)
      (xs : List ConfigureAccountSignal)
      → debtor_row j ds ≡ some d
      → d'.debtor_id ≡ j
      → TableAnnounced ds xs
      → TableAnnounced (put_debtor d' ds) (xs ++ configure_account_signal d' inserted_at ∷ [])
  unfolding configure_account_signal
  put_told j d d' inserted_at ds xs row key h k =
      let x = configure_account_signal d' inserted_at in
      rw (put_found j k d d' ds row key, last_signal-append k xs x, key)
        (elim (Bool-cases (j == k)) [
          | inl e ↦ rw e (λ _. (inserted_at, refl))
          | inr e ↦ rw e (h k)
        ])

  -- A message about a debtor that is not active
  pub orphan_told :
      (x : ConfigureAccountSignal) (ds : List Debtor) (xs : List ConfigureAccountSignal)
      → ((d : Debtor) → debtor_row x.debtor_id ds ≡ some d → is_active d ≡ false)
      → TableAnnounced ds xs
      → TableAnnounced ds (xs ++ x ∷ [])
  orphan_told x ds xs idle h k =
      rw (last_signal-append k xs x) (elim (Bool-cases (x.debtor_id == k)) [
        | inl e ↦
            let same : x.debtor_id ≡ k = (int_eq_iff x.debtor_id k).0 e in
            rw e
              (idle_row (debtor_row k ds) (λ d row. idle d (ap (λ i. debtor_row i ds) same ∙ row)))
        | inr e ↦ rw e (h k)
      ])
    where
      idle_row :
          (o : Option Debtor)
          → ((d : Debtor) → o ≡ some d → is_active d ≡ false)
          → RowAnnounced o (some x)
      idle_row none idle = tt
      idle_row (some d) idle = λ active. absurd (ground (arith, idle d refl, active))

  -- A transaction that edits one row silently.
  pub Edits-IsAnnounced :
      (j : ℤ) (f : Debtor → Option Debtor) (db db' : Database)
      → Edits j f db db'
      → db'.configure_account_signals ≡ db.configure_account_signals
      → ((d : Debtor) → Silent d (f d))
      → IsAnnounced db
      → IsAnnounced db'
  Edits-IsAnnounced j f db db' (rows, _) signals keep h =
      tables-IsAnnounced (edit (debtor_row j db.debtors) f db.debtors) db.configure_account_signals
        db' rows signals (go (debtor_row j db.debtors) refl)
    where
      put :
          (d : Debtor) (o : Option Debtor)
          → debtor_row j db.debtors ≡ some d
          → Silent d o
          → TableAnnounced (write o db.debtors) db.configure_account_signals
      put d none row k = h
      put d (some d') row k = put_silently j d d' db.debtors db.configure_account_signals row k h

      go :
          (o : Option Debtor)
          → debtor_row j db.debtors ≡ o
          → TableAnnounced (edit o f db.debtors) db.configure_account_signals
      go none row = h
      go (some d) row = put d (f d) row (keep d)

  -- A transaction that writes one row back and announces it.
  pub told-IsAnnounced :
      (j : ℤ) (d d' : Debtor) (inserted_at : Timestamp) (db db' : Database)
      → debtor_row j db.debtors ≡ some d
      → d'.debtor_id ≡ d.debtor_id
      → db'.debtors ≡ put_debtor d' db.debtors
      → db'.configure_account_signals
        ≡ db.configure_account_signals ++ configure_account_signal d' inserted_at ∷ []
      → IsAnnounced db
      → IsAnnounced db'
  told-IsAnnounced j d d' inserted_at db db' row key rows signals h =
      let xs = db.configure_account_signals ++ configure_account_signal d' inserted_at ∷ [] in
      tables-IsAnnounced (put_debtor d' db.debtors) xs db' rows signals (
        put_told j d d' inserted_at db.debtors db.configure_account_signals row
          (key ∙ debtor_row-id j db.debtors d row) h)

  pub same-IsAnnounced :
      (db db' : Database)
      → db'.debtors ≡ db.debtors
      → db'.configure_account_signals ≡ db.configure_account_signals
      → IsAnnounced db
      → IsAnnounced db'
  same-IsAnnounced db db' rows signals h =
      tables-IsAnnounced db.debtors db.configure_account_signals db' rows signals h
