-- ===== src/Web/Creation.antt =====
-- What the answer 201 to a request for a new transfer tells.
use Prim.Native.String.{len}
use swpt_debtors.Prelude.{
  ℕ, ◌≤◌, ◌≡◌, refl, sym, ap, ◌∙◌, true, false, Option, none, some, String, ◌==◌, int_Eq, ℤ, inl,
  inr, Bool-cases, Option-cases, arith,
}
use mathlib.Core.Path.{subst}
use swpt_debtors.Platform.{Timestamp}
use swpt_debtors.Settings.{Settings, is_valid_debtor_id}
use swpt_debtors.Models.{Database, RunningTransfer, is_active, max_int64, transfer_note_max_bytes}
use swpt_debtors.Store.{debtor_row, transfer_row}
use swpt_debtors.Procedures.Monad.{Error, Result, ok, err}
use swpt_debtors.Procedures.Debtors.{only_active}
use swpt_debtors.Procedures.Transfers.{
  get_running_transfer, TransferData, initiate_running_transfer, new_running_transfer,
}
use swpt_debtors.Behaviour.Initiation.{
  refusal, debtor_refusal, initiate_refused, initiate_starts, initiated,
}
use swpt_debtors.System.{committed}
use swpt_debtors.Schemas.Links.{Links}
use swpt_debtors.Schemas.Requests.{TransferBody, load_transfer}
use swpt_debtors.Schemas.Bounds.{load_transfer_bounds}
use swpt_debtors.Schemas.Transfers.{
  TransferView, dump_transfer, result_of, checkup_of, calc_checkup_datetime,
}
use swpt_debtors.Web.Users.{
  User, UserPatterns, allowed, parse_swpt_user_id_header, ensure_debtor_permissions, debtor_access,
  permit, is_read_only,
}
use swpt_debtors.Web.Access.{MayAccess, permissions_sound}
use swpt_debtors.Web.Response.{reply, answer}
use swpt_debtors.Web.Transfers.{
  AccountUri, TransferRequest, data_of, initiation_errors, post_to, post_transfer, get_transfer,
}
use swpt_debtors.Web.Replies.{
  is_reply, reply_injective, guarded_reply, validated_reply, rendered_reply,
}
use swpt_debtors.Web.Served.{create_transfer, show_transfer}

refused-reply : (e : Error) → is_reply (initiation_errors {A = RunningTransfer} e) ≡ false
unfolding initiation_errors
refused-reply e = ground arith

-- A request that starts a transfer starts the one that it describes.
initiate_ok :
    (k : ℤ) (uuid : ℕ) (t : TransferData) (limit : ℕ) (db db' : Database) (rt : RunningTransfer)
    → initiate_running_transfer k uuid t limit db ≡ ok rt db'
    → (rt ≡ initiated k uuid t db) × (transfer_row k uuid db'.running_transfers ≡ some rt)
initiate_ok k uuid t limit db db' rt h =
    let now = db.clock db.readings in
    let running = transfer_row k uuid db.running_transfers in
    elim (Option-cases (refusal running (only_active (debtor_row k db.debtors)) t limit now)) [
      | inr (e, refused) ↦
          let clash = sym h ∙ initiate_refused k uuid t limit db e refused in absurd cc
      | inl fits ↦ elim (Option-cases (debtor_row k db.debtors)) [
        | inl vacant ↦ absurd (ground (arith, fits, vacant))
        | inr (d, row) ↦
            let free : running ≡ none = ground (arith, fits) in
            let active : is_active d ≡ true = ground (arith, fits, row) in
            let within : debtor_refusal (some d) limit now ≡ none = ground (arith, fits, row) in
            let done = initiate_starts k uuid t limit d db free row active within in
            let same : ok rt db'
                ≡ ok (initiated k uuid t db)
                    (committed (initiate_running_transfer k uuid t limit db) db) =
              sym h ∙ done.0 in
            let which : rt ≡ initiated k uuid t db = cc in
            (
              which,
              ap (λ r. transfer_row k uuid (committed r db).running_transfers) (sym h)
                  ∙ done.1
                  ∙ ap some (sym which),
            )
      ]
    ]

answered_ok :
    (k : ℤ) (uuid : ℕ) (t : TransferData) (limit : ℕ) (db db' : Database) (rt : RunningTransfer)
    → answer 201 initiation_errors (initiate_running_transfer k uuid t limit db) db
      ≡ (reply 201 rt, db')
    → (rt ≡ initiated k uuid t db) × (transfer_row k uuid db'.running_transfers ≡ some rt)
answered_ok k uuid t limit db db' rt h = go (initiate_running_transfer k uuid t limit db) refl h
  where
    go :
        (r : Result RunningTransfer)
        → initiate_running_transfer k uuid t limit db ≡ r
        → answer 201 initiation_errors r db ≡ (reply 201 rt, db')
        → (rt ≡ initiated k uuid t db) × (transfer_row k uuid db'.running_transfers ≡ some rt)
    go (ok rt1 db1) e h1 =
        let same : rt1 ≡ rt = reply_injective 201 rt1 rt (ap (λ x. x.0) h1) in
        let kept : db1 ≡ db' = ap (λ x. x.1) h1 in
        initiate_ok k uuid t limit db db' rt (e ∙ ap (λ x. ok x db1) same ∙ ap (ok rt) kept)
    go (err x) e h1 =
        let away : is_reply (initiation_errors {A = RunningTransfer} x) ≡ true =
          ap (λ y. is_reply y.0) h1 in
        let here = refused-reply x in absurd cc

module _ (s : Settings) (parse_account_uri : String → Option AccountUri) (k : ℤ)
    (q : TransferRequest) (db db' : Database) (rt : RunningTransfer) where
  posted :
      post_transfer s parse_account_uri k q db ≡ (reply 201 rt, db')
      → (recipient : String) × (rt ≡ initiated k q.transfer_uuid (data_of q recipient) db)
        × (transfer_row k q.transfer_uuid db'.running_transfers ≡ some rt)
  unfolding post_transfer post_to
  posted h = go (parse_account_uri q.recipient_uri) h
    where
      go :
          (o : Option AccountUri)
          → post_to s k q o db ≡ (reply 201 rt, db')
          → (recipient : String) × (rt ≡ initiated k q.transfer_uuid (data_of q recipient) db)
            × (transfer_row k q.transfer_uuid db'.running_transfers ≡ some rt)
      go none e = let away : false ≡ true = ap (λ x. is_reply x.0) e in absurd cc
      go (some account) e = elim (Bool-cases (account.debtor_id == k)) [
        | inl own ↦
            let e' = rw own at e in
            (let done =
                answered_ok k q.transfer_uuid (data_of q account.account_id)
                  s.max_transfers_per_month db db' rt e' in
              (account.account_id, done.0, done.1))
        | inr other ↦
            let e' = rw other at e in
            let away : false ≡ true = ap (λ x. is_reply x.0) e' in absurd cc
      ]

let_through :
    (w : UserPatterns) (s : Settings) (k : ℤ) (o : Option User) (g : Option ℤ)
    → debtor_access w s o (some k) "POST" ≡ allowed g
    → (user : User) × (o ≡ some user)
      × (is_valid_debtor_id s k false ≡ true)
      × MayAccess user k "POST"
unfolding debtor_access
let_through w s k none g h = absurd cc
let_through w s k (some user) g h =
    let sound = permissions_sound w s user k "POST" g h in (user, refl, sound.0, sound.1)

module _ (w : UserPatterns) (s : Settings) (u : Links)
    (parse_account_uri : String → Option AccountUri) (delay : ℕ) (current_ts : Timestamp)
    (header : Option String) (k : ℤ) (body : TransferBody) (db db' : Database)
    (v : TransferView) where
  -- A request for a new transfer that is answered with 201 comes from a user who may modify the
  -- debtor, who is valid for this node; the schema has accepted its body, and the transfer that is
  -- shown has the UUID, the recipient, the amount and the note of that. It has no result yet, its
  -- amount fits 64 bits and its note has at most 500 bytes.
  pub created_sound :
      create_transfer w s u parse_account_uri delay current_ts header k body db ≡ (reply 201 v, db')
      → (user : User) × (parse_swpt_user_id_header w header ≡ some user)
        × (is_valid_debtor_id s k false ≡ true)
        × MayAccess user k "POST"
        × ((q : TransferRequest) × (load_transfer body ≡ some q)
            × (v.transfer_uuid ≡ q.transfer_uuid)
            × (v.recipient ≡ q.recipient_uri)
            × (v.amount ≡ q.amount)
            × (v.transfer_note_format ≡ q.transfer_note_format)
            × (v.transfer_note ≡ q.transfer_note))
        × (v.result ≡ none)
        × (v.amount ≤ max_int64)
        × (len v.transfer_note ≤ transfer_note_max_bytes)
  unfolding create_transfer ensure_debtor_permissions dump_transfer result_of new_running_transfer
  created_sound h =
      let user = parse_swpt_user_id_header w header in
      let g =
        guarded_reply TransferView (Option ℤ) 201 v db db' (debtor_access w s user (some k) "POST")
          _ h in
      let q =
        validated_reply TransferView TransferRequest 201 v db db' (load_transfer body) _ g.2 in
      let r =
        rendered_reply TransferView RunningTransfer 201 v db db' (dump_transfer u delay current_ts)
          (post_transfer s parse_account_uri k q.0 db) q.2 in
      let started = posted s parse_account_uri k q.0 db db' r.0 r.1 in
      let by = let_through w s k user g.0 g.1 in
      let shown : v
          ≡ dump_transfer u delay current_ts
              (initiated k q.0.transfer_uuid (data_of q.0 started.0) db) =
        sym r.2 ∙ ap (dump_transfer u delay current_ts) started.1 in
      let bounds = load_transfer_bounds body q.0 q.1 in
      (
        by.0,
        by.1,
        by.2,
        by.3,
        (
          q.0,
          q.1,
          ap (λ x. x.transfer_uuid) shown,
          ap (λ x. x.recipient) shown,
          ap (λ x. x.amount) shown,
          ap (λ x. x.transfer_note_format) shown,
          ap (λ x. x.transfer_note) shown,
        ),
        ap (λ x. x.result) shown,
        subst (λ x. x.amount ≤ max_int64) (sym shown) bounds.0,
        subst (λ x. len x.transfer_note ≤ transfer_note_max_bytes) (sym shown) bounds.1,
      )

  may_also_read :
      (o : Option User) (g : Option ℤ)
      → debtor_access w s o (some k) "POST" ≡ allowed g
      → debtor_access w s o (some k) "GET" ≡ allowed g
  unfolding debtor_access permit is_read_only
  may_also_read none g h = absurd cc
  may_also_read (some user) g h = ground (arith, h)

  shown_as :
      (later : Timestamp) (g : Option ℤ) (uuid : ℕ) (rt : RunningTransfer)
      → debtor_access w s (parse_swpt_user_id_header w header) (some k) "GET" ≡ allowed g
      → transfer_row k uuid db'.running_transfers ≡ some rt
      → show_transfer w s u parse_account_uri delay later header k uuid db'
        ≡ (reply 200 (dump_transfer u delay later rt), db')
  unfolding show_transfer ensure_debtor_permissions get_transfer get_running_transfer
  shown_as later g uuid rt access row = rw (access, row) refl

  -- An unfinished transfer, rendered at another time
  rendered_later :
      (later : Timestamp) (rt : RunningTransfer)
      → rt.finalized_at ≡ none
      → dump_transfer u delay later rt ≡ record (dump_transfer u delay current_ts rt) {
        checkup_at = some (calc_checkup_datetime delay later rt.initiated_at);
      }
  unfolding dump_transfer checkup_of
  rendered_later later rt unfinished = rw unfinished refl

  -- A transfer that is created is shown to the same user by the next request, which may come at any
  -- later time `later`: as it was rendered when it was created, but for the time of the next checkup,
  -- which is that of an unfinished transfer at the time of the rendering.
  pub created_then_shown :
      (later : Timestamp)
      → create_transfer w s u parse_account_uri delay current_ts header k body db
        ≡ (reply 201 v, db')
      → show_transfer w s u parse_account_uri delay later header k v.transfer_uuid db' ≡ (
        reply 200
            (record v { checkup_at = some (calc_checkup_datetime delay later v.initiated_at) }),
        db',
      )
  unfolding create_transfer ensure_debtor_permissions dump_transfer new_running_transfer
  created_then_shown later h =
      let user = parse_swpt_user_id_header w header in
      let g =
        guarded_reply TransferView (Option ℤ) 201 v db db' (debtor_access w s user (some k) "POST")
          _ h in
      let q =
        validated_reply TransferView TransferRequest 201 v db db' (load_transfer body) _ g.2 in
      let r =
        rendered_reply TransferView RunningTransfer 201 v db db' (dump_transfer u delay current_ts)
          (post_transfer s parse_account_uri k q.0 db) q.2 in
      let started = posted s parse_account_uri k q.0 db db' r.0 r.1 in
      let same : r.0.transfer_uuid ≡ q.0.transfer_uuid = ap (λ x. x.transfer_uuid) started.1 in
      let row : transfer_row k r.0.transfer_uuid db'.running_transfers ≡ some r.0 =
        ap (λ n. transfer_row k n db'.running_transfers) same ∙ started.2 in
      let open_at : r.0.finalized_at ≡ none = ap (λ x. x.finalized_at) started.1 in
      subst
        (λ x. show_transfer w s u parse_account_uri delay later header k x.transfer_uuid db' ≡ (
          reply 200
              (record x { checkup_at = some (calc_checkup_datetime delay later x.initiated_at) }),
          db',
        ))
        r.2
        (shown_as later g.0 r.0.transfer_uuid r.0 (may_also_read user g.0 g.1) row
          ∙ ap (λ x. (reply 200 x, db')) (rendered_later later r.0 open_at))
