-- ===== src/Tests/Web.antt =====
-- The theorems about whole runs and about the Web API, at concrete inputs.
use swpt_debtors.Prelude.{
  ◌+◌, ◌≡◌, refl, true, false, Option, none, some, [], ◌∷◌, String, ◌==◌, string_Eq, int_Eq,
  option_Eq, option_eq, pos, ◌+ℤ◌, int_eq, first, count, arith, if◌then◌else◌,
}
use swpt_debtors.Settings.{Settings, is_valid_debtor_id}
use swpt_debtors.Models.{is_active, date_of}
use swpt_debtors.Store.{debtor_row, transfer_row, count_uuid}
use swpt_debtors.Procedures.Config.{reset_actions}
use swpt_debtors.Procedures.Debtors.{reserve_debtor}
use swpt_debtors.System.{
  committed, run, empty, reserve, activate, initiate, delete, scan_parent_shard,
}
use swpt_debtors.Behaviour.Activation.{reserved, activated}
use swpt_debtors.Behaviour.Initiation.{initiated}
use swpt_debtors.Invariants.Steps.{Consistent}
use swpt_debtors.Invariants.Runs.{run-Consistent}
use swpt_debtors.Web.Users.{
  UserPatterns, supervisor, no_debtor, is_read_only, debtor_access, permit,
}
use swpt_debtors.Web.Access.{MayAccess, permissions_sound}
use swpt_debtors.Web.Response.{reply, redirected}
use swpt_debtors.Web.Admin.{post_debtor_activate}
use swpt_debtors.Web.Transfers.{
  AccountUri, TransferRequest, data_of, post_transfer, delete_transfer_endpoint,
}
use swpt_debtors.Web.Outcomes.{post_transfer_again, activate_directly, delete_again}
use swpt_debtors.Tests.Sample.{whole, alice, database}

abbrev pub node : Settings
node = record {
  min_debtor_id = pos 0;
  max_debtor_id = pos 1000;
  realm_match = λ k parent. true;
  delete_parent_shard_records = true;
  inactive_interval = 604800000000;
  max_heartbeat_delay = 2592000000000;
  max_config_delay = 604800000000;
  max_transfers_per_month = 300;
  document_max_saves_per_year = 10;
  document_max_content_length = 50000;
  debtors_per_page = 2000;
}

abbrev pub patterns : UserPatterns
patterns = record {
  matches = λ t user_id. user_id == "creditors:1";
  group_number = λ user_id. 1;
  u64_to_i64 = pos;
}

abbrev pub account : AccountUri
account = record { debtor_id = pos 5; account_id = "2" }

abbrev pub parsed : String → Option AccountUri
parsed uri = if uri == "swpt:5/2" then some account else none

abbrev post : TransferRequest
post = record {
  transfer_uuid = 78;
  recipient_uri = "swpt:5/2";
  amount = 7;
  transfer_note_format = "";
  transfer_note = "";
}

run-Consistent_example : Consistent (
    run node
      (reserve (pos 5)
        ∷ activate (pos 5) "1"
        ∷ initiate (pos 5) 78 (data_of post "2") 300
        ∷ delete (pos 5) 78
        ∷ scan_parent_shard (λ k. true) (alice ∷ [])
        ∷ [])
      (empty (λ n. 63763300000000000 + n)))
run-Consistent_example =
    run-Consistent node
      (reserve (pos 5)
        ∷ activate (pos 5) "1"
        ∷ initiate (pos 5) 78 (data_of post "2") 300
        ∷ delete (pos 5) 78
        ∷ scan_parent_shard (λ k. true) (alice ∷ [])
        ∷ [])
      (λ n. 63763300000000000 + n)

permissions_sound_example :
    (is_valid_debtor_id node (pos 5) false ≡ true) × MayAccess (no_debtor supervisor) (pos 5) "GET"
unfolding debtor_access permit is_valid_debtor_id is_read_only int_eq option_eq
permissions_sound_example =
    permissions_sound patterns node (no_debtor supervisor) (pos 5) "GET" none refl

post_transfer_again_example :
    let rt = initiated (pos 5) 78 (data_of post "2") database in
    let r = post_transfer node parsed (pos 5) post database in
    (r.0 ≡ reply 201 rt)
    × (transfer_row (pos 5) 78 r.1.running_transfers ≡ some rt)
    × (post_transfer node parsed (pos 5) post r.1 ≡ (redirected 303, r.1))
unfolding transfer_row debtor_row first int_eq is_active reset_actions date_of ◌+ℤ◌
post_transfer_again_example =
    post_transfer_again node parsed (pos 5) post account alice database refl refl refl refl refl
      refl

activate_directly_example :
    let d = reserved (pos 6) database in
    let db' = committed (reserve_debtor (pos 6) database) database in
    let d' = activated (db'.clock db'.readings) d in
    let r = post_debtor_activate node (pos 6) none database in
    (r.0 ≡ reply 200 d') × (debtor_row (pos 6) r.1.debtors ≡ some d') × (is_active d' ≡ true)
unfolding is_valid_debtor_id debtor_row first int_eq
activate_directly_example = activate_directly node (pos 6) database refl refl

delete_again_example :
    let r = delete_transfer_endpoint (pos 5) 77 database in
    (r.0 ≡ reply 204 tt)
    × (transfer_row (pos 5) 77 r.1.running_transfers ≡ none)
    × (delete_transfer_endpoint (pos 5) 77 r.1 ≡ (reply 204 tt, r.1))
unfolding count_uuid count int_eq
delete_again_example = delete_again (pos 5) 77 database (omega arith)
