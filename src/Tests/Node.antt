-- ===== src/Tests/Node.antt =====
-- The theorems about the enumeration, the messages, the shard and the reservations, at concrete
-- inputs.
use swpt_debtors.Prelude.{
  ℕ, ◌+◌, ◌-◌, leb, ◌≤◌, ◌≡◌, ◌↔◌, sym, refl, true, none, some, String, [], ◌∷◌, map, nat_Eq,
  int_Eq, ◌==◌, string_Eq, ℤ, pos, negsuc, ◌≤ℤ◌, leb_ℤ, int_eq, first, count, All, select_rows,
  arith, if◌then◌else◌,
}
use swpt_debtors.Models.{max_int64, min_int64, is_active, is_activated, is_deactivated}
use swpt_debtors.Settings.{is_valid_debtor_id}
use swpt_debtors.Store.{debtor_row}
use swpt_debtors.Procedures.Listing.{active_ids, length_ids}
use swpt_debtors.Behaviour.Sorted.{Increasing}
use mathlib.Core.Path.{subst}
use swpt_debtors.System.{run, empty}
use swpt_debtors.Invariants.DebtorKeys.{Unique}
use swpt_debtors.Invariants.DebtorRuns.{run-Unique}
use swpt_debtors.Invariants.Listed.{all_listed}
use swpt_debtors.Tests.Exchange.{opening, start, start_lem}
use swpt_debtors.Tests.Lifecycle.{ticks}
use swpt_debtors.Behaviour.Enumeration.{enumerate}
use swpt_debtors.Behaviour.Activation.{reserved, activated}
use swpt_debtors.Outgoing.{Body, configure_account, messages_of, out_message}
use swpt_debtors.Outgoing.Published.{are_tolerated, is_own, messages_of_lem}
use swpt_debtors.Shard.{verify_shard_content}
use swpt_debtors.Shard.Verified.{Belongs, verify_shard_content_iff}
use swpt_debtors.Setup.{Literal, integer, malformed, parse_debtor_id, debtor_id_of}
use swpt_debtors.Setup.Range.{IsTwosComplement, parse_debtor_id_range}
use swpt_debtors.Schemas.Links.{Links}
use swpt_debtors.Schemas.Requests.{load_activation}
use swpt_debtors.Schemas.Views.{dump_reservation}
use swpt_debtors.Web.Response.{reply}
use swpt_debtors.Web.Admin.{post_debtor_reserve, post_debtor_activate}
use swpt_debtors.Web.Reservation.{activation_of, reservation_activates}
use swpt_debtors.Tests.Sample.{whole, database}
use swpt_debtors.Tests.Web.{node}

pub start_length : length_ids (active_ids start) + 1 ≤ 2
unfolding select_rows is_active is_activated is_deactivated length_ids
start_length =
    subst (λ ds. length_ids (map (λ d. d.debtor_id) (select_rows is_active ds)) + 1 ≤ 2)
      (sym start_lem.0) (omega arith)

all_listed_example :
    Increasing (enumerate 2 (pos 0) 1 start)
    × ((k : ℤ)
        → count (λ y. y == k) (enumerate 2 (pos 0) 1 start)
          ≡ (if leb_ℤ (pos 0) k then count (λ y. y == k) (active_ids start) else 0))
all_listed_example = all_listed node opening ticks start 2 (pos 0) 1 refl (omega arith) start_length

run-Unique_example : Unique (run node opening (empty ticks)).debtors
run-Unique_example = run-Unique node opening ticks

abbrev announcement : ℤ → Body
announcement k = configure_account (record {
  debtor_id = k;
  creditor_id = pos 0;
  ts = 63763200000000000;
  seqnum = pos 1;
  negligible_amount = 0;
  config_data = "";
  config_flags = pos 0;
})

messages_of_lem_example : messages_of node (announcement (pos 5) ∷ announcement (pos 2000) ∷ []) ≡ (
    if are_tolerated node (announcement (pos 5) ∷ announcement (pos 2000) ∷ [])
    then some (
        map out_message
          (select_rows (is_own node) (announcement (pos 5) ∷ announcement (pos 2000) ∷ [])))
    else none)
messages_of_lem_example = messages_of_lem node (announcement (pos 5) ∷ announcement (pos 2000) ∷ [])

verify_shard_content_iff_example : (verify_shard_content node database ≡ 0) ↔ (
    All (Belongs node) (map (λ d. d.debtor_id) database.debtors)
    × All (Belongs node) (map (λ x. x.debtor_id) database.configure_account_signals)
    × All (Belongs node) (map (λ x. x.debtor_id) database.prepare_transfer_signals)
    × All (Belongs node) (map (λ x. x.debtor_id) database.finalize_transfer_signals))
verify_shard_content_iff_example = verify_shard_content_iff node database

abbrev to_signed : ℕ → ℤ
to_signed n = if leb n max_int64 then pos n else negsuc (max_int64 - (n - (max_int64 + 1)))

to_signed-IsTwosComplement : IsTwosComplement to_signed
to_signed-IsTwosComplement = record { low = λ n h. ground arith; high = λ n h. ground arith }

abbrev read : String → Literal
read text = if text == "0x10" then integer (pos 16) else malformed

parse_debtor_id_range_example : (min_int64 ≤ℤ pos 16) × (pos 16 ≤ℤ pos max_int64)
unfolding parse_debtor_id debtor_id_of
parse_debtor_id_range_example =
    parse_debtor_id_range to_signed to_signed-IsTwosComplement read "0x10" (pos 16) refl

abbrev pub links : Links
links = record {
  debtor = λ k. "/debtors/";
  debtor_config = λ k. "config";
  transfers_list = λ k. "transfers/";
  transfer = λ k uuid. "transfer";
  save_document = λ k. "documents/";
  redirect_to_debtors_info = λ k. "public";
  unsigned = λ k. "6";
  make_account_uri = λ k account_id. none;
}

reservation_activates_example :
    let d = reserved (pos 6) database in
    let r = post_debtor_reserve node (pos 6) database in
    let view = dump_reservation links 7 d in
    let d' = activated (r.1.clock r.1.readings) d in
    let r' = post_debtor_activate node (pos 6) (some view.reservation_id) r.1 in
    (r.0 ≡ reply 200 d)
    × (load_activation (activation_of view) ≡ some (some view.reservation_id))
    × (r'.0 ≡ reply 200 d')
    × (debtor_row (pos 6) r'.1.debtors ≡ some d')
    × (is_active d' ≡ true)
unfolding is_valid_debtor_id debtor_row first int_eq
reservation_activates_example = reservation_activates node links 7 (pos 6) database refl refl
