-- ===== src/Tests/Operations.antt =====
-- The theorems about the commands, the set-up and the list of debtors, at concrete inputs.
use swpt_debtors.Prelude.{
  ℕ, All, map, sym, zero, suc, ◌+◌, ◌*◌, ◌<◌, ◌≡◌, refl, true, false, none, some, Option, String,
  List, [], ◌∷◌, ◌++◌, ◌==◌, nat_Eq, string_Eq, int_Eq, int_eq, option_eq, first, ℤ, pos,
  select_rows, leb_ℤ, arith, if◌then◌else◌,
}
use mathlib.Core.Path.{subst}
use swpt_debtors.Models.{min_int64, is_active, date_of}
use swpt_debtors.Commands.Options.{text_or, BrokerConfig}
use swpt_debtors.Commands.Queues.{
  Status, declared, closed, deleted, already_deleted, raised, delete_queue,
}
use swpt_debtors.Commands.Emptied.{HasMessages, waits, last_requests, delete_queue_ends}
use swpt_debtors.Commands.Flushing.{Round, pause, flush_loop}
use swpt_debtors.Commands.Periods.{IsPunctual, SpacedFrom, flush_loop-SpacedFrom}
use swpt_debtors.Setup.Environment.{
  Conversions, Attribute, integer, boolean, get_attribute, read_environment,
}
use swpt_debtors.Setup.Overrides.{variable, override_all, read_environment-eq-override_all}
use swpt_debtors.Setup.Logging.{remove_handlers}
use swpt_debtors.Setup.Handlers.{remove_handlers_leaves}
use swpt_debtors.Procedures.Listing.{active_ids, sort_ids}
use swpt_debtors.Schemas.Links.{ListLinks}
use swpt_debtors.Schemas.Listing.{debtors_list}
use swpt_debtors.Web.Response.{reply}
use swpt_debtors.Web.Users.{
  UserPatterns, debtor_user, match_user, ensure_debtor_permissions, parse_swpt_user_id_header,
  ensure_admin,
}
use swpt_debtors.Web.Listing.{show_debtors_list, crawl}
use swpt_debtors.Schemas.Requests.{ConfigBody, load_config}
use swpt_debtors.Store.{debtor_row}
use swpt_debtors.Store.OtherLaws.{transfers_of}
use swpt_debtors.Web.Handled.{update_config, serve, update_config_request}
use swpt_debtors.Web.Isolation.{requests_isolated}
use swpt_debtors.Settings.{is_valid_debtor_id}
use swpt_debtors.Procedures.Config.{update_debtor_config, reset_actions}
use swpt_debtors.Web.Debtors.{patch_debtor_config}
use swpt_debtors.Web.Crawled.{Routed, references, list_of_debtors_complete}
use swpt_debtors.Tests.Sample.{whole, database}
use swpt_debtors.Tests.Lifecycle.{ticks}
use swpt_debtors.Tests.Exchange.{opening, start, start_lem}
use swpt_debtors.Tests.Web.{node, patterns}
use swpt_debtors.Tests.Node.{links, start_length}

abbrev broker_config : BrokerConfig
broker_config = record { url = "amqp://localhost"; queue = "swpt_debtors"; queue_routing_key = "#" }

-- A queue with two messages, then with one, then empty
abbrev draining : ℕ → Status
draining zero = declared 2 1
draining (suc zero) = declared 1 0
draining _ = declared 0 0

draining_busy : (i : ℕ) → i < 2 → HasMessages (draining i)
draining_busy zero h = omega arith
draining_busy (suc zero) h = omega arith
draining_busy (suc (suc i)) h = absurd (omega arith)

delete_queue_ends_example :
    delete_queue 5 broker_config none draining
    ≡ (waits 2 "swpt_debtors" ++ last_requests "swpt_debtors" deleted, some deleted)
unfolding text_or
delete_queue_ends_example =
    delete_queue_ends 5 2 broker_config none draining deleted (omega arith) draining_busy refl

-- A missing queue and another error end the command at once.
missing_queue : (delete_queue 1 broker_config none (λ n. closed 404)).1 ≡ some already_deleted
unfolding delete_queue
missing_queue = refl

other_error : (delete_queue 1 broker_config none (λ n. closed 403)).1 ≡ some (raised 403)
unfolding delete_queue
other_error = refl

-- Every round takes three units and the worker sleeps for the rest of ten.
abbrev steady : ℕ → Round
steady n = record { stopped = false; started_at = n * 10; count = some 1; finished_at = n * 10 + 3 }

steady-IsPunctual : IsPunctual 10 steady
unfolding pause
steady-IsPunctual = record { forward = λ n. omega arith; rested = λ n. omega arith }

flush_loop-SpacedFrom_example : SpacedFrom 10 0 (flush_loop 4 false 10 steady 0).0
flush_loop-SpacedFrom_example = flush_loop-SpacedFrom 4 10 false steady steady-IsPunctual

abbrev conversions : Conversions
conversions = record {
  lower = λ s. s;
  int_of = λ s. if s == "7" then some (pos 7) else none;
  float_of = λ s. none;
  debtor_id_of = λ s. none;
  json_of = λ s. none;
  dict_of = λ s. none;
}

abbrev attributes : List Attribute
attributes =
    record { name = "APP_DEBTORS_SCAN_DAYS"; annotation = none; value = integer (pos 14) }
    ∷ record { name = "APP_ENABLE_CORS"; annotation = none; value = boolean false }
    ∷ []

read_environment-eq-override_all_example :
    read_environment conversions
      (("HOME", "/root") ∷ ("APP_ENABLE_CORS", "on") ∷ ("APP_DEBTORS_SCAN_DAYS", "7") ∷ [])
      attributes
    ≡ override_all conversions
        (("HOME", "/root") ∷ ("APP_ENABLE_CORS", "on") ∷ ("APP_DEBTORS_SCAN_DAYS", "7") ∷ [])
        attributes
unfolding variable get_attribute first
read_environment-eq-override_all_example =
    read_environment-eq-override_all conversions
      (("HOME", "/root") ∷ ("APP_ENABLE_CORS", "on") ∷ ("APP_DEBTORS_SCAN_DAYS", "7") ∷ [])
      attributes (refl, (refl, (refl, tt))) (refl, (refl, tt))

-- An empty variable of a number stops the program; the truth value is turned on.
read_runs :
    read_environment conversions (("APP_ENABLE_CORS", "0") ∷ []) attributes
    ≡ some (
        record { name = "APP_DEBTORS_SCAN_DAYS"; annotation = none; value = integer (pos 14) }
        ∷ record { name = "APP_ENABLE_CORS"; annotation = none; value = boolean true }
        ∷ [])
unfolding read_environment first
read_runs = refl

empty_number : read_environment conversions (("APP_DEBTORS_SCAN_DAYS", "") ∷ []) attributes ≡ none
unfolding read_environment first
empty_number = refl

remove_handlers_leaves_example : remove_handlers (1 ∷ 2 ∷ 3 ∷ 4 ∷ 5 ∷ []) ≡ 2 ∷ 4 ∷ []
remove_handlers_leaves_example = remove_handlers_leaves (1 ∷ 2 ∷ 3 ∷ 4 ∷ 5 ∷ []) (
  (refl, (refl, (refl, (refl, tt)))),
  ((refl, (refl, (refl, tt))), ((refl, (refl, tt)), ((refl, tt), (tt, tt)))),
)

-- The links to the pages of the list of a node with one debtor, as the server writes them
abbrev first_link : String
first_link = "/debtors/9223372036854775808/enumerate"

abbrev list_links : ListLinks
list_links = record {
  debtors_list = "/debtors/.list";
  enumerate = λ k.
      if k == pos 5
      then "/debtors/5/enumerate"
      else if k == min_int64
      then first_link
      else "/debtors/0/enumerate";
}

abbrev list_route : String → Option ℤ
list_route link =
    if link == first_link
    then some min_int64
    else if link == "/debtors/5/enumerate"
    then some (pos 5)
    else none

list_links-Routed :
    All (Routed patterns node links list_links none list_route) (min_int64 ∷ active_ids start)
unfolding int_eq is_active select_rows
list_links-Routed =
    subst
      (λ ds.
        All (Routed patterns node links list_links none list_route)
          (min_int64 ∷ map (λ d. d.debtor_id) (select_rows is_active ds)))
      (sym start_lem.0) (refl, (refl, tt))

list_of_debtors_complete_example :
    (show_debtors_list patterns node links list_links none start
      ≡ (reply 200 (debtors_list list_links), start))
    × (crawl patterns node links list_links none list_route 2 (debtors_list list_links).first start
        ≡ references node links (select_rows (leb_ℤ min_int64) (sort_ids (active_ids start))))
unfolding ensure_admin parse_swpt_user_id_header
list_of_debtors_complete_example =
    list_of_debtors_complete patterns node links list_links none list_route true opening ticks start
      2 refl (omega arith) list_links-Routed refl start_length

abbrev debtors_only : UserPatterns
debtors_only = record {
  matches = λ t user_id. elim t [ debtor_user ↦ true | _ ↦ false ];
  group_number = λ user_id. 5;
  u64_to_i64 = pos;
}

abbrev new_config : ConfigBody
new_config = record {
  type = none;
  latest_update_id = some (pos 2);
  config_data = some "https://example.com/";
}

requests_isolated_example :
    let db' =
      (serve debtors_only node links 14
        (λ uri. none)
        20000000
        (ticks 0)
        (some "debtors:5")
        (pos 5)
        (update_config new_config)
        database).1 in
    (debtor_row (pos 6) db'.debtors ≡ debtor_row (pos 6) database.debtors)
    × (transfers_of (pos 6) db'.running_transfers ≡ transfers_of (pos 6) database.running_transfers)
unfolding parse_swpt_user_id_header match_user int_eq
requests_isolated_example =
    requests_isolated debtors_only node (some "debtors:5") (pos 5) refl links 14 (λ uri. none)
      20000000 (ticks 0) (pos 5) (update_config new_config) database (pos 6) refl

-- The request is performed: its own debtor changes.
own_request :
    (serve debtors_only node links 14
      (λ uri. none)
      20000000
      (ticks 0)
      (some "debtors:5")
      (pos 5)
      (update_config new_config)
      database).0
    ≡ 200
unfolding serve update_config_request ensure_debtor_permissions parse_swpt_user_id_header match_user
    is_valid_debtor_id option_eq int_eq load_config patch_debtor_config update_debtor_config
    debtor_row first is_active reset_actions date_of
own_request = refl
