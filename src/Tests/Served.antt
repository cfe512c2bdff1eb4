-- ===== src/Tests/Served.antt =====
-- The theorems about whole requests, at a concrete request.
use Prim.Native.String.{len}
use swpt_debtors.Prelude.{
  ◌≤◌, ◌≡◌, refl, true, false, none, some, nat_Eq, string_Eq, int_Eq, option_Eq, pos, ◌+ℤ◌, int_eq,
  first,
}
use swpt_debtors.Settings.{is_valid_debtor_id}
use swpt_debtors.Models.{Database, max_int64, transfer_note_max_bytes, is_active, date_of}
use swpt_debtors.Store.{debtor_row, transfer_row}
use swpt_debtors.Procedures.Transfers.{refuse_if_initiated, initiate_running_transfer}
use swpt_debtors.Procedures.Config.{reset_actions}
use swpt_debtors.Schemas.Fields.{is_transfer_note_format}
use swpt_debtors.Behaviour.Initiation.{initiated}
use swpt_debtors.Schemas.Transfers.{TransferView, dump_transfer, calc_checkup_datetime}
use swpt_debtors.Schemas.Requests.{load_transfer}
use swpt_debtors.Web.Users.{User, ensure_debtor_permissions, parse_swpt_user_id_header}
use swpt_debtors.Web.Access.{MayAccess}
use swpt_debtors.Web.Response.{reply}
use swpt_debtors.Web.Transfers.{TransferRequest, data_of, post_transfer}
use swpt_debtors.Web.Served.{create_transfer, show_transfer}
use swpt_debtors.Web.Creation.{created_sound, created_then_shown}
use swpt_debtors.Tests.Sample.{whole, database}
use swpt_debtors.Tests.Web.{node, patterns, parsed}
use swpt_debtors.Tests.Schemas.{transfer_body, transfer_request}
use swpt_debtors.Tests.Node.{links}

abbrev after : Database
after = (post_transfer node parsed (pos 5) transfer_request database).1

abbrev view : TransferView
view =
    dump_transfer links 20000000 63763300000000000
      (initiated (pos 5) 78 (data_of transfer_request "2") database)

created_here :
    create_transfer patterns node links parsed 20000000 63763300000000000 none
      (pos 5)
      transfer_body
      database
    ≡ (reply 201 view, after)
unfolding create_transfer ensure_debtor_permissions parse_swpt_user_id_header is_valid_debtor_id
    load_transfer is_transfer_note_format post_transfer int_eq initiate_running_transfer
    refuse_if_initiated transfer_row first debtor_row is_active reset_actions date_of ◌+ℤ◌
created_here = refl

created_sound_example :
    (user : User) × (parse_swpt_user_id_header patterns none ≡ some user)
    × (is_valid_debtor_id node (pos 5) false ≡ true)
    × MayAccess user (pos 5) "POST"
    × ((q : TransferRequest) × (load_transfer transfer_body ≡ some q)
        × (view.transfer_uuid ≡ q.transfer_uuid)
        × (view.recipient ≡ q.recipient_uri)
        × (view.amount ≡ q.amount)
        × (view.transfer_note_format ≡ q.transfer_note_format)
        × (view.transfer_note ≡ q.transfer_note))
    × (view.result ≡ none)
    × (view.amount ≤ max_int64)
    × (len view.transfer_note ≤ transfer_note_max_bytes)
created_sound_example =
    created_sound patterns node links parsed 20000000 63763300000000000 none (pos 5) transfer_body
      database after view created_here

created_then_shown_example :
    show_transfer patterns node links parsed 20000000 63763300050000000 none
      (pos 5)
      view.transfer_uuid
      after
    ≡ (
      reply 200 (record view {
        checkup_at = some (calc_checkup_datetime 20000000 63763300050000000 view.initiated_at);
      }),
      after,
    )
created_then_shown_example =
    created_then_shown patterns node links parsed 20000000 63763300000000000 none (pos 5)
      transfer_body database after view 63763300050000000 created_here
