-- ===== src/Tests/Schemas.antt =====
-- The theorems about the requests, at concrete inputs.
use Prim.Native.String.{len, count}
use swpt_debtors.Prelude.{◌≤◌, ◌≡◌, ◌↔◌, refl, true, none, some, string_Eq, pos}
use swpt_debtors.Models.{max_int64, transfer_note_max_bytes}
use swpt_debtors.Web.Transfers.{TransferRequest}
use swpt_debtors.Schemas.Fields.{is_transfer_note_format, matches_format, at_end}
use swpt_debtors.Schemas.Requests.{
  TransferBody, load_account_identity, load_transfer, ConfigBody, ConfigRequest,
}
use swpt_debtors.Schemas.Accepts.{Formatted, is_transfer_note_format_iff}
use swpt_debtors.Schemas.Bounds.{load_transfer_bounds}

abbrev pub transfer_body : TransferBody
transfer_body = record {
  type = none;
  transfer_uuid = some 78;
  recipient = some (record { type = some "AccountIdentity"; uri = some "swpt:5/2" });
  amount = some (pos 7);
  note_format = some ".uri";
  note = some "https://example.com/";
}

abbrev pub transfer_request : TransferRequest
transfer_request = record {
  transfer_uuid = 78;
  recipient_uri = "swpt:5/2";
  amount = 7;
  transfer_note_format = ".uri";
  transfer_note = "https://example.com/";
}

load_transfer_bounds_example :
    (transfer_request.amount ≤ max_int64)
    × (len transfer_request.transfer_note ≤ transfer_note_max_bytes)
    × (count transfer_request.recipient_uri ≤ 200)
    × Formatted 8 transfer_request.transfer_note_format
unfolding load_transfer load_account_identity is_transfer_note_format matches_format at_end
load_transfer_bounds_example = load_transfer_bounds transfer_body transfer_request refl

abbrev config_body : ConfigBody
config_body = record { type = none; latest_update_id = some (pos 3); config_data = some "{}" }

abbrev config_request : ConfigRequest
config_request = record { latest_update_id = 3; config_data = "{}" }

-- A newline at the end is accepted.
is_transfer_note_format_iff_example :
    (is_transfer_note_format ".uri\n" ≡ true) ↔ Formatted 8 ".uri\n"
is_transfer_note_format_iff_example = is_transfer_note_format_iff ".uri\n"
