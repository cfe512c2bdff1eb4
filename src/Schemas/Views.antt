-- ===== src/Schemas/Views.antt =====
-- How debtors are rendered. The constant types of the objects, and the formats of times, are left
-- out.
use Prim.Native.String
use swpt_debtors.Prelude.{ℕ, ◌+◌, ◌*◌, Option, none, some, List, String, ℤ}
use swpt_debtors.Platform.{Timestamp}
use swpt_debtors.Models.{Debtor, microseconds_per_day}
use swpt_debtors.Procedures.Decimal.{str_of_id}
use swpt_debtors.Schemas.Links.{Links}

-- `str(obj.reservation_id or 0)`
unfoldable pub reservation_text : Option ℕ → String
unfolding str_of_id
reservation_text none = str_of_id (some 0)
reservation_text (some n) = str_of_id (some n)

-- APP_INACTIVE_DEBTOR_RETENTION_DAYS after the creation
unfoldable pub calc_reservation_deadline : ℕ → Timestamp → Timestamp
calc_reservation_deadline retention_days created_at =
    created_at + retention_days * microseconds_per_day

-- DebtorReservationSchema
pub record ReservationView : Type 0 where
  pub created_at : Timestamp
  pub reservation_id : String
  pub debtor_id : String
  pub valid_until : Timestamp

-- DebtorConfigSchema
pub record ConfigView : Type 0 where
  pub uri : String
  pub debtor : String
  pub config_data : String
  pub latest_update_id : ℕ
  pub latest_update_ts : Timestamp

-- DebtorSchema
pub record DebtorView : Type 0 where
  pub uri : String
  pub identity : String
  pub config : ConfigView
  pub transfers_list : String
  pub create_transfer : String
  pub save_document : String
  pub public_info_document : String
  pub created_at : Timestamp
  pub balance : ℤ
  pub min_balance : ℤ
  pub transfer_note_max_bytes : ℤ
  pub optional_config_error : Option String
  pub optional_account : Option String

-- TransfersListSchema
pub record TransfersListView : Type 0 where
  pub uri : String
  pub debtor : String
  pub items : List ℕ

module _ (u : Links) where
  unfoldable pub dump_reservation : ℕ → Debtor → ReservationView
  unfolding reservation_text calc_reservation_deadline
  dump_reservation retention_days d = record {
    created_at = d.created_at;
    reservation_id = reservation_text d.reservation_id;
    debtor_id = u.unsigned d.debtor_id;
    valid_until = calc_reservation_deadline retention_days d.created_at;
  }

  unfoldable pub dump_config : Debtor → ConfigView
  dump_config d = record {
    uri = u.debtor_config d.debtor_id;
    debtor = u.debtor d.debtor_id;
    config_data = d.config_data;
    latest_update_id = d.config_latest_update_id;
    latest_update_ts = d.last_config_ts;
  }

  unfoldable pub dump_debtor : Debtor → DebtorView
  unfolding dump_config
  dump_debtor d = record {
    uri = u.debtor d.debtor_id;
    identity = String.◌++◌ "swpt:" (u.unsigned d.debtor_id);
    config = dump_config d;
    transfers_list = u.transfers_list d.debtor_id;
    create_transfer = u.transfers_list d.debtor_id;
    save_document = u.save_document d.debtor_id;
    public_info_document = u.redirect_to_debtors_info d.debtor_id;
    created_at = d.created_at;
    balance = d.balance;
    min_balance = d.min_balance;
    transfer_note_max_bytes = d.transfer_note_max_bytes;
    optional_config_error = d.config_error;
    optional_account = u.make_account_uri d.debtor_id d.account_id;
  }

  -- The items are the UUIDs, which are relative references.
  unfoldable pub dump_transfers_list : ℤ → List ℕ → TransfersListView
  dump_transfers_list debtor_id items = record {
    uri = u.transfers_list debtor_id;
    debtor = u.debtor debtor_id;
    items = items;
  }
