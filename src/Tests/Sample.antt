-- ===== src/Tests/Sample.antt =====
-- The data of the tests: whole numbers in the place of floats, a debtor, a transfer, messages.
use swpt_debtors.Prelude.{
  ℕ, ◌+◌, ◌*◌, ◌/◌, ◌%◌, ◌^◌, ◌≡◌, refl, true, false, Option, none, some, [], ◌∷◌, String, ◌==◌,
  nat_Eq, string_Eq, ℤ, pos, negsuc, ◌+ℤ◌, ◌-ℤ◌, ◌≤ℤ◌, leb_ℤ, ltb_ℤ, int_eq, int_eq_iff, int_laws,
  arith, if◌then◌else◌,
}
use swpt_debtors.Platform.{Platform, IsStandard, Json, dict, str, field, end}
use swpt_debtors.Models.{Database, Debtor, RunningTransfer}
use swpt_debtors.Procedures.Messages.{PreparedTransfer, AccountUpdate}

abbrev pub encode : ℤ → ℕ
encode (pos n) = n * 2
encode (negsuc n) = n * 2 + 1

abbrev pub decode : ℕ → ℤ
decode x = if x % 2 == 0 then pos (x / 2) else negsuc (x / 2)

pub decode-encode : (z : ℤ) → decode (encode z) ≡ z
decode-encode (pos n) = ground arith
decode-encode (negsuc n) = ground arith

abbrev product : ℤ → ℤ → ℤ
product (pos a) (pos b) = pos (a * b)
product a b = pos 0

abbrev size : ℤ → ℤ
size a = if ltb_ℤ a (pos 0) then pos 0 -ℤ a else a

abbrev no_info : String → Option Json
no_info s =
    if s == "" then none else some (dict (field "info" (dict (field "iri" (str s) end)) end))

instance abbrev pub whole : Platform
whole = record {
  of_int = encode;
  negate = λ x. encode (pos 0 -ℤ decode x);
  absolute = λ x. encode (size (decode x));
  plus = λ x y. encode (decode x +ℤ decode y);
  minus = λ x y. encode (decode x -ℤ decode y);
  times = λ x y. encode (product (decode x) (decode y));
  leq = λ x y. leb_ℤ (decode x) (decode y);
  one = 2;
  eps = 0;
  huge_negligible_amount = 2 * 10 ^ 30;
  to_real = λ x. x;
  json_loads = no_info;
  increment_seqnum = λ n. n +ℤ pos 1;
  seqnum_eq = int_eq;
  seqnum_le = leb_ℤ;
}

cancels : (m : ℤ) → m +ℤ (pos 0 -ℤ m) ≡ pos 0
cancels m = omega int_laws

product_zero : (z : ℤ) → product (pos 0) z ≡ pos 0
product_zero (pos b) = ground arith
product_zero (negsuc b) = refl

whole_precision :
    (m : ℤ)
    → m ≤ℤ pos 0
    → whole.leq
        (whole.absolute (whole.plus (encode m) (whole.negate (encode m))))
        (whole.times 0 (whole.negate (encode m)))
      ≡ true
whole_precision m h = simp (decode-encode, cancels) (ground (arith, product_zero (pos 0 -ℤ m)))

whole_seqnum_le : (n : ℤ) → leb_ℤ n n ≡ true
whole_seqnum_le n = ground arith

pub whole-IsStandard : IsStandard whole
unfolding ◌-ℤ◌
whole-IsStandard = record {
  real_precision = whole_precision;
  seqnum_eq_refl = λ n. (int_eq_iff n n).1 refl;
  seqnum_le_refl = whole_seqnum_le;
  real_huge = refl;
}

-- An activated debtor with the identifier 5, on day 738000.
abbrev pub alice : Debtor
alice = record {
  debtor_id = pos 5;
  status_flags = 1;
  deactivation_date = none;
  reservation_id = some 17;
  created_at = 63763200000000000;
  balance = negsuc 99;
  min_balance = negsuc 4999;
  transfer_note_max_bytes = pos 500;
  running_transfers_count = pos 1;
  actions_count = 2;
  actions_count_reset_date = 738000;
  documents_count = 0;
  documents_count_reset_date = 738000;
  has_server_account = true;
  account_creation_date = 737000;
  account_last_change_ts = 63763200000000000;
  account_last_change_seqnum = pos 3;
  account_last_heartbeat_ts = 63763200000000000;
  account_id = "0";
  last_config_ts = 63763200000000000;
  last_config_seqnum = pos 1;
  is_config_effectual = false;
  config_flags = pos 0;
  config_data = "https://example.com/";
  config_error = some "CONFIGURATION_IS_NOT_EFFECTUAL";
  config_latest_update_id = 2;
  debtor_info_iri = none;
}

-- A debtor that is reserved and not activated.
abbrev pub bob : Debtor
bob = record alice {
  debtor_id = negsuc 7;
  status_flags = 0;
  reservation_id = some 18;
  running_transfers_count = pos 0;
}

-- An open transfer of the debtor, with the request identifier 9.
abbrev pub payment : RunningTransfer
payment = record {
  debtor_id = pos 5;
  transfer_uuid = 77;
  amount = 40;
  recipient_uri = "swpt:5/1";
  recipient = "1";
  transfer_note_format = "";
  transfer_note = "rent";
  initiated_at = 63763200000000000;
  finalized_at = none;
  error_code = none;
  total_locked_amount = none;
  coordinator_request_id = pos 9;
  transfer_id = none;
}

abbrev pub database : Database
database = record {
  debtors = bob ∷ alice ∷ [];
  running_transfers = payment ∷ [];
  documents = [];
  configure_account_signals = [];
  prepare_transfer_signals = [];
  finalize_transfer_signals = [];
  next_reservation_id = 19;
  next_coordinator_request_id = 10;
  next_document_id = 1;
  next_signal_id = 1;
  clock = λ n. 63763300000000000 + n;
  readings = 0;
}

abbrev pub prepared : PreparedTransfer
prepared = record {
  debtor_id = pos 5;
  creditor_id = pos 0;
  transfer_id = pos 123;
  coordinator_type = "issuing";
  coordinator_id = pos 5;
  coordinator_request_id = pos 9;
  locked_amount = pos 40;
  recipient = "1";
}

-- A report of the configuration that the debtor has announced.
abbrev pub report : AccountUpdate
report = record {
  debtor_id = pos 5;
  creditor_id = pos 0;
  creation_date = 737000;
  last_change_ts = 63763250000000000;
  last_change_seqnum = pos 4;
  principal = negsuc 139;
  interest_rate = 0;
  last_config_ts = 63763200000000000;
  last_config_seqnum = pos 1;
  negligible_amount = 10000;
  config_data = "https://example.com/";
  config_flags = pos 0;
  account_id = "0";
  transfer_note_max_bytes = pos 500;
  ts = 63763299000000000;
  ttl = 604800;
}
