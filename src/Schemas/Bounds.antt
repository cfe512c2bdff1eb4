-- ===== src/Schemas/Bounds.antt =====
-- What the requests that the schemas accept are bounded by.
use swpt_debtors.Prelude.{
  ℕ, ◌≤◌, ◌≡◌, refl, Bool, true, ◌&&◌, Option, none, some, String, nat_Eq, string_Eq, ℤ, pos,
  negsuc, inl, inr, Bool-cases, arith,
}
use mathlib.Core.Path.{subst}
use Prim.Native.String.{len, count}
use swpt_debtors.Models.{max_int64, transfer_note_max_bytes, config_data_max_bytes}
use swpt_debtors.Web.Transfers.{TransferRequest}
use swpt_debtors.Schemas.Fields.{
  ◌>>=◌, required, with_default, in_range, max_length, valid_type, is_transfer_note_format,
}
use swpt_debtors.Schemas.Requests.{
  IdentityBody, load_account_identity, magnitude, max_bytes, TransferBody, load_transfer,
  ConfigBody, ConfigRequest, load_config,
}
use swpt_debtors.Schemas.Accepts.{Formatted, end, is_transfer_note_format_iff}

-- A chain of checks that accepts has accepted each.
bind_some :
    {A B : Type 0} (m : Option A) (f : A → Option B) (b : B)
    → (m >>= f) ≡ some b
    → (a : A) × (m ≡ some a) × (f a ≡ some b)
bind_some none f b h = absurd cc
bind_some (some a) f b h = (a, refl, h)

some_injective : {A : Type 0} (a b : A) → some a ≡ some b → a ≡ b
some_injective a b h = cc

required-some :
    {A : Type 0} (o : Option A) (valid : A → Bool) (a : A)
    → required o valid ≡ some a
    → valid a ≡ true
required-some none valid a h = absurd cc
required-some (some x) valid a h = elim (Bool-cases (valid x)) [
  | inl e ↦
      let same : some x ≡ some a = rw e at h in
      subst (λ y. valid y ≡ true) (some_injective x a same) e
  | inr e ↦ let away : none ≡ some a = rw e at h in absurd cc
]

with_default-some :
    {A : Type 0} (d : A) (o : Option A) (valid : A → Bool) (a : A)
    → valid d ≡ true
    → with_default d o valid ≡ some a
    → valid a ≡ true
with_default-some d none valid a h e = subst (λ y. valid y ≡ true) (some_injective d a e) h
with_default-some d (some x) valid a h e = required-some (some x) valid a e

load_identity_bound :
    (i : IdentityBody) (uri : String) → load_account_identity i ≡ some uri → count uri ≤ 200
unfolding load_account_identity
load_identity_bound i uri h =
    let s1 = bind_some (valid_type "AccountIdentitySchema" i.type) _ uri h in
    ground (arith, required-some i.uri (max_length 200) uri s1.2)

magnitude_bound : (n : ℤ) → in_range (pos 0) (pos max_int64) n ≡ true → magnitude n ≤ max_int64
magnitude_bound (pos n) h = ground arith
magnitude_bound (negsuc n) h = ground arith

positive_magnitude : (n : ℤ) → in_range (pos 1) (pos max_int64) n ≡ true → 1 ≤ magnitude n
positive_magnitude (pos n) h = ground arith
positive_magnitude (negsuc n) h = ground arith

bytes_bound : (n : ℕ) (s : String) → (max_length n s && max_bytes n s) ≡ true → len s ≤ n
bytes_bound n s h = ground arith

-- A new transfer that is accepted has an amount that fits 64 bits, a note of at most 500 bytes in
-- UTF-8, a recipient's URI of at most 200 characters, and a format of the note that has at most eight
-- characters of the set, and perhaps a newline after them.
pub load_transfer_bounds :
    (b : TransferBody) (q : TransferRequest)
    → load_transfer b ≡ some q
    → (q.amount ≤ max_int64)
      × (len q.transfer_note ≤ transfer_note_max_bytes)
      × (count q.recipient_uri ≤ 200)
      × Formatted 8 q.transfer_note_format
unfolding load_transfer load_account_identity
load_transfer_bounds b q h =
    let s1 = bind_some (valid_type "TransferCreationRequestSchema" b.type) _ q h in
    let s2 = bind_some (required b.transfer_uuid (λ _. true)) _ q s1.2 in
    let s3 = bind_some (required b.recipient (λ _. true)) _ q s2.2 in
    let s4 = bind_some (load_account_identity s3.0) _ q s3.2 in
    let s5 = bind_some (required b.amount (in_range (pos 0) (pos max_int64))) _ q s4.2 in
    let s6 = bind_some (with_default "" b.note_format is_transfer_note_format) _ q s5.2 in
    let s7 =
      bind_some
        (with_default "" b.note
          (λ s. max_length transfer_note_max_bytes s && max_bytes transfer_note_max_bytes s))
        _ q s6.2 in
    let loaded : TransferRequest = record {
      transfer_uuid = s2.0;
      recipient_uri = s4.0;
      amount = magnitude s5.0;
      transfer_note_format = s6.0;
      transfer_note = s7.0;
    } in
    let bounded : (loaded.amount ≤ max_int64)
        × (len loaded.transfer_note ≤ transfer_note_max_bytes)
        × (count loaded.recipient_uri ≤ 200)
        × Formatted 8 loaded.transfer_note_format =
      (
        magnitude_bound s5.0 (required-some b.amount (in_range (pos 0) (pos max_int64)) s5.0 s5.1),
        bytes_bound transfer_note_max_bytes s7.0 (
            with_default-some "" b.note
              (λ s. max_length transfer_note_max_bytes s && max_bytes transfer_note_max_bytes s)
              s7.0 refl s7.1),
        load_identity_bound s3.0 s4.0 s4.1,
        (is_transfer_note_format_iff s6.0).0 (
            with_default-some "" b.note_format is_transfer_note_format s6.0
              ((is_transfer_note_format_iff "").1 end) s6.1),
      ) in
    subst
      (λ x.
        (x.amount ≤ max_int64)
        × (len x.transfer_note ≤ transfer_note_max_bytes)
        × (count x.recipient_uri ≤ 200)
        × Formatted 8 x.transfer_note_format)
      (some_injective loaded q s7.2) bounded

-- A configuration that is accepted has a positive number of 64 bits, and data of at most 2000 bytes
-- in UTF-8.
pub load_config_bounds :
    (b : ConfigBody) (q : ConfigRequest)
    → load_config b ≡ some q
    → (1 ≤ q.latest_update_id)
      × (q.latest_update_id ≤ max_int64)
      × (len q.config_data ≤ config_data_max_bytes)
unfolding load_config
load_config_bounds b q h =
    let s1 = bind_some (valid_type "DebtorConfigSchema" b.type) _ q h in
    let s2 = bind_some (required b.latest_update_id (in_range (pos 1) (pos max_int64))) _ q s1.2 in
    let fits : String → Bool =
      λ s. max_length config_data_max_bytes s && max_bytes config_data_max_bytes s in
    let s3 = bind_some (required b.config_data fits) _ q s2.2 in
    let positive = required-some b.latest_update_id (in_range (pos 1) (pos max_int64)) s2.0 s2.1 in
    let loaded : ConfigRequest = record { latest_update_id = magnitude s2.0; config_data = s3.0 } in
    let bounded : (1 ≤ loaded.latest_update_id)
        × (loaded.latest_update_id ≤ max_int64)
        × (len loaded.config_data ≤ config_data_max_bytes) =
      (
        positive_magnitude s2.0 positive,
        magnitude_bound s2.0 (ground (arith, positive)),
        bytes_bound config_data_max_bytes s3.0 (required-some b.config_data fits s3.0 s3.1),
      ) in
    subst
      (λ x.
        (1 ≤ x.latest_update_id)
        × (x.latest_update_id ≤ max_int64)
        × (len x.config_data ≤ config_data_max_bytes))
      (some_injective loaded q s3.2) bounded
