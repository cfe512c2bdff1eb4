-- ===== src/Models/Transfers.antt =====
-- `class RunningTransfer` and `class Document`.
use swpt_debtors.Prelude.{
  ℕ, ◌≡◌, Bool, true, false, Option, none, some, ◌⊎◌, List, String, ℤ, pos, ◌≤ℤ◌,
}
use swpt_debtors.Platform.{Timestamp}

pub record RunningTransfer : Type 0 where
  pub debtor_id : ℤ
  pub transfer_uuid : ℕ
  pub amount : ℕ
  pub recipient_uri : String
  pub recipient : String
  pub transfer_note_format : String
  pub transfer_note : String
  pub initiated_at : Timestamp
  pub finalized_at : Option Timestamp
  pub error_code : Option String
  pub total_locked_amount : Option ℤ
  pub coordinator_request_id : ℤ
  pub transfer_id : Option ℤ

unfoldable pub is_settled : RunningTransfer → Bool
is_settled rt = elim rt.transfer_id [ none ↦ false | some _ ↦ true ]

unfoldable pub is_finalized : RunningTransfer → Bool
is_finalized rt = elim rt.finalized_at [ none ↦ false | some _ ↦ true ]

abbrev pub IsNonneg : Option ℤ → Type 0
IsNonneg none = Unit
IsNonneg (some n) = pos 0 ≤ℤ n

-- The table's CHECK constraints.
pub record TransferChecks (rt : RunningTransfer) : Type 0 where
  pub total_locked_nonneg : IsNonneg rt.total_locked_amount
  pub error_when_finalized : (rt.error_code ≡ none) ⊎ (is_finalized rt ≡ true)

pub record Document : Type 0 where
  pub debtor_id : ℤ
  pub document_id : ℕ
  pub content_type : String
  pub content : List ℕ
  pub inserted_at : Timestamp
