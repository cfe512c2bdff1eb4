-- ===== src/Outgoing/Published.antt =====
-- Which messages are published.
use swpt_debtors.Prelude.{
  ◌≡◌, refl, Bool, true, false, ◌&&◌, ◌||◌, none, some, List, [], ◌∷◌, map, arith, select_rows,
  if◌then◌else◌,
}
use swpt_debtors.Settings.{Settings, is_valid_debtor_id}
use swpt_debtors.Outgoing.{Body, body_debtor_id, out_message, create_message, messages_of}

-- The debtor is the node's, or it was the parent shard's, whose records the node is configured to
-- delete.
abbrev pub is_tolerated : Settings → Body → Bool
is_tolerated s b =
    is_valid_debtor_id s (body_debtor_id b) false
    || (s.delete_parent_shard_records && is_valid_debtor_id s (body_debtor_id b) true)

abbrev pub are_tolerated : Settings → List Body → Bool
are_tolerated s [] = true
are_tolerated s (b ∷ bs) = is_tolerated s b && are_tolerated s bs

abbrev pub is_own : Settings → Body → Bool
is_own s b = is_valid_debtor_id s (body_debtor_id b) false

-- A debtor is tolerated if it is the node's, or if it was the parent shard's and
-- DELETE_PARENT_SHARD_RECORDS is set. If every debtor is tolerated, the messages about the node's own
-- debtors are published, in order, and no other; otherwise nothing is published.
pub messages_of_lem :
    (s : Settings) (bs : List Body)
    → messages_of s bs
      ≡ (if are_tolerated s bs then some (map out_message (select_rows (is_own s) bs)) else none)
unfolding messages_of create_message select_rows
messages_of_lem s [] = refl
messages_of_lem s (b ∷ bs) = ground (arith, messages_of_lem s bs)
