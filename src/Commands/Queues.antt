-- ===== src/Commands/Queues.antt =====
-- `delete_queue`: it asks for the state of the queue until it can be deleted.
use swpt_debtors.Prelude.{
  ℕ, zero, suc, Option, none, some, List, [], ◌∷◌, ◌++◌, String, ◌==◌, nat_Eq, if◌then◌else◌,
}
use swpt_debtors.Commands.Options.{text_or, BrokerConfig}
use swpt_debtors.Commands.Broker.{
  Request, queue_status, queue_delete, channel_open, channel_close, sleep,
}

-- What RabbitMQ answers to a passive declaration: the messages and the consumers of the queue, or
-- `ChannelClosedByBroker` with a reply code.
pub data Status : Type 0 where
  declared : ℕ → ℕ → Status
  closed : ℕ → Status

abbrev pub reply_code_not_found : ℕ
reply_code_not_found = 404

-- How the command ends
pub data Ending : Type 0 where
  already_deleted : Ending
  deleted : Ending
  raised : ℕ → Ending

-- One round of the loop: its requests, and its ending if it is the last one. The consumers are not
-- looked at.
unfoldable pub round : String → Status → List Request × Option Ending
round queue_name (closed reply_code) = (
  channel_open ∷ queue_status queue_name ∷ [],
  some (if reply_code == reply_code_not_found then already_deleted else raised reply_code),
)
round queue_name (declared message_count consumer_count) =
    if message_count == 0
    then (channel_open ∷ queue_status queue_name ∷ queue_delete queue_name ∷ [], some deleted)
    else (channel_open ∷ queue_status queue_name ∷ channel_close ∷ sleep 3000 ∷ [], none)

-- `while True`, with the answers from number `n` on: what is requested in at most `fuel` rounds, and
-- the ending if the loop has ended.
unfoldable pub delete_loop : ℕ → String → (ℕ → Status) → ℕ → List Request × Option Ending
unfolding round
delete_loop zero queue_name status n = ([], none)
delete_loop (suc fuel) queue_name status n =
    let now = round queue_name (status n) in
    elim now.1 [
      | some ending ↦ (now.0, some ending)
      | none ↦
          (let later = delete_loop fuel queue_name status (suc n) in (now.0 ++ later.0, later.1))
    ]

unfoldable pub delete_queue :
    ℕ → BrokerConfig → Option String → (ℕ → Status) → List Request × Option Ending
unfolding delete_loop text_or
delete_queue fuel c queue status = delete_loop fuel (text_or queue c.queue) status 0
