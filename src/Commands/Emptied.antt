-- ===== src/Commands/Emptied.antt =====
-- When `delete_queue` ends, and what it has requested by then.
use swpt_debtors.Prelude.{
  ℕ, zero, suc, ◌+◌, ◌<◌, ◌≡◌, ◌≢◌, Option, none, some, List, [], ◌∷◌, ◌++◌, String, nat_Eq, arith,
}
use mathlib.Core.Path.{subst}
use swpt_debtors.Commands.Options.{text_or, BrokerConfig}
use swpt_debtors.Commands.Broker.{
  Request, queue_status, queue_delete, channel_open, channel_close, sleep,
}
use swpt_debtors.Commands.Queues.{
  Status, declared, closed, Ending, already_deleted, deleted, raised, reply_code_not_found, round,
  delete_loop, delete_queue,
}

-- The queue exists and is not empty.
abbrev pub HasMessages : Status → Type 0
HasMessages (declared message_count consumer_count) = 0 < message_count
HasMessages (closed reply_code) = ⊥

-- How an answer ends the command
abbrev pub IsEnding : Status → Ending → Type 0
IsEnding (declared message_count consumer_count) deleted = message_count ≡ 0
IsEnding (closed reply_code) already_deleted = reply_code ≡ reply_code_not_found
IsEnding (closed reply_code) (raised code) =
    (code ≡ reply_code) × (reply_code ≢ reply_code_not_found)
IsEnding _ _ = ⊥

-- The requests of a number of rounds that leave the queue as it is
abbrev pub waits : ℕ → String → List Request
waits zero queue_name = []
waits (suc n) queue_name =
    channel_open ∷ queue_status queue_name ∷ channel_close ∷ sleep 3000 ∷ waits n queue_name

abbrev pub last_requests : String → Ending → List Request
last_requests queue_name deleted =
    channel_open ∷ queue_status queue_name ∷ queue_delete queue_name ∷ []
last_requests queue_name _ = channel_open ∷ queue_status queue_name ∷ []

busy_round :
    (queue_name : String) (s : Status)
    → HasMessages s
    → round queue_name s
      ≡ (channel_open ∷ queue_status queue_name ∷ channel_close ∷ sleep 3000 ∷ [], none)
unfolding round
busy_round queue_name (declared m c) h = ground arith
busy_round queue_name (closed code) h = absurd h

last_round :
    (queue_name : String) (s : Status) (e : Ending)
    → IsEnding s e
    → round queue_name s ≡ (last_requests queue_name e, some e)
unfolding round
last_round queue_name (declared m c) deleted h = ground arith
last_round queue_name (declared m c) already_deleted h = absurd h
last_round queue_name (declared m c) (raised code) h = absurd h
last_round queue_name (closed k) deleted h = absurd h
last_round queue_name (closed k) already_deleted h = ground arith
last_round queue_name (closed k) (raised code) h = ground arith

loop_ends :
    (fuel n k j : ℕ) (queue_name : String) (status : ℕ → Status) (e : Ending)
    → k + n ≡ j
    → n < fuel
    → ((i : ℕ) → i < n → HasMessages (status (k + i)))
    → IsEnding (status j) e
    → delete_loop fuel queue_name status k
      ≡ (waits n queue_name ++ last_requests queue_name e, some e)
unfolding delete_loop
loop_ends zero n k j queue_name status e same h busy last = absurd (omega arith)
loop_ends (suc fuel) zero k j queue_name status e same h busy last =
    let here : IsEnding (status k) e = subst (λ i. IsEnding (status i) e) (omega arith) last in
    let done = last_round queue_name (status k) e here in rw (delete_loop, done, done)
loop_ends (suc fuel) (suc n) k j queue_name status e same h busy last =
    let first_busy : HasMessages (status k) =
      subst (λ i. HasMessages (status i)) (omega arith) (busy 0 (omega arith)) in
    let later =
      loop_ends fuel n (suc k) j queue_name status e (omega arith) (omega arith)
        (λ i less. subst (λ x. HasMessages (status x)) (omega arith) (busy (suc i) (omega arith)))
        last in
    let again = busy_round queue_name (status k) first_busy in rw (delete_loop, again, again, later)

-- The queue has messages whenever it is asked for its state, until the answer number `n`, which ends
-- the command: the queue is empty, it does not exist, or there is another error. Then the command
-- ends within any number of rounds above `n`: it has asked and slept `n` times, it deletes the queue
-- only at the end and only if that is empty, and it raises the error that is not about a missing
-- queue.
pub delete_queue_ends :
    (fuel n : ℕ) (c : BrokerConfig) (queue : Option String) (status : ℕ → Status) (e : Ending)
    → n < fuel
    → ((i : ℕ) → i < n → HasMessages (status i))
    → IsEnding (status n) e
    → delete_queue fuel c queue status
      ≡ (waits n (text_or queue c.queue) ++ last_requests (text_or queue c.queue) e, some e)
unfolding delete_queue
delete_queue_ends fuel n c queue status e h busy last =
    loop_ends fuel n 0 n (text_or queue c.queue) status e (omega arith) h
      (λ i less. subst (λ x. HasMessages (status x)) (omega arith) (busy i less)) last
