-- ===== src/Commands/Broker.antt =====
-- `subscribe` and `unsubscribe`: the requests that go to RabbitMQ through `pika`.
use Prim.Native.String
use swpt_debtors.Prelude.{ℕ, Bool, true, Option, List, [], ◌∷◌, String}
use swpt_debtors.Commands.Options.{text_or, BrokerConfig}

-- The names of swpt_debtors/extensions.py
abbrev pub debtors_in_exchange : String
debtors_in_exchange = "debtors_in"

abbrev pub debtors_out_exchange : String
debtors_out_exchange = "debtors_out"

-- An exchange has a name, a type and its durability; a queue a name, its durability and its
-- arguments; a binding an exchange, a queue and a routing key.
pub data Request : Type 0 where
  exchange_declare : String → String → Bool → Request
  queue_declare : String → Bool → List (String × String) → Request
  queue_bind : String → String → String → Request
  queue_unbind : String → String → String → Request
  -- a passive declaration, which only asks for the state of the queue
  queue_status : String → Request
  queue_delete : String → Request
  channel_open : Request
  channel_close : Request
  -- `time.sleep`, in milliseconds
  sleep : ℕ → Request

-- The URL of the connection, and the requests on it
pub record Session : Type 0 where
  pub broker_url : String
  pub requests : List Request

unfoldable pub dead_letter_queue_name : String → String
dead_letter_queue_name queue_name = String.◌++◌ queue_name ".XQ"

unfoldable pub subscribe : BrokerConfig → Option String → Option String → Option String → Session
unfolding text_or dead_letter_queue_name
subscribe c url queue queue_routing_key =
    let queue_name = text_or queue c.queue in
    let routing_key = text_or queue_routing_key c.queue_routing_key in
    record {
      broker_url = text_or url c.url;
      requests =
          channel_open
          ∷ exchange_declare debtors_in_exchange "topic" true
          ∷ exchange_declare debtors_out_exchange "fanout" true
          ∷ queue_declare (dead_letter_queue_name queue_name) true (("x-queue-type", "stream") ∷ [])
          ∷ queue_declare queue_name true (
              ("x-queue-type", "quorum")
              ∷ ("overflow", "reject-publish")
              ∷ ("x-dead-letter-exchange", "")
              ∷ ("x-dead-letter-routing-key", dead_letter_queue_name queue_name)
              ∷ [])
          ∷ queue_bind debtors_in_exchange queue_name routing_key
          ∷ [];
    }

unfoldable pub unsubscribe : BrokerConfig → Option String → Option String → Option String → Session
unfolding text_or
unsubscribe c url queue queue_routing_key = record {
  broker_url = text_or url c.url;
  requests =
      channel_open
      ∷ queue_unbind debtors_in_exchange (text_or queue c.queue)
          (text_or queue_routing_key c.queue_routing_key)
      ∷ [];
}
