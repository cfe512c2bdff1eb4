-- ===== src/Commands/Workers.antt =====
-- `scan_debtors`, `consume_messages` and `flush_messages`: with what they start their work. Numbers of
-- days and seconds are integers in a small unit.
use swpt_debtors.Prelude.{ℕ, Bool, Option, none, some, List, String, ℤ, pos, ltb_ℤ, if◌then◌else◌}
use swpt_debtors.Commands.Options.{number_or, number_if_given}

-- APP_DEBTORS_SCAN_DAYS stands in for a number that is missing or zero; `none` is the failed
-- assertion. The result is the period of `DebtorScanner.run`.
unfoldable pub scan_debtors : ℤ → Option ℤ → Option ℤ
unfolding number_or
scan_debtors scan_days days =
    let period = number_or days scan_days in if ltb_ℤ (pos 0) period then some period else none

-- `spawn_worker_processes`; when it returns, the command exits with the status.
pub record Workers (A : Type 0) : Type 0 where
  pub processes : ℤ
  pub arguments : A
  pub exit_status : ℕ

-- The arguments of `SmpConsumer`, which takes the options of the command as they are; what is not
-- given is left to the consumer and its configuration PROTOCOL_BROKER_….
pub record ConsumerArguments : Type 0 where
  pub url : Option String
  pub queue : Option String
  pub threads : Option ℤ
  pub prefetch_size : Option ℤ
  pub prefetch_count : Option ℤ
  pub draining_mode : Bool

unfoldable pub consume_messages : ℤ → Option ℤ → ConsumerArguments → Workers ConsumerArguments
unfolding number_or
consume_messages config_processes processes arguments = record {
  processes = number_or processes config_processes;
  arguments = arguments;
  exit_status = 1;
}

-- The tables to flush and the seconds between two flushes
pub record FlushArguments (M : Type 0) : Type 0 where
  pub models_to_flush : List M
  pub wait : ℤ

-- FLUSH_PROCESSES and FLUSH_PERIOD stand in only for what is missing. `get_models_to_flush` of
-- `swpt_pythonlib` is a parameter.
unfoldable pub flush_messages :
    {M : Type 0}
    → (List String → List M)
    → ℤ
    → ℤ
    → List String
    → Option ℤ
    → Option ℤ
    → Workers (FlushArguments M)
unfolding number_if_given
flush_messages get_models_to_flush flush_processes flush_period message_types processes wait =
    record {
      processes = number_if_given processes flush_processes;
      arguments = record {
        models_to_flush = get_models_to_flush message_types;
        wait = number_if_given wait flush_period;
      };
      exit_status = 1;
    }
