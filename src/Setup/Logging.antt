-- ===== src/Setup/Logging.antt =====
-- The logging of swpt_debtors/__init__.py: `configure_logging` with `_configure_root_logger`,
-- `_remove_handlers`, `_add_console_hander` and `_filter_pika_connection_reset_errors`. A logger of the
-- standard library has a level (0 is NOTSET), handlers, and a flag; its effective level is the first
-- that is set, on the way to the root. The ancestors of a logger and the texts of levels are
-- parameters.
use swpt_debtors.Prelude.{
  ℕ, zero, suc, ltb, Bool, true, not, ◌&&◌, ◌||◌, Option, none, some, List, [], ◌∷◌, ◌++◌, String,
  ◌==◌, nat_Eq, string_Eq, if◌then◌else◌,
}

-- A handler is an object; two are the same if they have the same number.
abbrev pub Handler : Type 0
Handler = ℕ

pub record Logger : Type 0 where
  pub level : ℕ
  pub handlers : List Handler
  pub propagate : Bool

abbrev pub Loggers : Type 0
Loggers = String → Logger

abbrev pub warning : ℕ
warning = 30

abbrev pub error : ℕ
error = 40

abbrev pub root : String
root = "root"

abbrev pub app : String
app = "swpt_debtors"

abbrev pub gunicorn : String
gunicorn = "gunicorn.error"

-- `list.remove`
unfoldable pub remove : Handler → List Handler → List Handler
remove h [] = []
remove h (x ∷ xs) = if x == h then xs else x ∷ remove h xs

unfoldable pub handler_at : ℕ → List Handler → Option Handler
handler_at n [] = none
handler_at zero (x ∷ xs) = some x
handler_at (suc n) (x ∷ xs) = handler_at n xs

-- `for h in logger.handlers: logger.removeHandler(h)`: Python keeps the position in the list, while
-- the list gets shorter. The loop ends where the list ends.
unfoldable pub remove_loop : ℕ → ℕ → List Handler → List Handler
unfolding remove handler_at
remove_loop zero n handlers = handlers
remove_loop (suc fuel) n handlers = elim (handler_at n handlers) [
  | none ↦ handlers
  | some h ↦ remove_loop fuel (suc n) (remove h handlers)
]

abbrev pub count_handlers : List Handler → ℕ
count_handlers [] = 0
count_handlers (x ∷ xs) = suc (count_handlers xs)

-- There are no more rounds than handlers.
unfoldable pub remove_handlers : List Handler → List Handler
unfolding remove_loop
remove_handlers handlers = remove_loop (count_handlers handlers) 0 handlers

unfoldable pub update_logger : String → (Logger → Logger) → Loggers → Loggers
update_logger name f loggers other = if other == name then f (loggers other) else loggers other

unfoldable pub set_level : String → ℕ → Loggers → Loggers
unfolding update_logger
set_level name level = update_logger name (λ l. record l { level = level })

unfoldable pub first_level : Loggers → List String → ℕ
first_level loggers [] = 0
first_level loggers (name ∷ names) =
    let rest = first_level loggers names in
    if (loggers name).level == 0 then rest else (loggers name).level

-- `raise RuntimeError` for an unknown format is `none`.
unfoldable pub add_console_handler : Handler → String → List Handler → Option (List Handler)
add_console_handler console format handlers =
    if format == "text" || format == "json" then some (handlers ++ console ∷ []) else none

-- What the filter of the console handler lets through.
pub record LogRecord : Type 0 where
  pub name : String
  pub level : ℕ
  pub message : String

module _ (starts_with : String → String → Bool) where
  unfoldable pub filter_pika_connection_reset_errors : LogRecord → Bool
  filter_pika_connection_reset_errors r = not (
      r.level == error
      && ((r.name == "pika.adapters.utils.io_services_utils"
            && starts_with r.message
                "_AsyncBaseTransport._produce() failed, aborting connection: error=ConnectionResetError(104, 'Connection reset by peer'); ")
          || ((r.name == "pika.adapters.base_connection"
                && starts_with r.message
                    "connection_lost: StreamLostError: (\"Stream connection lost: ConnectionResetError(104, 'Connection reset by peer')\",)")
              || (r.name == "pika.adapters.blocking_connection"
                  && starts_with r.message
                      "Unexpected connection close detected: StreamLostError: (\"Stream connection lost: ConnectionResetError(104, 'Connection reset by peer')\",)"))))

-- The ancestors of a logger from the nearest to the root, the text of a level (`none` is a
-- `ValueError`), and the new console handler
module _ (ancestors : String → List String) (level_of : String → Option ℕ) (console : Handler) where
  unfoldable pub effective_level : Loggers → String → ℕ
  unfolding first_level
  effective_level loggers name = first_level loggers (name ∷ ancestors name)

  unfoldable pub configure_root_logger : String → Loggers → Option Loggers
  unfolding set_level remove_handlers add_console_handler update_logger
  configure_root_logger format loggers =
      elim (add_console_handler console format (remove_handlers (loggers root).handlers)) [
        | none ↦ none
        | some handlers ↦ some (
            update_logger root (λ l. record l { handlers = handlers })
              (set_level root warning loggers))
      ]

  unfoldable pub set_levels : List String → ℕ → Loggers → Loggers
  unfolding set_level
  set_levels [] level loggers = loggers
  set_levels (name ∷ names) level loggers = set_levels names level (set_level name level loggers)

  -- The level of a logger is raised to that of the program, if it is lower.
  unfoldable pub raise_level : String → ℕ → Loggers → Loggers
  unfolding set_level effective_level
  raise_level name level loggers =
      if ltb (effective_level loggers name) level then set_level name level loggers else loggers

  unfoldable pub free_gunicorn : Loggers → Loggers
  unfolding update_logger remove_handlers
  free_gunicorn =
      update_logger gunicorn
        (λ l. record l { propagate = true; handlers = remove_handlers l.handlers })

  unfoldable pub with_app_level : List String → ℕ → Loggers → Loggers
  unfolding effective_level set_level set_levels raise_level free_gunicorn
  with_app_level associated_loggers level loggers =
      let set = set_level app level loggers in
      let app_logger_level = effective_level set app in
      raise_level gunicorn app_logger_level (
        free_gunicorn
          (raise_level root app_logger_level (set_levels associated_loggers app_logger_level set)))

  unfoldable pub configure_logging : String → String → List String → Loggers → Option Loggers
  unfolding configure_root_logger with_app_level
  configure_logging level format associated_loggers loggers =
      elim (configure_root_logger format loggers) [
        | none ↦ none
        | some configured ↦ elim (level_of level) [
          | none ↦ none
          | some n ↦ some (with_app_level associated_loggers n configured)
        ]
      ]
