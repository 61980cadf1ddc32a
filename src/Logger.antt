-- ===== src/Logger.antt =====
-- libs/logger: which messages go to the terminal and to syslog.
pub mod Severity
use task_master.Base.{
  List, [], ◌∷◌, ◌++◌, Option, some, none, Bool, true, false, not, ◌||◌, if◌then◌else◌,
}
use task_master.Base.Text.{Text, codes}
use task_master.Exec.{Error, Exec, Outcome, returned, thrown, logger_initialized}

pub data LogType : Type 0 where
  fatal error warning info debug : LogType

pub data LogLevel : Type 0 where
  nothing sparse normal everything : LogLevel

pub record LogInterface : Type 0 where
  pub log_level : LogLevel
  pub enable_logging_stdout : Bool

-- The priorities of syslog, all of the facility `LOG_DAEMON`.
pub data Priority : Type 0 where
  log_err log_warning log_info log_debug : Priority

pub data Output : Type 0 where
  terminal : Text → Output
  syslog : Priority → Text → Output

-- `LogInterface::Initialize`, on the singleton.
unfoldable pub initialize : LogLevel → Bool → Exec (Option LogInterface) Unit
initialize level to_stdout (some logger) = (thrown logger_initialized, some logger)
initialize level to_stdout none =
    (returned tt, some (record { log_level = level; enable_logging_stdout = to_stdout }))

-- `CanLogLogWithSetLogLevel`
unfoldable pub can_log : LogLevel → LogType → Bool
can_log nothing kind = false
can_log sparse debug = false
can_log sparse info = false
can_log sparse _ = true
can_log normal debug = false
can_log normal _ = true
can_log everything kind = true

abbrev pub escape : Text → Text
escape attributes = b'\x1B' ∷ codes "[" ++ attributes ++ codes "m"

abbrev pub color_reset : Text
color_reset = escape (codes "0")

-- `GetLogColor`
unfoldable pub log_color : LogType → Text
log_color fatal = escape (codes "38;5;208")
log_color error = escape (codes "38;5;160")
log_color warning = escape (codes "38;5;226")
log_color info = escape (codes "38;5;13")
log_color debug = escape (codes "38;5;21")

abbrev is_debug : LogType → Bool
is_debug debug = true
is_debug _ = false

unfoldable pub priority : LogType → Priority
priority fatal = log_err
priority error = log_err
priority warning = log_warning
priority info = log_info
priority debug = log_debug

-- `Log`: what is written, in this order.
unfoldable pub log : LogInterface → Text → LogType → List Output
unfolding can_log log_color priority
log logger message kind =
    if not (can_log logger.log_level kind)
    then []
    else (if logger.enable_logging_stdout || is_debug kind
        then terminal (log_color kind ++ message ++ color_reset ++ codes "\n") ∷ []
        else [])
      ++ syslog (priority kind) message ∷ []
