-- ===== src/Logging/Logger.antt =====
-- hw2/pkg/logging/logger.go, with the error output as the list of its lines.
pub mod Output
pub mod Delivery
use go_tasks.Prelude.{
  ℕ, zero, suc, ◌+◌, ◌%◌, ◌≡◌, String, Bool, true, false, Option, none, some, List, [], ◌∷◌, ◌++◌,
  map, length, ◌==◌, if◌then◌else◌,
}
use go_tasks.Prelude.Text.{concat}
use go_tasks.Prelude.Outcome.{Outcome, ok, panic, Failable, value, failure, Err}
use go_tasks.Logging.Record.{
  LogLevel, LogRecord, new_log_record, level_debug, level_info, level_warning, level_error,
}
use go_tasks.Logging.Sink
use go_tasks.Logging.Sink.{Sink, Formatter, Appender, AppenderKind, flush}

pub record BaseLogger : Type 0 where
  pub sinks : List Sink
  pub error_output : List String

unfoldable pub new_clean_logger : BaseLogger
new_clean_logger = record { sinks = []; error_output = [] }

unfoldable pub with_sink : Sink → BaseLogger → BaseLogger
with_sink sink b = record b { sinks = b.sinks ++ sink ∷ [] }

new_appender : AppenderKind → (ℕ → Option Err) → Option Err → Appender
new_appender kind fault close_err = record {
  kind = kind;
  fault = fault;
  writes = 0;
  written = [];
  close_err = close_err;
}

-- The two formatters that the source chooses from are arguments.
unfoldable pub with_console_sink :
    Formatter → Formatter → (ℕ → Option Err) → LogLevel → Bool → BaseLogger → BaseLogger
unfolding with_sink new_appender
with_console_sink colored plain fault level colorize b =
    with_sink
      (record {
        formatter = if colorize then colored else plain;
        appender = new_appender AppenderKind.console fault none;
        level = level;
      })
      b

-- A file that cannot be opened makes the set-up panic.
with_file : Formatter → Failable Appender → LogLevel → BaseLogger → Outcome BaseLogger
with_file formatter (failure err) level b = panic
with_file formatter (value appender) level b =
    ok (with_sink (record { formatter = formatter; appender = appender; level = level }) b)

unfoldable pub with_json_file_sink :
    Formatter → Failable Appender → LogLevel → BaseLogger → Outcome BaseLogger
unfolding with_sink with_file
with_json_file_sink json opened level b = with_file json opened level b

unfoldable pub with_file_sink :
    Formatter → Formatter → Failable Appender → LogLevel → Bool → BaseLogger → Outcome BaseLogger
unfolding with_sink with_file
with_file_sink colored plain opened level colorize b =
    with_file (if colorize then colored else plain) opened level b

-- Each sink in turn.
unfoldable pub flush_all : LogRecord → List Sink → List Sink × List String
unfolding flush
flush_all r [] = ([], [])
flush_all r (sink ∷ sinks) =
    let (sink', lines) = flush r sink in
    let (sinks', more) = flush_all r sinks in (sink' ∷ sinks', lines ++ more)

-- A call of the logger: the level that its method stands for, the message, the time and the data.
pub record Call : Type 0 where
  pub level : LogLevel
  pub message : String
  pub now : ℕ
  pub properties : List String

unfoldable pub log : Call → BaseLogger → BaseLogger
unfolding flush_all new_log_record
log call b =
    if length call.properties % 2 == 1
    then record b {
      error_output = b.error_output ++ "Either key or value missing in log record" ∷ [];
    }
    else (let r = new_log_record call.message call.now call.level call.properties in
        let (sinks, lines) = flush_all r b.sinks in
        record { sinks = sinks; error_output = b.error_output ++ lines })

unfoldable pub info : String → ℕ → List String → BaseLogger → BaseLogger
unfolding log
info message now properties b =
    log (record { level = level_info; message = message; now = now; properties = properties }) b

unfoldable pub debug : String → ℕ → List String → BaseLogger → BaseLogger
unfolding log
debug message now properties b =
    log (record { level = level_debug; message = message; now = now; properties = properties }) b

unfoldable pub warning : String → ℕ → List String → BaseLogger → BaseLogger
unfolding log
warning message now properties b =
    log (record { level = level_warning; message = message; now = now; properties = properties }) b

unfoldable pub error : String → ℕ → List String → BaseLogger → BaseLogger
unfolding log
error message now properties b =
    log (record { level = level_error; message = message; now = now; properties = properties }) b

close_sinks : List Sink → List Err × List String
close_sinks [] = ([], [])
close_sinks (sink ∷ sinks) =
    let (errs, lines) = close_sinks sinks in
    elim (Sink.close sink.appender) [
      | some err ↦ (err ∷ errs, concat "could not close sink: " err ∷ lines)
      | none ↦ (errs, lines)
    ]

-- The errors of all sinks, each of which is closed, and a line for each error.
unfoldable pub close : BaseLogger → List Err × List String
unfolding Sink.close close_sinks
close b = close_sinks b.sinks
