-- ===== src/Logging/Examples.antt =====
-- Runs of the logger (hw2/pkg/logging), and the theorems at concrete inputs.
use go_tasks.Prelude.{ℕ, ◌≡◌, refl, String, Option, none, some, List, [], ◌∷◌, ◌++◌, str_eq}
use go_tasks.Prelude.Maps.{lookup, insert}
use go_tasks.Prelude.Outcome.{value, Err}
use go_tasks.Logging.Record.{
  LogRecord, level_info, level_debug, level_warning, level_string, new_log_record,
}
use go_tasks.Logging.Sink.{Sink, AppenderKind, console, file, write, append, flush}
use go_tasks.Logging.Logger.{BaseLogger, Call, log, flush_all}
use go_tasks.Logging.Logger.Delivery.{log_all, records}
use go_tasks.Logging.Logger.Output.{output, Stands, here, behind, log_all-delivers}
use go_tasks.Logging.Stages.{format, text, json_fields, new_no_color_stages_formatter}

abbrev only_message : LogRecord → String
only_message r = r.message

abbrev sink : AppenderKind → ℕ → (ℕ → Option Err) → Sink
sink kind level fault = record {
  formatter = λ r. value r.message;
  appender = record { kind = kind; fault = fault; writes = 0; written = []; close_err = none };
  level = level;
}

abbrev full : ℕ → Option Err
full n = some "no space left"

abbrev works : ℕ → Option Err
works n = none

abbrev logger : BaseLogger
logger = record {
  sinks = sink file level_info full ∷ sink console level_info works ∷ [];
  error_output = [];
}

abbrev calls : List Call
calls =
    record { level = level_info; message = "a"; now = 1; properties = [] }
    ∷ record { level = level_warning; message = "b"; now = 2; properties = "key" ∷ [] }
    ∷ record { level = level_debug; message = "c"; now = 3; properties = [] }
    ∷ []

-- The odd call and the two failed writes reach the error output.
errors :
    (log_all calls logger).error_output
    ≡ "Log write failed: no space left" ∷ "Either key or value missing in log record" ∷ []
unfolding log flush_all flush append write new_log_record
errors = refl

log_all-delivers_example :
    (sink' : Sink) × Stands sink' 1 (log_all calls logger).sinks
    × (sink'.appender.written ≡ [] ++ output only_message console level_info (records calls))
log_all-delivers_example =
    log_all-delivers only_message calls logger 1 (sink console level_info works) (behind here)
      (record { formats = λ r. refl; writes = λ n. refl })

abbrev spent : LogRecord
spent = record {
  message = "sent";
  timestamp = 7;
  level = level_info;
  properties = "user" ∷ "bob" ∷ "message" ∷ "hi" ∷ [];
}

abbrev noon : ℕ → String
noon n = "12:00:00"

plain :
    format (new_no_color_stages_formatter noon) spent
    ≡ value "12:00:00 INFO sent user=bob message=hi "
unfolding format new_no_color_stages_formatter level_string str_eq
plain = refl

-- The message is lost to a property of that name.
overridden : lookup "message" (json_fields spent) ≡ some (text "hi")
unfolding lookup insert json_fields str_eq
overridden = refl
