-- ===== src/Logging/Record.antt =====
-- hw2/pkg/logging/log_record.go. A level is a uint8; the properties are keys and values in turn, as
-- `fmt.Sprint` prints them.
use go_tasks.Prelude.{ℕ, zero, suc, String, List}

abbrev pub LogLevel : Type 0
LogLevel = ℕ

abbrev pub level_debug : LogLevel
level_debug = 0

abbrev pub level_info : LogLevel
level_info = 1

abbrev pub level_warning : LogLevel
level_warning = 2

abbrev pub level_error : LogLevel
level_error = 3

pub record LogRecord : Type 0 where
  pub message : String
  pub timestamp : ℕ
  pub level : LogLevel
  pub properties : List String

unfoldable pub new_log_record : String → ℕ → LogLevel → List String → LogRecord
new_log_record message timestamp level properties = record {
  message = message;
  timestamp = timestamp;
  level = level;
  properties = properties;
}

-- `String` of a level, empty for any other number.
unfoldable pub level_string : LogLevel → String
level_string zero = "DEBUG"
level_string (suc zero) = "INFO"
level_string (suc (suc zero)) = "WARNING"
level_string (suc (suc (suc zero))) = "ERROR"
level_string (suc (suc (suc (suc n)))) = ""
