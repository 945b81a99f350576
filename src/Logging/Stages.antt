-- ===== src/Logging/Stages.antt =====
-- hw2/pkg/logging/formatter.go, stages_formatter.go and json_formatter.go. The buffer is the text
-- written so far. The layout of a time and the encoding of JSON are arguments.
pub mod Lines
pub mod Fields
use go_tasks.Prelude.{
  ℕ, zero, suc, ◌≡◌, String, Option, none, some, List, [], ◌∷◌, ◌++◌, ◌==◌, str_eq, not,
  if◌then◌else◌,
}
use go_tasks.Prelude.Text.{concat}
use go_tasks.Prelude.Maps.{Map, insert}
use go_tasks.Prelude.Outcome.{Failable, value}
use go_tasks.Logging.Record.{
  LogLevel, LogRecord, level_string, level_debug, level_info, level_warning, level_error,
}
use go_tasks.Logging.Sink.{Formatter}

-- `AnsiColor`: an escape sequence, empty for no colour.
abbrev pub AnsiColor : Type 0
AnsiColor = String

abbrev pub no_color : AnsiColor
no_color = ""

abbrev pub escape : String → AnsiColor
escape code = concat "\u{1b}[" (concat code "m")

abbrev pub reset : AnsiColor
reset = escape "0"

-- `LogLevelColorMap`
unfoldable pub log_level_color_map : LogLevel → Option AnsiColor
log_level_color_map zero = some (escape "94")
log_level_color_map (suc zero) = some (escape "92")
log_level_color_map (suc (suc zero)) = some (escape "93")
log_level_color_map (suc (suc (suc zero))) = some (escape "91")
log_level_color_map (suc (suc (suc (suc n)))) = none

abbrev pub StageFunc : Type 0
StageFunc = LogRecord → String → String

-- The colour, the text, and the reset where there is a colour.
abbrev pub paint : AnsiColor → String → String → String
paint color text output =
    let painted = concat (concat output color) text in
    if str_eq color no_color then painted else concat painted reset

unfoldable pub with_timestamp : (ℕ → String) → AnsiColor → List StageFunc → List StageFunc
with_timestamp layout color stages =
    stages ++ (λ r output. concat (paint color (layout r.timestamp) output) " ") ∷ []

abbrev pub or_no_color : Option AnsiColor → AnsiColor
or_no_color none = no_color
or_no_color (some color) = color

unfoldable pub with_log_level : (LogLevel → Option AnsiColor) → List StageFunc → List StageFunc
unfolding level_string
with_log_level color_map stages =
    stages
    ++ (λ r output.
        concat (paint (or_no_color (color_map r.level)) (level_string r.level) output) " ")
      ∷ []

unfoldable pub with_message : AnsiColor → List StageFunc → List StageFunc
with_message color stages = stages ++ (λ r output. concat (paint color r.message output) " ") ∷ []

-- The loop over the pairs; a last key without a value is not reached.
unfoldable pub write_properties : AnsiColor → AnsiColor → List String → String → String
write_properties key_color value_color (key ∷ content ∷ rest) output =
    write_properties key_color value_color rest
      (concat (paint value_color content (concat (paint key_color key output) "=")) " ")
write_properties key_color value_color _ output = output

unfoldable pub with_properties : AnsiColor → AnsiColor → List StageFunc → List StageFunc
unfolding write_properties
with_properties key_color value_color stages =
    stages ++ (λ r output. write_properties key_color value_color r.properties output) ∷ []

-- The stages in turn.
unfoldable pub run_stages : List StageFunc → LogRecord → String → String
run_stages [] r output = output
run_stages (stage ∷ stages) r output = run_stages stages r (stage r output)

unfoldable pub format : List StageFunc → Formatter
unfolding run_stages
format stages r = value (run_stages stages r "")

unfoldable pub new_default_stages_formatter : (ℕ → String) → List StageFunc
unfolding with_timestamp with_log_level with_message with_properties log_level_color_map
new_default_stages_formatter time_only = with_properties (escape "36") (escape "32") (
    with_message no_color
      (with_log_level log_level_color_map (with_timestamp time_only (escape "35") [])))

unfoldable pub new_no_color_stages_formatter : (ℕ → String) → List StageFunc
unfolding with_timestamp with_log_level with_message with_properties
new_no_color_stages_formatter time_only =
    with_properties no_color no_color (
      with_message no_color (with_log_level (λ level. none) (with_timestamp time_only no_color [])))

-- A value of the JSON object.
pub data JsonValue : Type 0 where
  time : ℕ → JsonValue
  text : String → JsonValue

unfoldable pub add_properties : List String → Map JsonValue → Map JsonValue
add_properties (key ∷ content ∷ rest) fields =
    add_properties rest (insert key (text content) fields)
add_properties _ fields = fields

unfoldable pub json_fields : LogRecord → Map JsonValue
unfolding level_string add_properties insert
json_fields r = add_properties r.properties (
    insert "message" (text r.message)
      (insert "level" (text (level_string r.level)) (insert "timestamp" (time r.timestamp) [])))

unfoldable pub json_format : (Map JsonValue → Failable String) → Formatter
unfolding json_fields
json_format marshal r = marshal (json_fields r)
