-- ===== src/Logging/Stages/Lines.antt =====
-- The line that a formatter of stages writes (hw2/pkg/logging/stages_formatter.go).
use go_tasks.Prelude.{
  ℕ, ◌≡◌, refl, sym, ap, ◌∙◌, String, List, [], ◌∷◌, str_eq, eq_refl, eq_iff, Bool-cases, inl, inr,
  if◌then◌else◌,
}
use go_tasks.Prelude.Text.{concat, concat_assoc, concat_nil, nil_concat, concat_all}
use go_tasks.Prelude.Outcome.{value}
use go_tasks.Logging.Record.{LogRecord, LogLevel, level_string}
use go_tasks.Logging.Stages.{
  AnsiColor, no_color, reset, or_no_color, paint, write_properties, run_stages, format,
  new_no_color_stages_formatter, new_default_stages_formatter, log_level_color_map, escape,
}

-- A text in a colour.
abbrev pub colored : AnsiColor → String → String
colored color text = if str_eq color "" then text else concat color (concat text reset)

paint-concat :
    (color text output : String) → paint color text output ≡ concat output (colored color text)
paint-concat color text output = elim (Bool-cases (str_eq color "")) [
  | inl e ↦ rw (e, (eq_iff color "").0 e, concat_nil output) refl
  | inr e ↦
      rw
        (
          e,
          concat_assoc (concat output color) text reset,
          concat_assoc output color (concat text reset),
        )
        refl
]

paint-no_color : (text output : String) → paint no_color text output ≡ concat output text
paint-no_color text output = rw (eq_refl "", concat_nil output) refl

-- Each pair of a list of properties, and a blank behind it.
abbrev pub pairs : AnsiColor → AnsiColor → List String → String
pairs key_color value_color [] = ""
pairs key_color value_color (key ∷ []) = ""
pairs key_color value_color (key ∷ content ∷ rest) = concat_all (
    colored key_color key
    ∷ "="
    ∷ colored value_color content
    ∷ " "
    ∷ pairs key_color value_color rest
    ∷ [])

write_properties-pairs :
    (key_color value_color : AnsiColor) (properties : List String) (output : String)
    → write_properties key_color value_color properties output
      ≡ concat output (pairs key_color value_color properties)
unfolding write_properties
write_properties-pairs key_color value_color [] output = sym (concat_nil output)
write_properties-pairs key_color value_color (key ∷ []) output = sym (concat_nil output)
write_properties-pairs key_color value_color (key ∷ content ∷ rest) output =
    write_properties-pairs key_color value_color rest _
    ∙ rw
        (
          paint-concat value_color content (concat (paint key_color key output) "="),
          paint-concat key_color key output,
        )
        (simp (concat_assoc, concat_nil))

-- The four fields of a record, each with a blank behind it.
abbrev pub line :
    (ℕ → String) → (LogLevel → AnsiColor) → AnsiColor → AnsiColor → AnsiColor → LogRecord → String
line layout level_color time_color key_color value_color r = concat_all (
    colored time_color (layout r.timestamp)
    ∷ " "
    ∷ colored (level_color r.level) (level_string r.level)
    ∷ " "
    ∷ r.message
    ∷ " "
    ∷ pairs key_color value_color r.properties
    ∷ [])

abbrev pub level_colors : LogLevel → AnsiColor
level_colors level = or_no_color (log_level_color_map level)

four_fields :
    (time_color level_color key_color value_color : AnsiColor) (time level message : String)
    (properties : List String)
    → write_properties key_color value_color properties (
        concat
          (paint no_color message
            (concat (paint level_color level (concat (paint time_color time "") " ")) " "))
          " ")
      ≡ concat_all (
          colored time_color time
          ∷ " "
          ∷ colored level_color level
          ∷ " "
          ∷ message
          ∷ " "
          ∷ pairs key_color value_color properties
          ∷ [])
four_fields time_color level_color key_color value_color time level message properties =
    write_properties-pairs key_color value_color properties _
    ∙ rw
        (
          paint-no_color message
              (concat (paint level_color level (concat (paint time_color time "") " ")) " "),
          paint-concat level_color level (concat (paint time_color time "") " "),
          paint-concat time_color time "",
        )
        (simp (concat_assoc, concat_nil, nil_concat))

-- The line of a record is its time, its level, its message and its properties, each with a blank
-- behind it, with the default formatter in colours and without them in the other one.
pub format-line :
    (time_only : ℕ → String) (r : LogRecord)
    → (format (new_default_stages_formatter time_only) r
        ≡ value (line time_only level_colors (escape "35") (escape "36") (escape "32") r))
      × (format (new_no_color_stages_formatter time_only) r
          ≡ value (line time_only (λ level. no_color) no_color no_color no_color r))
unfolding format new_default_stages_formatter new_no_color_stages_formatter run_stages
format-line time_only r = (
  ap value (
      four_fields (escape "35") (level_colors r.level) (escape "36") (escape "32")
        (time_only r.timestamp) (level_string r.level) r.message r.properties),
  ap value (
      four_fields no_color no_color no_color no_color (time_only r.timestamp) (level_string r.level)
        r.message r.properties),
)
