-- ===== src/Logging/Stages/Fields.antt =====
-- The fields of the JSON object of a record (hw2/pkg/logging/json_formatter.go).
use go_tasks.Prelude.{
  ◌≡◌, refl, ap, ◌∙◌, ℕ, String, Option, none, some, List, [], ◌∷◌, str_eq, if◌then◌else◌,
}
use go_tasks.Prelude.Maps.{Map, lookup, insert, lookup-insert}
use go_tasks.Logging.Record.{LogRecord, level_string}
use go_tasks.Logging.Stages.{JsonValue, text, time, add_properties, json_fields}

-- The value of the last property of a key.
abbrev pub last_property : String → List String → Option JsonValue → Option JsonValue
last_property asked [] otherwise = otherwise
last_property asked (key ∷ []) otherwise = otherwise
last_property asked (key ∷ content ∷ rest) otherwise =
    last_property asked rest (if str_eq key asked then some (text content) else otherwise)

-- The field of a record itself.
abbrev pub own_field : String → LogRecord → Option JsonValue
own_field asked r =
    if str_eq "message" asked
    then some (text r.message)
    else (if str_eq "level" asked
        then some (text (level_string r.level))
        else (if str_eq "timestamp" asked then some (time r.timestamp) else none))

lookup-add_properties :
    (asked : String) (properties : List String) (fields : Map JsonValue)
    → lookup asked (add_properties properties fields)
      ≡ last_property asked properties (lookup asked fields)
unfolding add_properties
lookup-add_properties asked [] fields = refl
lookup-add_properties asked (key ∷ []) fields = refl
lookup-add_properties asked (key ∷ content ∷ rest) fields =
    rw (← lookup-insert key asked (text content) fields)
      (lookup-add_properties asked rest (insert key (text content) fields))

own_fields :
    (asked message level : String) (timestamp : ℕ)
    → lookup asked (
        insert "message"
          (text message)
          (insert "level" (text level) (insert "timestamp" (time timestamp) [])))
      ≡ (if str_eq "message" asked
          then some (text message)
          else (if str_eq "level" asked
              then some (text level)
              else (if str_eq "timestamp" asked then some (time timestamp) else none)))
own_fields asked message level timestamp =
    rw
      (
        lookup-insert "message" asked (text message)
            (insert "level" (text level) (insert "timestamp" (time timestamp) [])),
        lookup-insert "level" asked (text level) (insert "timestamp" (time timestamp) []),
        lookup-insert "timestamp" asked (time timestamp) [],
      )
      (unfold lookup in refl)

-- Each field of the JSON object is the last property with its name, and only where there is none the
-- time, the level or the message of the record.
pub json_fields-lookup :
    (asked : String) (r : LogRecord)
    → lookup asked (json_fields r) ≡ last_property asked r.properties (own_field asked r)
unfolding json_fields
json_fields-lookup asked r =
    lookup-add_properties asked r.properties _
    ∙ ap (last_property asked r.properties)
        (own_fields asked r.message (level_string r.level) r.timestamp)
