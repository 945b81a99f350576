-- ===== src/Logging/Sink.antt =====
-- hw2/pkg/logging/appender.go, console_appender.go, file_appender.go and sink.go. An appender keeps
-- the texts of its writes; which of them fail is an argument, by their number. What is written to
-- the error output is returned.
use go_tasks.Prelude.{ℕ, suc, String, Option, none, some, List, [], ◌∷◌, ◌++◌, ltb, if◌then◌else◌}
use go_tasks.Prelude.Text.{concat}
use go_tasks.Prelude.Outcome.{Failable, value, failure, Err}
use go_tasks.Logging.Record.{LogLevel, LogRecord}

pub data AppenderKind : Type 0 where
  console file : AppenderKind

pub record Appender : Type 0 where
  pub kind : AppenderKind
  pub fault : ℕ → Option Err
  pub writes : ℕ
  pub written : List String
  pub close_err : Option Err

-- One write: it is kept if it does not fail.
unfoldable pub write : String → Appender → Appender × Option Err
write text a = elim (a.fault a.writes) [
  | some err ↦ (record a { writes = suc a.writes }, some err)
  | none ↦ (record a { writes = suc a.writes; written = a.written ++ text ∷ [] }, none)
]

unfoldable pub append_as : AppenderKind → String → Appender → Appender × Option Err
unfolding write
append_as console text a = write (concat text "\n") a
append_as file text a =
    let (a', err) = write text a in elim err [ some e ↦ (a', some e) | none ↦ write "\n" a' ]

-- `Append` of the console in one write, of a file in two.
unfoldable pub append : String → Appender → Appender × Option Err
unfolding append_as write
append text a = append_as a.kind text a

unfoldable pub close : Appender → Option Err
close a = elim a.kind [ console ↦ none | file ↦ a.close_err ]

-- `Formatter`
abbrev pub Formatter : Type 0
Formatter = LogRecord → Failable String

pub record Sink : Type 0 where
  pub formatter : Formatter
  pub appender : Appender
  pub level : LogLevel

-- The sink, and the lines on the error output.
unfoldable pub flush : LogRecord → Sink → Sink × List String
unfolding append
flush r sink = if ltb r.level sink.level then (sink, []) else elim (sink.formatter r) [
  | failure err ↦ (sink, concat "Log formatting failed: " err ∷ [])
  | value text ↦
      let (appender, failed) = append text sink.appender in
      (
        record sink { appender = appender },
        elim failed [ some err ↦ concat "Log write failed: " err ∷ [] | none ↦ [] ],
      )
]
