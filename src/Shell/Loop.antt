-- ===== src/Shell/Loop.antt =====
-- hw3/internal/shell/shell.go: the handling of a line, the exit, and the loop of `Run`. What the
-- other goroutines do to the downloader before a line is read is a function of the turn.
pub mod Exit
use go_tasks.Prelude.{
  ℕ, String, Bool, true, false, Option, none, some, List, [], ◌∷◌, ◌++◌, str_eq, is_some,
  if◌then◌else◌,
}
use go_tasks.Prelude.Text.{trim_space, is_nil, has_prefix, strip_prefix}
use go_tasks.Prelude.Outcome.{Outcome, ok, panic, close, ◌>>=◌, Err}
use go_tasks.Shell.Command.{handle, Suggest, Filter, BaseCommand, complete_prompt}
use go_tasks.Shell.Commands.{
  Backend, Shell, Message, no_command, shutting_down, shutdown_complete, print, new_chain,
}

module _ {D : Type 0} where
  unfoldable pub new_shell : D → Shell D
  new_shell d = record {
    downloader = d;
    printed = [];
    destinations_history = [];
    urls_history = [];
    cached_suggestions = [];
    cached_time = 0;
    shutdown = false;
    shutdown_done_ch = false;
  }

  -- `handleExit`; the downloader is shut down with a timeout of 5 seconds.
  unfoldable pub handle_exit : Backend D → Shell D → Outcome (Shell D)
  handle_exit backend s = if s.shutdown then ok s else do
    d ← backend.shutdown s.downloader
    done ← close s.shutdown_done_ch
    ok (
        print shutdown_complete (record (print shutting_down s) {
          downloader = d;
          shutdown = true;
          shutdown_done_ch = done;
        }))

  abbrev pub report : Shell D × Option Err → Shell D
  report (s, none) = s
  report (s, some e) = print (no_command e) s

  -- `handle`
  unfoldable pub handle_line :
      Backend D → List (BaseCommand (Shell D)) → String → Shell D → Outcome (Shell D)
  unfolding trim_space handle_exit handle
  handle_line backend chain input s =
      let trimmed = trim_space input in
      if is_nil trimmed
      then ok s
      else (if str_eq trimmed "exit"
          then handle_exit backend s
          else (do result ← handle chain trimmed s; ok (report result)))

  -- The suggestions for the text before the cursor.
  unfoldable pub completer :
      List (BaseCommand (Shell D)) → String → Shell D → Shell D × List Suggest
  unfolding complete_prompt strip_prefix
  completer chain text s =
      let (s', suggestions) = complete_prompt chain text s in
      (
        s',
        if has_prefix "exit" text
            then suggestions ++ record { text = "exit"; description = "Exit" } ∷ []
            else suggestions,
      )

-- What `Input` of the prompt returns, `none` for the end of input, and what happens to the
-- downloader before.
pub record Turn (D : Type 0) : Type 0 where
  pub background : D → Outcome D
  pub line : Option String

-- The loop of `Run`, over the turns that the prompt will give.
unfoldable pub run :
    {D : Type 0}
    → Backend D
    → List (BaseCommand (Shell D))
    → List (Turn D)
    → Shell D
    → Outcome (Shell D)
unfolding handle_exit handle_line
run backend chain [] s = ok s
run backend chain (turn ∷ turns) s = if s.shutdown then ok s else do
  d ← turn.background s.downloader
  elim turn.line [
    | none ↦ handle_exit backend (record s { downloader = d })
    | some line ↦ do
      s' ← handle_line backend chain line (record s { downloader = d })
      run backend chain turns s'
  ]
