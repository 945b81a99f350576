-- ===== src/Shell/Examples.antt =====
-- Runs of the shell and of its formatting (hw3/internal/shell), and the theorems at concrete inputs.
use mathlib.Core.List.{Permᴰ}
use go_tasks.Prelude.{ℕ, ◌*◌, ◌≡◌, refl, ◌≤◌, ◌<◌, String, some, List, [], ◌∷◌, ◌++◌, arith}
use go_tasks.Prelude.Int.{pos}
use go_tasks.Prelude.Text.{strip_prefix}
use go_tasks.Prelude.Outcome.{ok, value, failure}
use go_tasks.Shell.Formatting.{unit, unit_letters, byte_at, scaled, format_bytes, scale}
use go_tasks.Shell.Formatting.Bounds.{unit_size, format_bytes_scaled}
use go_tasks.Shell.Pattern.{match_download, match_status, is_id}
use go_tasks.Shell.Command.{Filter, handle}
use go_tasks.Shell.Commands.{
  Backend, Shell, new_chain, new_download_command, new_status_command, new_cancel_command,
}
use go_tasks.Shell.Commands.Dispatch.{Sound, handle_any_order}
use go_tasks.Shell.Loop.{new_shell, run, Turn}
use go_tasks.Shell.Loop.Exit.{run_exit, some_exit}

megabytes : format_bytes (pos 1_572_864) ≡ some (ok (scaled 1_572_864 1_048_576 b'M'))
unfolding format_bytes scale byte_at
megabytes = refl

matches : match_download "download http://a b c" ≡ some ("http://a", "b c")
unfolding match_download strip_prefix
matches = refl

one_word : match_status "status12" ≡ some (some "12")
unfolding match_status strip_prefix is_id
one_word = refl

-- A downloader that keeps the urls it was given.
abbrev kept : Backend (List String)
kept = record {
  submit_download = λ url destination d. ok (d ++ url ∷ [], value "id");
  cancel_download = λ id d. (d, some "download not found");
  get_download = λ id d. failure "download not found";
  get_all_downloads = λ d. [];
  get_all_download_ids = λ d. d;
  shutdown = λ d. ok [];
}

abbrev no_filter : Filter
no_filter items prefix fold = items

kept-Sound : Sound kept (λ d. Unit {0})
kept-Sound = record {
  submits = λ url destination d g. (d ++ url ∷ [], value "id", refl, tt);
  cancels = λ id d g. tt;
  shuts = λ d g. ([], refl);
}

abbrev turn : String → Turn (List String)
turn line = record { background = λ d. ok d; line = some line }

abbrev turns : List (Turn (List String))
turns = turn "download http://a /tmp/a" ∷ turn "  exit " ∷ turn "exit" ∷ []

format_bytes_scaled_example :
    (exp : ℕ) × (c : ℕ) × (format_bytes (pos 5_000_000)
      ≡ some (ok (scaled 5_000_000 (unit_size exp) c)))
    × (byte_at exp unit_letters ≡ ok c)
    × (unit_size exp ≤ 5_000_000)
    × (5_000_000 < unit_size exp * unit)
format_bytes_scaled_example = format_bytes_scaled 5_000_000 (omega arith) (omega arith)

run_exit_example :
    (s : Shell (List String)) × (run kept (new_chain kept no_filter 0) turns (new_shell []) ≡ ok s)
    × (s.shutdown_done_ch ≡ some_exit turns)
run_exit_example =
    run_exit kept (λ d. Unit {0}) no_filter 0 kept-Sound turns [] tt
      (λ d g. (d, refl, tt), (λ d g. (d, refl, tt), (λ d g. (d, refl, tt), tt)))

swapped : Permᴰ (new_chain kept no_filter 0) (
    new_status_command kept no_filter
    ∷ new_download_command kept no_filter
    ∷ new_cancel_command kept no_filter 0
    ∷ [])
swapped = Permᴰ.swap refl refl

handle_any_order_example :
    handle (new_chain kept no_filter 0) "status" (new_shell [])
    ≡ handle
        (new_status_command kept no_filter
          ∷ new_download_command kept no_filter
          ∷ new_cancel_command kept no_filter 0
          ∷ [])
        "status"
        (new_shell [])
handle_any_order_example = handle_any_order kept no_filter 0 _ swapped "status" (new_shell [])
