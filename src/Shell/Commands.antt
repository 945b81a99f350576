-- ===== src/Shell/Commands.antt =====
-- hw3/internal/shell/commands/{download,status,cancel}_command.go over the methods of the downloader
-- that they call. What is printed is a list of messages; the columns of the templates are left out.
pub mod Dispatch
use go_tasks.Prelude.{
  ℕ, ◌+◌, ◌-◌, ◌≡◌, String, Bool, true, false, not, ◌||◌, Option, none, some, List, [], ◌∷◌, ◌++◌,
  map, ltb, is_some, if◌then◌else◌,
}
use go_tasks.Prelude.Outcome.{Outcome, ok, panic, Failable, value, failure, Err, ◌>>=◌}
use go_tasks.Downloader.Record.{DownloadView, DownloadStatus, status_eq}
use go_tasks.Shell.Pattern.{match_cancel, match_status, match_download}
use go_tasks.Shell.Command.{Suggest, BaseCommand, Filter, with_next}

-- The downloader as the shell sees it.
pub record Backend (D : Type 0) : Type 0 where
  pub submit_download : String → String → D → Outcome (D × Failable String)
  pub cancel_download : String → D → D × Option Err
  pub get_download : String → D → Failable DownloadView
  pub get_all_downloads : D → List DownloadView
  pub get_all_download_ids : D → List String
  pub shutdown : D → Outcome D

-- `not_shown` stands for a template that is run on no view, which fails.
pub data Message : Type 0 where
  submitted : String → Message
  submit_failed : Err → Message
  cancelled : String → Message
  cancel_failed : String → Err → Message
  table : List DownloadView → Message
  detail : DownloadView → Message
  could_not_show : Err → Message
  not_shown : Message
  no_command : Err → Message
  shutting_down : Message
  shutdown_complete : Message

-- The fields of the shell and of its three commands.
pub record Shell (D : Type 0) : Type 0 where
  pub downloader : D
  pub printed : List Message
  pub destinations_history : List Suggest
  pub urls_history : List Suggest
  pub cached_suggestions : List Suggest
  pub cached_time : ℕ
  pub shutdown : Bool
  pub shutdown_done_ch : Bool

abbrev suggest : String → String → Suggest
suggest text description = record { text = text; description = description }

-- The ids of the downloads that can be cancelled.
cancellable : List DownloadView → List Suggest
cancellable [] = []
cancellable (view ∷ views) =
    if status_eq view.status DownloadStatus.requested
      || status_eq view.status DownloadStatus.in_progress
    then suggest view.id "Download Id" ∷ cancellable views
    else cancellable views

abbrev is_empty : List Suggest → Bool
is_empty [] = true
is_empty (item ∷ items) = false

module _ {D : Type 0} where
  abbrev pub print : Message → Shell D → Shell D
  print m s = record s { printed = s.printed ++ m ∷ [] }

  abbrev pub cancel_matched : Backend D → Option String → Shell D → Outcome (Shell D)
  cancel_matched backend none s = panic
  cancel_matched backend (some id) s =
      let (d, err) = backend.cancel_download id s.downloader in
      let s' = record s { downloader = d } in
      elim err [ some e ↦ ok (print (cancel_failed id e) s') | none ↦ ok (print (cancelled id) s') ]

  -- The groups of a text that does not match are indexed out of range.
  unfoldable pub cancel_handle : Backend D → String → Shell D → Outcome (Shell D)
  cancel_handle backend input s = cancel_matched backend (match_cancel input) s

  abbrev pub download_matched : Backend D → Option (String × String) → Shell D → Outcome (Shell D)
  download_matched backend none s = panic
  download_matched backend (some (url, destination)) s = do
    (d, result) ← backend.submit_download url destination s.downloader
    elim result [
      | failure e ↦ ok (print (submit_failed e) (record s { downloader = d }))
      | value id ↦ ok (
          print (submitted id) (record s {
            downloader = d;
            urls_history = s.urls_history ++ suggest url "Download url" ∷ [];
            destinations_history =
                s.destinations_history ++ suggest destination "Download destination" ∷ [];
          }))
    ]

  unfoldable pub download_handle : Backend D → String → Shell D → Outcome (Shell D)
  download_handle backend input s = download_matched backend (match_download input) s

  abbrev pub status_matched : Backend D → Option (Option String) → Shell D → Outcome (Shell D)
  status_matched backend none s = panic
  status_matched backend (some none) s =
      ok (print (table (backend.get_all_downloads s.downloader)) s)
  status_matched backend (some (some id)) s = elim (backend.get_download id s.downloader) [
    | failure e ↦ ok (print not_shown (print (could_not_show e) s))
    | value view ↦ ok (print (detail view) s)
  ]

  unfoldable pub status_handle : Backend D → String → Shell D → Outcome (Shell D)
  status_handle backend input s = status_matched backend (match_status input) s

  -- The history of the urls or that of the destinations, by the number of words in the line.
  unfoldable pub download_suggest : Filter → List String → Shell D → Shell D × List Suggest
  download_suggest filter (command ∷ url ∷ []) s = (s, filter s.urls_history url true)
  download_suggest filter (command ∷ url ∷ destination ∷ []) s =
      (s, filter s.destinations_history destination true)
  download_suggest filter (command ∷ url ∷ destination ∷ more ∷ rest) s = (s, [])
  download_suggest filter _ s = (s, s.urls_history)

  unfoldable pub status_suggest :
      Backend D → Filter → List String → Shell D → Shell D × List Suggest
  status_suggest backend filter parts s =
      let suggestions =
        map (λ id. suggest id "Download Id") (backend.get_all_download_ids s.downloader) in
      elim parts [
        | [] ↦ (s, suggestions)
        | command ∷ [] ↦ (s, suggestions ++ suggest "" "Show downloads table (less detailed)" ∷ [])
        | command ∷ id ∷ [] ↦ (s, filter suggestions id true)
        | command ∷ id ∷ more ∷ rest ↦ (s, suggest "" "" ∷ [])
      ]

  -- `getIdsSuggestionsCached`: the ids are asked for where the cache is empty or too old.
  unfoldable pub get_ids_suggestions_cached : Backend D → ℕ → ℕ → Shell D → Shell D
  unfolding cancellable
  get_ids_suggestions_cached backend lifetime now s =
      if is_empty s.cached_suggestions || not (ltb (now - s.cached_time) lifetime)
      then record s {
        cached_suggestions = cancellable (backend.get_all_downloads s.downloader);
        cached_time = now;
      }
      else s

  unfoldable pub cancel_suggest :
      Backend D → Filter → ℕ → ℕ → List String → Shell D → Shell D × List Suggest
  unfolding get_ids_suggestions_cached
  cancel_suggest backend filter lifetime now parts s =
      let s' = get_ids_suggestions_cached backend lifetime now s in
      elim parts [
        | [] ↦ (s', s'.cached_suggestions)
        | command ∷ [] ↦ (s', s'.cached_suggestions)
        | command ∷ id ∷ [] ↦ (s', filter s'.cached_suggestions id true)
        | command ∷ id ∷ more ∷ rest ↦ (s', suggest "" "" ∷ [])
      ]

  -- A command's fields, at the time `now` of the call in milliseconds.
  abbrev pub new_download_command : Backend D → Filter → BaseCommand (Shell D)
  new_download_command backend filter = record {
    name = "download";
    description = "download <url> <destination>, max 150 chars per field";
    matches = λ s. is_some (match_download s);
    handle = download_handle backend;
    suggest_arguments = download_suggest filter;
  }

  abbrev pub new_status_command : Backend D → Filter → BaseCommand (Shell D)
  new_status_command backend filter = record {
    name = "status";
    description = "status [downloadId], max 150 chars per field";
    matches = λ s. is_some (match_status s);
    handle = status_handle backend;
    suggest_arguments = status_suggest backend filter;
  }

  abbrev pub new_cancel_command : Backend D → Filter → ℕ → BaseCommand (Shell D)
  new_cancel_command backend filter now = record {
    name = "cancel";
    description = "cancel <downloadId>, max 150 chars per field";
    matches = λ s. is_some (match_cancel s);
    handle = cancel_handle backend;
    suggest_arguments = cancel_suggest backend filter 2000 now;
  }

  abbrev pub new_chain : Backend D → Filter → ℕ → List (BaseCommand (Shell D))
  new_chain backend filter now =
      with_next
        (with_next (new_download_command backend filter ∷ []) (new_status_command backend filter))
        (new_cancel_command backend filter now)
