-- ===== src/Downloader/Downloads.antt =====
-- hw3/pkg/downloader/downloads_store.go. The Go map holds pointers to records: here it holds the
-- records, and a method called through a pointer writes the record back under its id.
use go_tasks.Prelude.{String, Option, none, some, List, [], map}
use go_tasks.Prelude.Maps.{Map, lookup, insert, values}
use go_tasks.Prelude.Outcome.{Failable, value, failure}
use go_tasks.Downloader.Record.{DownloadRecord, DownloadView, detached_view}

pub record DownloadsStore : Type 0 where
  pub downloads : Map DownloadRecord

unfoldable pub new_downloads_store : DownloadsStore
new_downloads_store = record { downloads = [] }

abbrev pub download_not_found : String
download_not_found = "download not found"

unfoldable pub add : DownloadRecord → DownloadsStore → DownloadsStore × Option String
add d s = elim (lookup d.id s.downloads) [
  | some _ ↦ (s, some "download already stored")
  | none ↦ (record s { downloads = insert d.id d s.downloads }, none)
]

unfoldable pub get : String → DownloadsStore → Failable DownloadRecord
get id s = elim (lookup id s.downloads) [ none ↦ failure download_not_found | some d ↦ value d ]

unfoldable pub get_all_views : DownloadsStore → List DownloadView
get_all_views s = map detached_view (values s.downloads)

unfoldable pub get_all_ids : DownloadsStore → List String
get_all_ids s = map (λ d. d.id) (values s.downloads)
