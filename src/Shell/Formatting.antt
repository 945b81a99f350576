-- ===== src/Shell/Formatting.antt =====
-- hw3/internal/shell/commands/formatting.go, less `FormatSpeed`, which reads the clock. A path is the
-- list of its bytes. A number with decimals is the fraction whose rounding is printed.
pub mod Bounds
pub mod Paths
use go_tasks.Prelude.{
  ℕ, zero, suc, ◌+◌, ◌-◌, ◌*◌, ◌/◌, ◌%◌, ◌^◌, ◌<◌, Bool, true, false, Option, none, some, List, [],
  ◌∷◌, ◌++◌, ltb, leb, ◌==◌, length, if◌then◌else◌,
}
use go_tasks.Prelude.Int.{ℤ, pos, negsuc}
use go_tasks.Prelude.Outcome.{Outcome, ok, panic}
use go_tasks.Downloader.Record.{DownloadView, DownloadStatus, status_eq}

-- "%d B", or "%.2f %cB" of a quotient and the letter of a unit.
pub data SizeText : Type 0 where
  whole : ℤ → SizeText
  scaled : ℕ → ℕ → ℕ → SizeText

abbrev pub unit : ℕ
unit = 1024

abbrev pub unit_letters : List ℕ
unit_letters = b'K' ∷ b'M' ∷ b'G' ∷ b'T' ∷ b'P' ∷ b'E' ∷ []

-- A byte of a text; an index out of range panics.
unfoldable pub byte_at : ℕ → List ℕ → Outcome ℕ
byte_at i [] = panic
byte_at zero (c ∷ s) = ok c
byte_at (suc i) (c ∷ s) = byte_at i s

-- The loop over `n`, with `div` as the pattern of an int64. `none` means that the fuel ran out.
unfoldable pub scale : ℕ → ℕ → ℕ → ℕ → Option (ℕ × ℕ)
scale zero n div exp = none
scale (suc fuel) n div exp =
    let rest = scale fuel (n / unit) (div * unit % 2 ^ 64) (exp + 1) in
    if leb unit n then rest else some (div, exp)

abbrev pub scale_fuel : ℕ
scale_fuel = 8

show_scaled : ℕ → ℕ × ℕ → Outcome SizeText
show_scaled b (div, exp) = elim (byte_at exp unit_letters) [
  | ok letter ↦ ok (scaled b div letter)
  | panic ↦ panic
]

unfoldable pub format_bytes : ℤ → Option (Outcome SizeText)
unfolding show_scaled
format_bytes (negsuc n) = some (ok (whole (negsuc n)))
format_bytes (pos b) =
    if ltb b unit then some (ok (whole (pos b))) else elim (scale scale_fuel (b / unit) unit 0) [
      | none ↦ none
      | some found ↦ some (show_scaled b found)
    ]

-- `strings.Split` at one byte, and `strings.Join`.
add_head : ℕ → List (List ℕ) → List (List ℕ)
add_head c [] = []
add_head c (part ∷ parts) = (c ∷ part) ∷ parts

unfoldable pub split : ℕ → List ℕ → List (List ℕ)
unfolding add_head
split sep [] = [] ∷ []
split sep (c ∷ s) = let parts = split sep s in if c == sep then [] ∷ parts else add_head c parts

unfoldable pub join : ℕ → List (List ℕ) → List ℕ
join sep [] = []
join sep (part ∷ []) = part
join sep (part ∷ next ∷ parts) = part ++ (sep ∷ join sep (next ∷ parts))

unfoldable pub drop {ℓ} : {A : Type ℓ} → ℕ → List A → List A
drop zero xs = xs
drop (suc n) [] = []
drop (suc n) (x ∷ xs) = drop n xs

-- The `n` parts at the end, or all.
abbrev pub last_parts : ℕ → List (List ℕ) → List (List ℕ)
last_parts n parts = if ltb n (length parts) then drop (length parts - n) parts else parts

abbrev pub dots : List ℕ
dots = b'.' ∷ b'.' ∷ b'.' ∷ []

-- `text[len(text)-max_len+3:]` panics where it begins behind the end.
unfoldable pub shorten : ℕ → List ℕ → Outcome (List ℕ)
unfolding drop
shorten max_len text =
    if ltb max_len (length text)
    then (if ltb (length text) (length text - max_len + 3)
        then panic
        else ok (dots ++ drop (length text - max_len + 3) text))
    else ok text

-- `filepath.ToSlash` changes nothing where the separator is `/`.
unfoldable pub format_path : List ℕ → ℕ → ℕ → Outcome (List ℕ)
unfolding split join drop shorten
format_path [] last_n max_len = ok []
format_path (c ∷ path) last_n max_len =
    shorten max_len (join b'/' (last_parts last_n (split b'/' (c ∷ path))))

-- `none` is "unknown".
unfoldable pub format_expected : ℤ → Option (Option (Outcome SizeText))
unfolding format_bytes
format_expected (negsuc zero) = none
format_expected b = some (format_bytes b)

-- "100.00 %", "unknown", or "%.2f%%" of a quotient.
pub data Completion : Type 0 where
  hundred : Completion
  unknown : Completion
  quotient : ℤ → ℤ → Completion

unfoldable pub format_completion : DownloadView → Completion
format_completion d =
    if status_eq d.status DownloadStatus.completed
    then hundred
    else (elim d.expected_size [ negsuc zero ↦ unknown | size ↦ quotient d.bytes_downloaded size ])
