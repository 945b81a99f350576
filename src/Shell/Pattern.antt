-- ===== src/Shell/Pattern.antt =====
-- The regular expressions of the three commands (hw3/internal/shell/commands/*_command.go), as tests
-- of a whole text. `\s` of Go is the ASCII white space and `.` is all but a line feed.
pub mod Disjoint
pub mod Trimmed
use Prim.Native.Char.{code}
use go_tasks.Prelude.{
  ℕ, suc, ◌+◌, String, Bool, true, false, not, ◌&&◌, ◌||◌, Option, none, some, leb, ◌==◌,
  if◌then◌else◌,
}
use go_tasks.Prelude.Text.{strip_prefix, is_nil}

unfoldable pub is_blank : ℕ → Bool
is_blank c = c == 9 || c == 10 || c == 12 || c == 13 || c == 32

-- `[\w-]`
unfoldable pub is_id_char : ℕ → Bool
is_id_char c =
    (leb b'a' c && leb c b'z')
    || (leb b'A' c && leb c b'Z')
    || (leb b'0' c && leb c b'9')
    || c == b'_'
    || c == b'-'

abbrev pub chars : String → ℕ
chars String.[] = 0
chars (String.◌∷◌ c s) = suc (chars s)

unfoldable pub every : (ℕ → Bool) → String → Bool
every p String.[] = true
every p (String.◌∷◌ c s) = p (code c) && every p s

abbrev pub max_field : ℕ
max_field = 150

-- `[\w-]{1,150}`
unfoldable pub is_id : String → Bool
unfolding every is_id_char
is_id s = not (is_nil s) && every is_id_char s && leb (chars s) max_field

-- What follows one `\s`.
unfoldable pub after_blank : String → Option String
unfolding is_blank
after_blank String.[] = none
after_blank (String.◌∷◌ c s) = if is_blank (code c) then some s else none

-- The longest beginning with no white space, and what follows.
unfoldable pub span_field : String → String × String
unfolding is_blank
span_field String.[] = (String.[], String.[])
span_field (String.◌∷◌ c s) =
    let (field, rest) = span_field s in
    if is_blank (code c) then (String.[], String.◌∷◌ c s) else (String.◌∷◌ c field, rest)

-- `^cancel\s([\w-]{1,150})$`
unfoldable pub match_cancel : String → Option String
unfolding strip_prefix after_blank is_id
match_cancel s = elim (strip_prefix "cancel" s) [
  | none ↦ none
  | some tail ↦ elim (after_blank tail) [
    | none ↦ none
    | some id ↦ if is_id id then some id else none
  ]
]

id_or_nothing : String → Option (Option String)
id_or_nothing String.[] = some none
id_or_nothing (String.◌∷◌ c s) =
    if is_id (String.◌∷◌ c s) then some (some (String.◌∷◌ c s)) else none

abbrev or_same : String → Option String → String
or_same s none = s
or_same s (some rest) = rest

-- `^status\s?([\w-]{1,150})?$`; the inner option is the group.
unfoldable pub match_status : String → Option (Option String)
unfolding strip_prefix after_blank id_or_nothing
match_status s = elim (strip_prefix "status" s) [
  | none ↦ none
  | some tail ↦ id_or_nothing (or_same tail (after_blank tail))
]

abbrev is_url : String → Bool
is_url url = not (is_nil url) && leb (chars url) max_field

is_destination : String → Bool
is_destination s = every (λ c. not (c == 10)) s && leb (chars s) max_field

-- `\s(.{1,150})?$` behind a url that was read.
unfoldable pub match_destination : String × String → Option (String × String)
unfolding after_blank is_destination every
match_destination (url, more) = elim (after_blank more) [
  | none ↦ none
  | some destination ↦
      if is_url url && is_destination destination then some (url, destination) else none
]

-- `^download\s(\S{1,150})\s(.{1,150})?$`; a group without a match is the empty text.
unfoldable pub match_download : String → Option (String × String)
unfolding strip_prefix after_blank span_field match_destination
match_download s = elim (strip_prefix "download" s) [
  | none ↦ none
  | some tail ↦ elim (after_blank tail) [
    | none ↦ none
    | some fields ↦ match_destination (span_field fields)
  ]
]
