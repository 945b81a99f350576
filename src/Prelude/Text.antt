-- ===== src/Prelude/Text.antt =====
-- `strings.TrimSpace` and `len` of Go: the white space of Unicode is cut at both ends, and a length
-- counts the bytes of UTF-8.
use Prim.Native.Char.{code}
use Prim.Native.String.{len, ◌++◌ as str_append}
use text.Mathlib.TextLemmas.{append_assoc, append-nil, nil-append}
use go_tasks.Prelude.{
  suc, ◌≡◌, List, [], ◌∷◌, ℕ, Option, none, some, is_some, String, Bool, true, false, ◌&&◌, ◌||◌,
  leb, ◌==◌, if◌then◌else◌,
}

-- `unicode.IsSpace`.
unfoldable pub is_space : ℕ → Bool
is_space c =
    (leb 9 c && leb c 13)
    || c == 32
    || c == 0x85
    || c == 0xa0
    || c == 0x1680
    || (leb 0x2000 c && leb c 0x200a)
    || c == 0x2028
    || c == 0x2029
    || c == 0x202f
    || c == 0x205f
    || c == 0x3000

unfoldable pub trim_left : String → String
unfolding is_space
trim_left String.[] = String.[]
trim_left (String.◌∷◌ c s) =
    let rest = trim_left s in if is_space (code c) then rest else String.◌∷◌ c s

abbrev pub is_nil : String → Bool
is_nil String.[] = true
is_nil (String.◌∷◌ c s) = false

unfoldable pub trim_right : String → String
unfolding is_space
trim_right String.[] = String.[]
trim_right (String.◌∷◌ c s) =
    let rest = trim_right s in
    if is_nil rest && is_space (code c) then String.[] else String.◌∷◌ c rest

unfoldable pub trim_space : String → String
unfolding trim_left trim_right
trim_space s = trim_right (trim_left s)

abbrev pub byte_length : String → ℕ
byte_length s = len s

-- What is left of a text after a prefix, if it starts with it.
unfoldable pub strip_prefix : String → String → Option String
strip_prefix String.[] s = some s
strip_prefix (String.◌∷◌ c p) String.[] = none
strip_prefix (String.◌∷◌ c p) (String.◌∷◌ d s) =
    let rest = strip_prefix p s in if code c == code d then rest else none

abbrev pub has_prefix : String → String → Bool
has_prefix s prefix = is_some (strip_prefix prefix s)

abbrev pub concat : String → String → String
concat s t = str_append s t

pub concat_assoc : (a b c : String) → concat (concat a b) c ≡ concat a (concat b c)
concat_assoc a b c = append_assoc a b c

pub concat_nil : (s : String) → concat s "" ≡ s
concat_nil s = append-nil s

pub nil_concat : (s : String) → concat "" s ≡ s
nil_concat s = nil-append s

-- The texts one after the other.
abbrev pub concat_all : List String → String
concat_all [] = ""
concat_all (s ∷ rest) = concat s (concat_all rest)

-- Characters, where `len` counts bytes.
abbrev pub char_count : String → ℕ
char_count String.[] = 0
char_count (String.◌∷◌ c s) = suc (char_count s)

-- The text without its last character.
unfoldable pub drop_last : String → String
drop_last String.[] = String.[]
drop_last (String.◌∷◌ c s) = if is_nil s then String.[] else String.◌∷◌ c (drop_last s)
