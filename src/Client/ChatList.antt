-- ===== src/Client/ChatList.antt =====
-- semestral/internal/client/tui/models/chat_list_model.go: the list of chats, with the lines that it
-- draws but not their style. The lines between the drawing and the terminal are those of the library.
pub mod Rows
use go_tasks.Prelude.{
  ℕ, zero, suc, ◌+◌, ◌-◌, String, Bool, true, false, ◌&&◌, ◌||◌, Option, none, some, List, [], ◌∷◌,
  ◌++◌, map, ltb, leb, is_some, length, str_eq, ◌==◌, if◌then◌else◌,
}
use go_tasks.Prelude.Int.{ℤ, pos, negsuc}
use go_tasks.Prelude.Maps.{Map}
use go_tasks.Prelude.Text.{concat, char_count, byte_length}
use go_tasks.Prelude.Tables.{take}
use go_tasks.Prelude.Outcome.{Outcome, ok, panic, Failable, value, failure, Err}
use go_tasks.Client.Session.{
  Session, Chat, group, chat_name, get_chat, get_chats_snapshot, get_unread, insert_chat,
}
use go_tasks.Client.Requests.{ProfileReply, resolve_direct_chat_to_session}

pub record ChatRow : Type 0 where
  pub chat_id : String
  pub label : String
  pub unread : ℤ
  pub row_is_group : Bool

-- `last_version` is `none` for -1; a version is the bit pattern of an int64.
pub record ChatsList : Type 0 where
  pub cursor : ℕ
  pub engaged : Bool
  pub last_version : Option ℕ
  pub rows : List ChatRow

unfoldable pub new_chats_list : ChatsList
new_chats_list = record { cursor = 0; engaged = false; last_version = none; rows = [] }

unfoldable pub set_engaged : Bool → ChatsList → ChatsList
set_engaged engaged m = record m { engaged = engaged }

-- The group flag of a row is never set.
rows_of : Session → Map Chat → List ChatRow
rows_of s [] = []
rows_of s ((id, chat) ∷ rest) =
    record { chat_id = id; label = chat_name chat; unread = get_unread id s; row_is_group = false }
    ∷ rows_of s rest

abbrev pub clamp : ℕ → ℕ → ℕ
clamp cursor count = if count == 0 then 0 else (if leb count cursor then count - 1 else cursor)

abbrev pub same_version : Option ℕ → ℕ → Bool
same_version none version = false
same_version (some last) version = last == version

-- The rows by label, for an order on texts that is Go's.
module _ (less : String → String → Bool) where
  unfoldable pub place_row : ChatRow → List ChatRow → List ChatRow
  place_row r [] = r ∷ []
  place_row r (s ∷ rest) = if less s.label r.label then s ∷ place_row r rest else r ∷ s ∷ rest

  unfoldable pub sort_rows : List ChatRow → List ChatRow
  unfolding place_row
  sort_rows [] = []
  sort_rows (r ∷ rest) = place_row r (sort_rows rest)

  unfoldable pub refresh_rows : Session → ChatsList → ChatsList
  unfolding sort_rows rows_of chat_name get_unread get_chats_snapshot
  refresh_rows s m =
      if same_version m.last_version s.session_version
      then m
      else (let rows = sort_rows (rows_of s (get_chats_snapshot s)) in
          record m {
            rows = rows;
            last_version = some s.session_version;
            cursor = clamp m.cursor (length rows);
          })

-- The first characters of a text.
unfoldable pub take_chars : ℕ → String → String
take_chars zero s = ""
take_chars (suc n) String.[] = ""
take_chars (suc n) (String.◌∷◌ c s) = String.◌∷◌ c (take_chars n s)

unfoldable pub truncate : String → ℕ → String
unfolding take_chars
truncate s width =
    if leb (char_count s) width
    then s
    else (if leb width 3 then take_chars width s else concat (take_chars (width - 3) s) "...")

abbrev pub at_least_one : ℕ → ℕ
at_least_one n = if n == 0 then 1 else n

is_unread : ℤ → Bool
is_unread (pos n) = ltb 0 n
is_unread (negsuc n) = false

unfoldable pub row_label : ChatRow → String
unfolding is_unread
row_label r =
    let named = if r.row_is_group then concat "(G) " r.label else r.label in
    if is_unread r.unread then concat named " (*)" else named

-- The lines of some rows, of which the first has this index.
unfoldable pub row_lines : Bool → ℕ → ℕ → ℕ → List ChatRow → List String
unfolding row_label truncate
row_lines engaged cursor inner_width i [] = []
row_lines engaged cursor inner_width i (r ∷ rest) =
    concat (if engaged && i == cursor then "> " else "  ")
      (truncate (row_label r) (at_least_one (inner_width - 2)))
    ∷ row_lines engaged cursor inner_width (i + 1) rest

abbrev pub window_start : ℕ → ℕ → ℕ
window_start cursor visible = if leb visible cursor then cursor - visible + 1 else 0

unfoldable pub drop_rows : ℕ → List ChatRow → List ChatRow
drop_rows zero rows = rows
drop_rows (suc n) [] = []
drop_rows (suc n) (r ∷ rest) = drop_rows n rest

-- The lines of `ContentView`, which draws "No chats" for none.
unfoldable pub content_lines : ℕ → ℕ → ChatsList → List String
unfolding row_lines drop_rows
content_lines width height m =
    let visible = at_least_one (height - 2) in
    let start = window_start m.cursor visible in
    row_lines m.engaged m.cursor (at_least_one (width - 6)) start
      (take visible (drop_rows start m.rows))

-- The row at an index, which panics out of range.
unfoldable pub row_at : ℕ → List ChatRow → Outcome ChatRow
row_at i [] = panic
row_at zero (r ∷ rest) = ok r
row_at (suc i) (r ∷ rest) = row_at i rest

pub data ListMsg : Type 0 where
  chat_info_pulled : String → ListMsg
  incoming_message : String → ListMsg
  key_press : String → ListMsg

-- The command that `Update` returns.
pub data Cmd : Type 0 where
  nil : Cmd
  pull_chat_info : String → Cmd
  select_chat : String → Cmd

unfoldable pub select_row : List ChatRow → ChatsList → Outcome (ChatsList × Cmd)
select_row [] m = ok (m, nil)
select_row (r ∷ rest) m = elim (row_at m.cursor (r ∷ rest)) [
  | panic ↦ panic
  | ok selected ↦ ok (m, select_chat selected.chat_id)
]

unfoldable pub on_enter : ChatsList → Outcome (ChatsList × Cmd)
on_enter m = select_row m.rows m

unfoldable pub on_key : String → ChatsList → Outcome (ChatsList × Cmd)
on_key key m =
    if str_eq key "j" || str_eq key "down"
    then ok (
      record m { cursor = if ltb (m.cursor + 1) (length m.rows) then m.cursor + 1 else m.cursor },
      nil,
    )
    else (if str_eq key "k" || str_eq key "up"
        then ok (record m { cursor = m.cursor - 1 }, nil)
        else (if str_eq key "enter" then on_enter m else ok (m, nil)))

-- `Update`, which looks into the session for a message that came in.
unfoldable pub update : Session → ListMsg → ChatsList → Outcome (ChatsList × Cmd)
unfolding on_key on_enter select_row row_at get_chat
update s (chat_info_pulled chat) m = ok (m, nil)
update s (incoming_message chat) m =
    if is_some (get_chat chat s) then ok (m, nil) else ok (m, pull_chat_info chat)
update s (key_press key) m = on_key key m

-- The command that reads a chat: the answer of the server is whether the chat is a group, and its
-- name.
unfoldable pub pull_chat_info_cmd :
    Failable (Bool × String)
    → Failable (List String)
    → (String → Failable ProfileReply)
    → String
    → Session
    → Session × Failable String
unfolding insert_chat resolve_direct_chat_to_session
pull_chat_info_cmd (failure e) members server chat s = (s, failure e)
pull_chat_info_cmd (value (true, name)) members server chat s =
    (insert_chat (some (group chat name)) s, value chat)
pull_chat_info_cmd (value (false, name)) members server chat s =
    let (s', err) = resolve_direct_chat_to_session members server chat s in
    elim err [ some e ↦ (s', failure e) | none ↦ (s', value chat) ]
