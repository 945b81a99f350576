-- ===== src/Client/Session.antt =====
-- semestral/internal/client/state/session.go and data.go. Every method runs under the lock, so it is
-- one step. The version is the bit pattern of an int64. Profiles and chats are never changed once
-- they are stored, so they are values.
pub mod Runs
use go_tasks.Prelude.{
  ℕ, ◌+◌, ◌%◌, ◌^◌, String, Bool, true, false, ◌&&◌, not, Option, none, some, List, [], is_some,
  str_eq, if◌then◌else◌,
}
use go_tasks.Prelude.Int.{ℤ, pos, add_int64}
use go_tasks.Prelude.Maps.{Map, lookup, insert, delete}

pub record Profile : Type 0 where
  pub id : String
  pub username : String
  pub bio : String
  pub status : String

pub data Chat : Type 0 where
  direct : String → Option Profile → Chat
  group : String → String → Chat

unfoldable pub chat_id : Chat → String
chat_id (direct id other) = id
chat_id (group id name) = id

unfoldable pub is_group : Chat → Bool
is_group (direct id other) = false
is_group (group id name) = true

unfoldable pub chat_name : Chat → String
chat_name (direct id none) = "Unknown User"
chat_name (direct id (some other)) =
    if not (str_eq other.username "") then other.username else "Unknown User"
chat_name (group id name) = name

pub record Session : Type 0 where
  pub session_version : ℕ
  pub user_id : String
  pub profiles : Map Profile
  pub chats : Map Chat
  pub chat_members : Map (List String)
  pub unread_counts : Map ℤ
  pub is_invisible : Bool

unfoldable pub new_session : Session
new_session = record {
  session_version = 0;
  user_id = "";
  profiles = [];
  chats = [];
  chat_members = [];
  unread_counts = [];
  is_invisible = false;
}

abbrev pub touch : Session → Session
touch s = record s { session_version = (s.session_version + 1) % 2 ^ 64 }

abbrev pub same : Bool → Bool → Bool
same true b = b
same false b = not b

unfoldable pub set_invisible : Bool → Session → Session
set_invisible invisible s =
    if same s.is_invisible invisible then s else touch (record s { is_invisible = invisible })

unfoldable pub set_user_id : String → Session → Session
set_user_id id s = touch (record s { user_id = id })

-- A missing count reads as 0.
abbrev pub or_zero : Option ℤ → ℤ
or_zero none = pos 0
or_zero (some n) = n

unfoldable pub get_unread : String → Session → ℤ
unfolding lookup
get_unread chat s = or_zero (lookup chat s.unread_counts)

unfoldable pub increment_unread : String → Session → Session
increment_unread chat s =
    touch
      (record s { unread_counts = insert chat (add_int64 (get_unread chat s) 1) s.unread_counts })

unfoldable pub reset_unread : String → Session → Session
reset_unread chat s = touch (record s { unread_counts = insert chat (pos 0) s.unread_counts })

-- `none` is the nil pointer.
unfoldable pub set_profile : Option Profile → Session → Session
set_profile none s = s
set_profile (some p) s = touch (record s { profiles = insert p.id p s.profiles })

unfoldable pub get_profile : String → Session → Option Profile
get_profile id s = lookup id s.profiles

unfoldable pub get_current_user_profile : Session → Option Profile
get_current_user_profile s = lookup s.user_id s.profiles

unfoldable pub remove_chat : String → Session → Session
remove_chat chat s = touch (record s {
  chats = delete chat s.chats;
  chat_members = delete chat s.chat_members;
  unread_counts = delete chat s.unread_counts;
})

unfoldable pub insert_chat : Option Chat → Session → Session
insert_chat none s = s
insert_chat (some chat) s = touch (record s { chats = insert (chat_id chat) chat s.chats })

unfoldable pub get_chat : String → Session → Option Chat
get_chat chat s = lookup chat s.chats

-- The copy of the map is the map.
unfoldable pub get_chats_snapshot : Session → Map Chat
get_chats_snapshot s = s.chats

unfoldable pub set_chat_members : String → List String → Session → Session
set_chat_members chat members s =
    touch (record s { chat_members = insert chat members s.chat_members })

unfoldable pub get_chat_members : String → Session → Option (List String)
get_chat_members chat s = lookup chat s.chat_members
