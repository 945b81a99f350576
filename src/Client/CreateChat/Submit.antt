-- ===== src/Client/CreateChat/Submit.antt =====
-- The command of the form for a new chat
-- (semestral/internal/client/tui/models/create_chat_submodel.go).
use go_tasks.Prelude.{String, none, some, List, [], ◌∷◌, if◌then◌else◌}
use go_tasks.Prelude.Text.{concat, trim_space, is_nil}
use go_tasks.Prelude.Outcome.{Failable, value, failure, Err}
use go_tasks.Client.Session.{
  Session, Profile, direct, group, get_profile, insert_chat, set_chat_members,
}
use go_tasks.Client.Requests.{ProfileReply, resolve_profile_to_session}
use go_tasks.Client.CreateChat.{CreateChat}

-- The message that the command ends with.
pub data Created : Type 0 where
  success : Created
  failed : Err → Created

with_profile : String → String → Session × Failable Profile → Session × Created
with_profile chat target (s, failure e) = (s, failed e)
with_profile chat target (s, value other) = (
  set_chat_members chat (s.user_id ∷ target ∷ []) (insert_chat (some (direct chat (some other))) s),
  success,
)

abbrev known_or_resolved :
    (String → Failable ProfileReply) → String → Session → Session × Failable Profile
known_or_resolved server target s = elim (get_profile target s) [
  | some profile ↦ (s, value profile)
  | none ↦ resolve_profile_to_session server target s
]

create_direct :
    Failable String → (String → Failable ProfileReply) → List String → Session → Session × Created
create_direct answer server (target ∷ []) s = elim answer [
  | failure e ↦ (s, failed e)
  | value chat ↦ with_profile chat target (known_or_resolved server target s)
]
create_direct answer server _ s = (s, failed "direct chat requires exactly one recipient")

-- The name of the group, with the time in it where none was typed.
unfoldable pub name_of_group : String → String → String
unfolding trim_space
name_of_group clock name =
    let trimmed = trim_space name in if is_nil trimmed then concat "Group " clock else trimmed

create_group : Failable String → String → CreateChat → Session → Session × Created
create_group answer clock m s = elim answer [
  | failure e ↦ (s, failed e)
  | value chat ↦ (
    set_chat_members chat m.user_ids
        (insert_chat (some (group chat (name_of_group clock m.group_name))) s),
    success,
  )
]

-- The id of the new chat or the error, what the profile server says, and the time are arguments.
unfoldable pub submit_create_chat :
    Failable String
    → (String → Failable ProfileReply)
    → String
    → CreateChat
    → Session
    → Session × Created
unfolding create_direct create_group with_profile name_of_group get_profile insert_chat
    set_chat_members resolve_profile_to_session
submit_create_chat answer server clock m s =
    if m.is_group then create_group answer clock m s else create_direct answer server m.user_ids s
