-- ===== src/Client/Session/Runs.antt =====
-- Runs of calls on a session (semestral/internal/client/state/session.go).
pub mod Unread
use go_tasks.Prelude.{
  zero, ◌+◌, ◌%◌, ◌^◌, ◌≡◌, String, Bool, true, false, Option, List, [], ◌∷◌, str_eq, eq_iff,
  eq_refl, if◌then◌else◌,
}
use go_tasks.Prelude.Int.{ℤ, pos, add_int64, add_int64-pos}
use go_tasks.Prelude.Maps.{lookup, insert, delete, lookup-insert, lookup-delete}
use go_tasks.Client.Session.{
  Profile, Chat, Session, touch, set_invisible, set_user_id, get_unread, increment_unread,
  reset_unread, set_profile, remove_chat, insert_chat, set_chat_members, or_zero,
}

-- A call that may change the session.
pub data Call : Type 0 where
  makes_invisible : Bool → Call
  sets_user : String → Call
  receives : String → Call
  reads : String → Call
  sets_profile : Option Profile → Call
  removes : String → Call
  inserts : Option Chat → Call
  sets_members : String → List String → Call

abbrev pub apply : Call → Session → Session
apply (makes_invisible b) = set_invisible b
apply (sets_user id) = set_user_id id
apply (receives chat) = increment_unread chat
apply (reads chat) = reset_unread chat
apply (sets_profile p) = set_profile p
apply (removes chat) = remove_chat chat
apply (inserts chat) = insert_chat chat
apply (sets_members chat members) = set_chat_members chat members

abbrev pub run : List Call → Session → Session
run [] s = s
run (call ∷ calls) s = run calls (apply call s)

-- A call changes nothing, or it counts the version on.
data Effect (s s' : Session) : Type 0 where
  nothing : s' ≡ s → Effect s s'
  counts : s'.session_version ≡ (s.session_version + 1) % 2 ^ 64 → Effect s s'
