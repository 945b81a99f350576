-- ===== src/Client/Requests.antt =====
-- semestral/internal/client/tui/requests.go. The answers of the servers are arguments.
use go_tasks.Prelude.{
  ℕ, ◌*◌, ◌%◌, ◌^◌, String, Bool, true, false, not, Option, none, some, List, [], ◌∷◌, ltb, str_eq,
  if◌then◌else◌,
}
use go_tasks.Prelude.Text.{concat}
use go_tasks.Prelude.Int.{ℤ, pos, negsuc, of_bits}
use go_tasks.Prelude.Outcome.{Failable, value, failure, Err}
use go_tasks.Client.Session.{Session, Profile, direct, set_chat_members, set_profile, insert_chat}

-- What the profile server answers about a user.
pub record ProfileReply : Type 0 where
  pub user_id : String
  pub username : String
  pub bio : String
  pub online : Bool

unfoldable pub resolve_profile_to_session :
    (String → Failable ProfileReply) → String → Session → Session × Failable Profile
unfolding set_profile
resolve_profile_to_session server profile_id s = elim (server profile_id) [
  | failure e ↦ (s, failure e)
  | value reply ↦
      let profile : Profile = record {
        id = reply.user_id;
        username = reply.username;
        bio = reply.bio;
        status = if reply.online then "online" else "offline";
      } in
      (set_profile (some profile) s, value profile)
]

-- The first member who is not the user, if there is one; the empty text stands for none.
unfoldable pub companion : String → List String → String
companion user_id [] = ""
companion user_id (uid ∷ rest) = if not (str_eq uid user_id) then uid else companion user_id rest

abbrev placeholder : String → Profile
placeholder id = record { id = id; username = concat "User " id; bio = ""; status = "" }

or_placeholder : String → Session × Failable Profile → Session × Profile
or_placeholder id (s, value profile) = (s, profile)
or_placeholder id (s, failure e) = (set_profile (some (placeholder id)) s, placeholder id)

store_members : (String → Failable ProfileReply) → String → List String → Session → Session
store_members server chat members s =
    let s1 = set_chat_members chat members s in
    let other = companion s1.user_id members in
    if str_eq other ""
    then s1
    else (let (s2, profile) = or_placeholder other (resolve_profile_to_session server other s1) in
        insert_chat (some (direct chat (some profile))) s2)

-- The session, and the error if the members of the chat could not be read.
unfoldable pub resolve_direct_chat_to_session :
    Failable (List String)
    → (String → Failable ProfileReply)
    → String
    → Session
    → Session × Option Err
unfolding store_members resolve_profile_to_session companion set_chat_members set_profile
    insert_chat or_placeholder
resolve_direct_chat_to_session (failure e) server chat s = (s, some e)
resolve_direct_chat_to_session (value members) server chat s =
    (store_members server chat members s, none)

abbrev pub second : ℕ
second = 1_000_000_000

above : ℤ → ℕ → Bool
above (pos n) limit = ltb limit n
above (negsuc n) limit = false

-- Nanoseconds in int64, with the shift and the product wrapped around.
unfoldable pub calculate_backoff : ℕ → ℤ
unfolding of_bits above
calculate_backoff retry_count =
    let delay = of_bits (2 ^ retry_count % 2 ^ 64 * second % 2 ^ 64) in
    if above delay (30 * second) then pos (30 * second) else delay

-- The codes of gRPC.
pub data Code : Type 0 where
  ok cancelled unknown invalid_argument deadline_exceeded not_found already_exists permission_denied
        resource_exhausted failed_precondition aborted out_of_range unimplemented internal
        unavailable data_loss unauthenticated :
      Code

-- An error is none, one without a code, or one with a code.
pub data CallError : Type 0 where
  nil : CallError
  plain : CallError
  status : Code → CallError

unfoldable pub is_retriable : CallError → Bool
is_retriable nil = false
is_retriable plain = true
is_retriable (status invalid_argument) = false
is_retriable (status unauthenticated) = false
is_retriable (status permission_denied) = false
is_retriable (status not_found) = false
is_retriable (status already_exists) = false
is_retriable (status failed_precondition) = false
is_retriable (status unimplemented) = false
is_retriable (status _) = true
