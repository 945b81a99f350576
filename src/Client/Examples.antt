-- ===== src/Client/Examples.antt =====
-- Runs of the client (semestral/internal/client), and the theorems at concrete inputs.
use go_tasks.Prelude.{
  ℕ, ◌*◌, ◌≤◌, ◌≡◌, ◌&&◌, refl, ◌≢◌, String, Bool, true, false, Option, none, some, List, [], ◌∷◌,
  arith, length, str_eq, ◌==◌, if◌then◌else◌, sym, ap, some_inj, Bool-cases, inl, inr,
}
use go_tasks.Prelude.Int.{pos}
use go_tasks.Prelude.Maps.{lookup, insert}
use go_tasks.Prelude.Tables.{any, count, update}
use go_tasks.Prelude.Outcome.{Outcome, ok, panic, Failable, value}
use go_tasks.Profiles.Tokens.{MessengerClaims}
use go_tasks.Client.Session
use go_tasks.Client.Session.{
  Session, Profile, Chat, direct, group, new_session, get_unread, get_chat, set_user_id,
  set_chat_members, set_profile, insert_chat, chat_name,
}
use go_tasks.Client.Session.Runs.{Call, receives, reads, sets_user}
use go_tasks.Client.Session.Runs.Unread.{unread_after, get_unread-run}
use go_tasks.Client.Session.Runs
use go_tasks.Client.Storage.{
  Message, Messages, has_id, insert_message, mark_message_delivered, delivered,
}
use go_tasks.Client.Storage.Pages.{pages, IsNewestFirst, is_in, pages_whole}
use go_tasks.Client.Storage.Ids.{inserts}
use go_tasks.Client.Storage.Ids.Delivered.{delivered_once}
use go_tasks.Client.Credentials.{Credentials, Refresh}
use go_tasks.Client.Credentials.Refreshing.{refresh_all, Lasting, refresh_all_once}
use go_tasks.Client.Requests.{
  calculate_backoff, second, ProfileReply, resolve_direct_chat_to_session,
  resolve_profile_to_session, companion, CallError,
}
use go_tasks.Client.CreateChat.{new_create_chat, Key}
use go_tasks.Client.CreateChat.Form
use go_tasks.Client.CreateChat.Form.{IsFine, keys-IsFine}
use go_tasks.Client.ChatList.{ChatsList, new_chats_list}
use go_tasks.Client.ChatList.Rows
use go_tasks.Client.ChatList.Rows.{Event, draws, gets, Drawn, run-Drawn}
use go_tasks.Client.ChatList.{key_press}
use go_tasks.Client.MessagesList
use go_tasks.Client.MessagesList.{World, new_messages_list, MessagesList}
use go_tasks.Client.MessagesList.Commands.{Answer, answered, refused}
use go_tasks.Client.MessagesList.Events
use go_tasks.Client.MessagesList.Cursor.{OnMessage}
use go_tasks.Client.MessagesList.Events.{
  selects, receives as incoming, presses, run_fine, AllTimely,
}

backoff : (calculate_backoff 3 ≡ pos (8 * second)) × (calculate_backoff 5 ≡ pos (30 * second))
unfolding calculate_backoff
backoff = (refl, refl)

-- The shift drops out of 64 bits, and there is no delay at all.
no_backoff : calculate_backoff 64 ≡ pos 0
unfolding calculate_backoff
no_backoff = refl

abbrev bob : String → Failable ProfileReply
bob id = value (record { user_id = id; username = "bob"; bio = ""; online = true })

-- The other member of the chat gives it its name.
resolved :
    get_chat "c"
      (resolve_direct_chat_to_session
        (value ("1" ∷ "2" ∷ []))
        bob
        "c"
        (set_user_id "1" new_session)).0
    ≡ some (direct "c" (some (record { id = "2"; username = "bob"; bio = ""; status = "online" })))
unfolding resolve_direct_chat_to_session get_chat new_session set_user_id lookup insert str_eq
    companion resolve_profile_to_session set_profile set_chat_members insert_chat Session.chat_id
resolved = refl

abbrev incoming_calls : List Call
incoming_calls = receives "c" ∷ sets_user "1" ∷ receives "c" ∷ receives "d" ∷ []

get_unread-run_example :
    get_unread "c" (Runs.run incoming_calls new_session) ≡ pos (unread_after "c" incoming_calls 0)
unfolding new_session get_unread lookup
get_unread-run_example = get_unread-run "c" incoming_calls new_session 0 refl (omega arith)

abbrev message : String → ℕ → Message
message id sent_at = record {
  id = id;
  chat_id = "c";
  sender_id = "1";
  content = "hi";
  sent_at = sent_at;
  is_pending = true;
  is_read = true;
}

abbrev table : Messages
table = message "a" 1 ∷ message "b" 3 ∷ message "d" 2 ∷ []

pages_whole_example :
    IsNewestFirst (pages 2 "c" 2 0 table)
    × ((p : Message → Bool)
        → count p (pages 2 "c" 2 0 table) ≡ count (λ m. is_in "c" m && p m) table)
unfolding count str_eq
pages_whole_example = pages_whole 2 "c" 2 table (omega arith)

abbrev after : Messages
after = delivered "s" (message "a" 1) ∷ []

delivered_once_example :
    (count (has_id "s") after ≡ 1)
    × (◌≢◌ {A = String} "a" "s" → count (has_id "a") after ≡ 0)
    × ((m : Message) → m.id ≡ "s" → insert_message m after ≡ after)
unfolding insert_message any mark_message_delivered update str_eq
delivered_once_example = delivered_once (inserts (message "a" 1) ∷ []) "a" "s" after refl refl

-- A library that reads one token, and a server that answers with it.
abbrev reads_new : String → Option MessengerClaims
reads_new token =
    if str_eq token "new"
    then some (record {
      token_type = "access";
      subject = "1";
      issuer = "app";
      id = "";
      issued_at = 10;
      expires_at = 100;
    })
    else none

abbrev answers_new : Refresh
answers_new token = value ("new", "again")

abbrev expired : Credentials
expired = record {
  user_id = "1";
  access_token = "old";
  refresh_token = "first";
  access_token_exp = 5;
  issuer = "app";
  profile_client = true;
}

reads_new-expiry :
    (token : String) (claims : MessengerClaims)
    → reads_new token ≡ some claims
    → claims.expires_at ≡ 100
reads_new-expiry token claims e = elim (Bool-cases (str_eq token "new")) [
  | inl f ↦ sym (ap (λ c. c.expires_at) (some_inj (rw f at e)))
  | inr f ↦ absurd (cc (rw f at e))
]

reads_new-Lasting : Lasting reads_new answers_new (20 ∷ 21 ∷ 22 ∷ [])
reads_new-Lasting = record {
  no_empty = unfold str_eq in refl;
  outlasts = λ token access again claims e f. rw (reads_new-expiry access claims f) (omega arith);
}

refresh_all_once_example :
    length (refresh_all reads_new answers_new (20 ∷ 21 ∷ 22 ∷ []) expired).1 ≤ 1
refresh_all_once_example =
    refresh_all_once reads_new answers_new (20 ∷ 21 ∷ 22 ∷ []) expired reads_new-Lasting

abbrev typed : String → Key
typed text = record { name = text; text = text }

abbrev nine_keys : List Key
nine_keys =
    typed "1"
    ∷ typed "2"
    ∷ typed "3"
    ∷ typed "4"
    ∷ typed "5"
    ∷ typed "6"
    ∷ typed "7"
    ∷ typed "8"
    ∷ typed "9"
    ∷ typed "enter"
    ∷ typed "tab"
    ∷ typed "x"
    ∷ []

keys-IsFine_example : IsFine (Form.run nine_keys (new_create_chat false))
keys-IsFine_example = keys-IsFine false nine_keys

abbrev by_order : String → String → Bool
by_order s t = false

abbrev list_events : List Event
list_events =
    draws (insert_chat (some (group "c" "team")) new_session)
    ∷ gets new_session (key_press "j")
    ∷ draws new_session
    ∷ []

run-Drawn_example :
    (m : ChatsList) × (Rows.run by_order list_events new_chats_list ≡ ok m) × Drawn 80 24 m
run-Drawn_example = run-Drawn by_order list_events 80 24

abbrev empty_world : World
empty_world = record { view = new_messages_list; session = new_session; local_repo = [] }

nothing_left : (r : Outcome (World × List MessagesList.Cmd)) → Events.ThenTimely (AllTimely []) r
nothing_left (ok (w, cmds)) = tt
nothing_left panic = tt

run_fine_example :
    (w : World) × (Events.run
        (selects "c" ∷ incoming (message "a" 1) ∷ presses "enter" ∷ [])
        empty_world
      ≡ ok w)
    × OnMessage w
unfolding new_messages_list
run_fine_example =
    run_fine (selects "c" ∷ incoming (message "a" 1) ∷ presses "enter" ∷ []) empty_world
      (omega arith) (tt, (tt, (tt, nothing_left _)))

-- No answer, then an id.
abbrev second_time : ℕ → Answer
second_time n = if n == 0 then refused CallError.plain else answered "s"
