-- ===== src/Client/MessagesList.antt =====
-- semestral/internal/client/tui/models/messages_list_model.go: the messages of the open chat, without
-- their drawing. `Update` also changes the session and the local table, so these are part of the
-- state. A command that it returns is a value.
pub mod Events
pub mod Keys
pub mod Commands
pub mod Cursor
pub mod Delivery
use go_tasks.Prelude.{
  ℕ, zero, suc, ◌+◌, ◌-◌, String, Bool, true, false, ◌&&◌, ◌||◌, not, Option, none, some, List, [],
  ◌∷◌, ◌++◌, ltb, leb, ◌==◌, length, str_eq, if◌then◌else◌,
}
use go_tasks.Prelude.Outcome.{Outcome, ok, panic, Failable, value, failure, Err}
use go_tasks.Client.Session.{Session, reset_unread, increment_unread}
use go_tasks.Client.Storage
use go_tasks.Client.Storage.{Message, Messages, insert_message, mark_message_delivered, one_of}
use go_tasks.Client.Requests.{CallError, is_retriable}

pub record MessagesList : Type 0 where
  pub chat_id : String
  pub engaged : Bool
  pub sending : List String
  pub messages : List Message
  pub cursor : ℕ
  pub is_loading : Bool
  pub has_more : Bool

abbrev pub limit : ℕ
limit = 25

unfoldable pub new_messages_list : MessagesList
new_messages_list = record {
  chat_id = "";
  engaged = false;
  sending = [];
  messages = [];
  cursor = 0;
  is_loading = false;
  has_more = true;
}

-- The model with the session and the local table that it works on.
pub record World : Type 0 where
  pub view : MessagesList
  pub session : Session
  pub local_repo : Messages

pub data Cmd : Type 0 where
  load_messages : String → ℕ → Cmd
  mark_messages_read : List String → Cmd
  send_to_server : Message → ℕ → Cmd
  retry_later : Message → ℕ → Cmd
  select_message : String → Cmd
  update_counts : Cmd
  handle_error : Err → Cmd

-- `ChatSelectedMsg`
unfoldable pub on_chat_selected : String → World → World × List Cmd
on_chat_selected chat w = (
  record w {
    view = record (w.view) {
      chat_id = chat;
      messages = [];
      cursor = 0;
      has_more = true;
      is_loading = true;
    };
  },
  load_messages chat 0 ∷ [],
)

abbrev pub reverse : List Message → List Message
reverse [] = []
reverse (m ∷ ms) = reverse ms ++ m ∷ []

-- The page is put in, older messages above.
unfoldable pub put_page : List Message → Bool → Bool → MessagesList → MessagesList
put_page page is_append has_more v =
    let normalized = reverse page in
    if is_append
    then record v {
      messages = normalized ++ v.messages;
      cursor = v.cursor + length normalized;
      has_more = has_more;
      is_loading = false;
    }
    else record v {
      messages = normalized;
      cursor = length normalized - 1;
      has_more = has_more;
      is_loading = false;
    }

abbrev is_unread : String → Message → Bool
is_unread user m = not (str_eq m.sender_id user) && not m.is_read

unfoldable pub unread_ids : String → List Message → List String
unread_ids user [] = []
unread_ids user (m ∷ ms) =
    if is_unread user m then m.id ∷ unread_ids user ms else unread_ids user ms

unfoldable pub set_read : String → List Message → List Message
set_read user [] = []
set_read user (m ∷ ms) =
    (if is_unread user m then record m { is_read = true } else m) ∷ set_read user ms

abbrev pub is_empty : List String → Bool
is_empty [] = true
is_empty (x ∷ xs) = false

-- What was loaded is read, unless the session is invisible.
unfoldable pub read_loaded : World → World × List Cmd
unfolding unread_ids set_read reset_unread
read_loaded w =
    let ids = unread_ids w.session.user_id w.view.messages in
    if w.session.is_invisible
    then (w, [])
    else (if is_empty ids then (w, []) else (
      record w {
        view = record (w.view) { messages = set_read w.session.user_id w.view.messages };
        session = reset_unread w.view.chat_id w.session;
      },
      mark_messages_read ids ∷ [],
    ))

-- The pending messages that are not being sent, which are sent now.
unfoldable pub send_pending : List Message → List String → List String × List Cmd
unfolding one_of
send_pending [] sending = (sending, [])
send_pending (m ∷ ms) sending =
    if m.is_pending && not (one_of sending m.id)
    then (let (later, cmds) = send_pending ms (m.id ∷ sending) in
        (later, send_to_server m 0 ∷ cmds))
    else send_pending ms sending

-- `MessagesLoadedMsg`
unfoldable pub on_messages_loaded : String → List Message → Bool → Bool → World → World × List Cmd
unfolding put_page read_loaded send_pending
on_messages_loaded chat page is_append has_more w =
    if str_eq w.view.chat_id chat
    then (let w1 = record w { view = put_page page is_append has_more w.view } in
        let (w2, read_cmds) = read_loaded w1 in
        let (sending, send_cmds) = send_pending w2.view.messages w2.view.sending in
        (record w2 { view = record (w2.view) { sending = sending } }, read_cmds ++ send_cmds))
    else (w, [])

-- A message at the end; the cursor follows if it was on the last one.
unfoldable pub append_message : Message → MessagesList → MessagesList
append_message m v =
    let messages = v.messages ++ m ∷ [] in
    record v {
      messages = messages;
      cursor = if v.cursor + 2 == length messages then v.cursor + 1 else v.cursor;
    }

-- `IncomingMessageMsg`
unfoldable pub on_incoming_message : Message → World → World × List Cmd
unfolding append_message increment_unread
on_incoming_message m w =
    let is_current = str_eq m.chat_id w.view.chat_id in
    let w1 = record w { view = if is_current then append_message m w.view else w.view } in
    if str_eq m.sender_id w.session.user_id
    then (w, [])
    else (if is_current && not w.session.is_invisible
        then (w1, mark_messages_read (m.id ∷ []) ∷ [])
        else (record w1 { session = increment_unread m.chat_id w.session }, update_counts ∷ []))

-- `MessageInputSubmittedMsg`; the UUID, the time, and a fault of the local table are arguments.
unfoldable pub on_submitted : String → ℕ → Option Err → String → World → World × List Cmd
unfolding append_message insert_message
on_submitted uuid now fault text w =
    let m : Message = record {
      id = uuid;
      chat_id = w.view.chat_id;
      sender_id = w.session.user_id;
      content = text;
      sent_at = now;
      is_pending = true;
      is_read = true;
    } in
    let v = append_message m w.view in
    if str_eq w.view.chat_id "" then (w, []) else elim fault [
      | some err ↦ (w, handle_error err ∷ [])
      | none ↦ (
        record w {
          view = record v { sending = m.id ∷ v.sending };
          local_repo = insert_message m w.local_repo;
        },
        send_to_server m 0 ∷ [],
      )
    ]

unfoldable pub remove_id : String → List String → List String
remove_id id [] = []
remove_id id (x ∷ xs) = if str_eq x id then remove_id id xs else x ∷ remove_id id xs

-- The first message of the id gets that of the server.
unfoldable pub deliver_first : String → String → List Message → List Message
deliver_first local server [] = []
deliver_first local server (m ∷ ms) =
    if str_eq m.id local
    then record m { is_pending = false; id = server } ∷ ms
    else m ∷ deliver_first local server ms

abbrev pub or_same : Messages → Failable Messages → Messages
or_same table (value table') = table'
or_same table (failure e) = table

-- `DeliverySuccessMsg`; an error of the local table is ignored.
unfoldable pub on_delivery_success : String → String → World → World × List Cmd
unfolding remove_id deliver_first mark_message_delivered
on_delivery_success local server w = (
  record w {
    view = record (w.view) {
      sending = remove_id local w.view.sending;
      messages = deliver_first local server w.view.messages;
    };
    local_repo = or_same w.local_repo (mark_message_delivered local server w.local_repo);
  },
  [],
)

abbrev pub max_retries : ℕ
max_retries = 5

-- `DeliveryRetryMsg`
unfoldable pub on_delivery_retry : Message → ℕ → World → World × List Cmd
unfolding remove_id
on_delivery_retry m retry_count w =
    if leb max_retries retry_count
    then (
      record w { view = record (w.view) { sending = remove_id m.id w.view.sending } },
      handle_error "failed to send message after 5 attempts" ∷ [],
    )
    else (w, retry_later m (retry_count + 1) ∷ [])
