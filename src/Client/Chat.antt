-- ===== src/Client/Chat.antt =====
-- semestral/internal/client/tui/models/chat_model.go: the screen of the open chat, without its
-- drawing. A command that it returns is a value; Commands runs the ones of the stream.
pub mod Keys
pub mod Commands
pub mod Reconnecting
pub mod Engagement
mod Examples
use go_tasks.Prelude.{
  ℕ, ◌+◌, String, Bool, true, false, not, Option, none, some, List, [], ◌∷◌, ◌++◌, map, leb,
  if◌then◌else◌,
}
use go_tasks.Prelude.Int.{ℤ}
use go_tasks.Prelude.Outcome.{Outcome, ok, panic, Err}
use go_tasks.Client.Storage.{Message}
use go_tasks.Client.Requests.{CallError, is_retriable, calculate_backoff}
use go_tasks.Client.ChatList
use go_tasks.Client.ChatList.{ChatsList, incoming_message}
use go_tasks.Client.MessagesList
use go_tasks.Client.MessagesList.{World, send_to_server, on_chat_selected, on_incoming_message}
use go_tasks.Client.MessagesList.Events.{Event, handle}
use go_tasks.Client.MessagesInput.{MessagesInput}

-- The sections that can be engaged; the profile is none of them.
pub data Section : Type 0 where
  chats messages input : Section

-- `subscribed` counts the contexts that were made: each has its number. The stream that is read is
-- known by its context.
pub record Screen (I : Type 0) : Type 0 where
  pub world : World
  pub chats_list : ChatsList
  pub message_input : MessagesInput I
  pub chat_id : String
  pub focused_area : ℕ
  pub is_engaged : Bool
  pub active_model : Option Section
  pub stream_retry_count : ℕ
  pub subscribed : ℕ
  pub cancel_stream : Option ℕ
  pub cancelled : List ℕ
  pub message_stream : Option ℕ

unfoldable pub new_screen : {I : Type 0} → World → ChatsList → MessagesInput I → Screen I
new_screen world chats_list message_input = record {
  world = world;
  chats_list = chats_list;
  message_input = message_input;
  chat_id = "";
  focused_area = 0;
  is_engaged = false;
  active_model = none;
  stream_retry_count = 0;
  subscribed = 0;
  cancel_stream = none;
  cancelled = [];
  message_stream = none;
}

-- The error of a fatal message.
pub data Reason : Type 0 where
  subscription_failed ack_failed : CallError → Reason
  max_reconnect_attempts no_chat_selected : Reason
  save_failed : Err → Reason

pub data NetworkMsg : Type 0 where
  subscription_started : NetworkMsg
  incoming : Message → NetworkMsg
  subscription_error : CallError → NetworkMsg
  retry_ack : String → ℕ → NetworkMsg
  ack_success : String → NetworkMsg
  reconnect : ℕ → NetworkMsg
  chat_selected : String → NetworkMsg
  message_selected : String → NetworkMsg
  profile_updated : Bool → NetworkMsg
  trigger_delivery : Message → ℕ → NetworkMsg
  forwarded : Event → NetworkMsg
  fatal : Reason → NetworkMsg

-- `reconnect_now` reads the count of retries when it runs.
pub data Cmd : Type 0 where
  subscribe : ℤ → Cmd
  recv_message : Cmd
  reconnect_now : Cmd
  ack_message : String → ℕ → Cmd
  raise : NetworkMsg → Cmd
  of_chats : ChatList.Cmd → Cmd
  of_messages : MessagesList.Cmd → Cmd
  submit : String → Cmd
  focus_input : Cmd

pub data Target : Type 0 where
  error_screen : Reason → Target
  profile_screen : String → Target
  create_chat : Bool → Target
  invite_user leave_chat chat_info : String → Target
  message_acks : String → Target

-- The screen goes on, or another one opens over it, or an index is out of range.
pub data Next (I : Type 0) : Type 0 where
  stays : Screen I → List Cmd → Next I
  opens : Target → Screen I → Next I
  panics : Next I

abbrev pub max_reconnects : ℕ
max_reconnects = 5

unfoldable pub on_subscription_error : {I : Type 0} → CallError → Screen I → Next I
unfolding is_retriable
on_subscription_error err s =
    if is_retriable err
    then stays s (reconnect_now ∷ [])
    else stays s (raise (fatal (subscription_failed err)) ∷ [])

unfoldable pub on_reconnect : {I : Type 0} → ℕ → Screen I → Next I
unfolding calculate_backoff
on_reconnect retry_count s =
    if leb max_reconnects retry_count
    then stays s (raise (fatal max_reconnect_attempts) ∷ [])
    else stays (record s { stream_retry_count = s.stream_retry_count + 1 })
        (subscribe (calculate_backoff retry_count) ∷ [])

abbrev pub with_context : Option ℕ → List ℕ → List ℕ
with_context none cancelled = cancelled
with_context (some ctx) cancelled = ctx ∷ cancelled

-- The context that is live is cancelled; the reader of its stream is left alone.
unfoldable pub cancel : {I : Type 0} → Screen I → Screen I
cancel s = record s { cancelled = with_context s.cancel_stream s.cancelled }

unfoldable pub on_profile_updated : {I : Type 0} → Bool → Screen I → Next I
unfolding cancel
on_profile_updated reconnect_required s =
    if reconnect_required
    then stays (record (cancel s) { stream_retry_count = 0 }) []
    else stays s []

-- The lists take the message, in this order; then it is acked and the next one is read.
unfoldable pub handle_incoming_message : {I : Type 0} → Message → Screen I → Next I
unfolding ChatList.update on_incoming_message
handle_incoming_message m s =
    elim (ChatList.update s.world.session (incoming_message m.chat_id) s.chats_list) [
      | panic ↦ panics
      | ok (chats_list, cmd) ↦
          let (world, cmds) = on_incoming_message m s.world in
          stays (record s { chats_list = chats_list; world = world })
            (of_chats cmd ∷ map of_messages cmds ++ ack_message m.id 0 ∷ recv_message ∷ [])
    ]

-- A message for the list of messages.
forward : {I : Type 0} → Event → Screen I → Next I
forward event s = elim (handle event s.world) [
  | panic ↦ panics
  | ok (world, cmds) ↦ stays (record s { world = world }) (map of_messages cmds)
]

-- `handleNetworkAndSelections`, and the error that `Update` takes before.
unfoldable pub on_network : {I : Type 0} → NetworkMsg → Screen I → Next I
unfolding on_subscription_error on_reconnect on_profile_updated handle_incoming_message
    on_chat_selected forward
on_network (fatal err) s = opens (error_screen err) s
on_network subscription_started s = stays (record s { stream_retry_count = 0 }) (recv_message ∷ [])
on_network (incoming m) s = handle_incoming_message m s
on_network (subscription_error err) s = on_subscription_error err s
on_network (retry_ack id retry_count) s = stays s (ack_message id retry_count ∷ [])
on_network (ack_success id) s = stays s []
on_network (reconnect retry_count) s = on_reconnect retry_count s
on_network (chat_selected chat) s =
    let (world, cmds) = on_chat_selected chat s.world in
    stays (record s { chat_id = chat; world = world }) (map of_messages cmds)
on_network (message_selected id) s = opens (message_acks id) s
on_network (profile_updated reconnect_required) s = on_profile_updated reconnect_required s
on_network (trigger_delivery m retry_count) s =
    stays s (of_messages (send_to_server m retry_count) ∷ [])
on_network (forwarded event) s = forward event s
