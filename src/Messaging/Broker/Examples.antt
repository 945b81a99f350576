-- ===== src/Messaging/Broker/Examples.antt =====
-- Runs of the broker (semestral/internal/messaging/broker.go) on concrete input.
use go_tasks.Prelude.{
  ◌≡◌, ◌≤◌, String, Bool, true, false, is_some, List, [], ◌∷◌, ◌++◌, length, none,
}
use go_tasks.Prelude.Maps.{lookup}
use go_tasks.Prelude.Outcome.{ok}
use go_tasks.Messaging.Database.{Message, MessageAck}
use go_tasks.Messaging.Broker.{
  Broker, new_broker, new_user_session, sessions_of, subscribe, publish,
}
use go_tasks.Messaging.Broker.Session
use go_tasks.Messaging.Broker.Session.{
  Live, SessionOp, offers, receives, closes, offered, run-new_user_session,
}
use go_tasks.Messaging.Broker.Registry
use go_tasks.Messaging.Broker.Registry.{
  Op, subscribes, unsubscribes, expected, is_cons, sessions_of-run,
}
use go_tasks.Messaging.Broker.Publishing.{
  IsSound, AllServed, publish-Served, new_broker-IsSound, subscribe-IsSound,
}

abbrev hello : Message
hello = record {
  id = "m1";
  chat_id = "c1";
  sender_id = "ann";
  content = 104 ∷ 105 ∷ [];
  sent_at = 10;
}

abbrev life : List SessionOp
life = offers true hello ∷ receives ∷ closes ∷ offers false hello ∷ closes ∷ []

run-new_user_session_example :
    (l : Live) × (Session.run life (new_user_session "s1", []) ≡ ok l)
    × (length l.0.message_chan ≤ 30)
    × (l.0.done ≡ false → l.1 ++ l.0.message_chan ≡ offered life)
run-new_user_session_example = run-new_user_session life "s1"

abbrev registrations : List Op
registrations = subscribes "bob" "s1" ∷ subscribes "bob" "s2" ∷ unsubscribes "bob" "s1" ∷ []

sessions_of-run_example :
    (sessions_of "bob" (Registry.run registrations new_broker) ≡ expected "bob" registrations [])
    × (is_some (lookup "bob" (Registry.run registrations new_broker).sessions)
        ≡ is_cons (expected "bob" registrations []))
sessions_of-run_example = sessions_of-run "bob" registrations

-- Bob is connected twice.
abbrev connected : Broker
connected = subscribe "bob" "s2" (subscribe "bob" "s1" new_broker)

connected-IsSound : IsSound connected
connected-IsSound =
    subscribe-IsSound "bob" "s2" (subscribe "bob" "s1" new_broker)
      (subscribe-IsSound "bob" "s1" new_broker new_broker-IsSound)

abbrev for_bob : List MessageAck
for_bob =
    record {
      chat_id = "c1";
      message_id = "m1";
      user_id = "bob";
      delivered_at = none;
      read_at = none;
    }
    ∷ []

abbrev first_case : String → Bool
first_case id = false

publish-Served_example :
    (b' : Broker) × (publish first_case hello for_bob connected ≡ ok b')
    × IsSound b'
    × AllServed first_case hello for_bob connected b'
publish-Served_example = publish-Served first_case hello for_bob connected connected-IsSound
