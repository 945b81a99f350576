-- ===== src/Client/Storage.antt =====
-- semestral/internal/client/storage: the local message table, with one function for each statement.
-- The order of messages that were sent at one time is open in SQL; here the one stored last is first.
pub mod Pages
pub mod Ids
use go_tasks.Prelude.{
  ℕ, zero, suc, String, Bool, true, false, ◌&&◌, not, List, [], ◌∷◌, ◌++◌, leb, str_eq,
  if◌then◌else◌,
}
use go_tasks.Prelude.Tables.{select, any, update, take}
use go_tasks.Prelude.Outcome.{Failable, value, failure}

pub record Message : Type 0 where
  pub id : String
  pub chat_id : String
  pub sender_id : String
  pub content : String
  pub sent_at : ℕ
  pub is_pending : Bool
  pub is_read : Bool

abbrev pub Messages : Type 0
Messages = List Message

abbrev pub has_id : String → Message → Bool
has_id id m = str_eq m.id id

-- INSERT OR IGNORE with the id as the primary key.
unfoldable pub insert_message : Message → Messages → Messages
unfolding any
insert_message m table = if any (has_id m.id) table then table else table ++ m ∷ []

unfoldable pub place_newest : Message → Messages → Messages
place_newest m [] = m ∷ []
place_newest m (n ∷ rest) =
    if leb m.sent_at n.sent_at then n ∷ place_newest m rest else m ∷ n ∷ rest

-- ORDER BY sent_at DESC
unfoldable pub newest_first : Messages → Messages
unfolding place_newest
newest_first [] = []
newest_first (m ∷ rest) = place_newest m (newest_first rest)

unfoldable pub skip : ℕ → Messages → Messages
skip zero ms = ms
skip (suc n) [] = []
skip (suc n) (m ∷ ms) = skip n ms

abbrev pub chat_messages : String → Messages → Messages
chat_messages chat table = newest_first (select (λ m. str_eq m.chat_id chat) table)

unfoldable pub get_messages_by_chat_id : String → ℕ → ℕ → Messages → Messages
unfolding newest_first skip select
get_messages_by_chat_id chat limit offset table =
    take limit (skip offset (chat_messages chat table))

abbrev pub delivered : String → Message → Message
delivered server m = record m { id = server; is_pending = false }

-- The primary key refuses an id that another row has.
unfoldable pub mark_message_delivered : String → String → Messages → Failable Messages
unfolding any update
mark_message_delivered local server table =
    if any (has_id local) table && any (has_id server) table && not (str_eq local server)
    then failure "UNIQUE constraint failed"
    else value (update (has_id local) (delivered server) table)

-- Whether the text is in the list.
unfoldable pub one_of : List String → String → Bool
one_of [] id = false
one_of (x ∷ xs) id = if str_eq x id then true else one_of xs id

unfoldable pub mark_messages_read : List String → Messages → Messages
unfolding update one_of
mark_messages_read [] table = table
mark_messages_read (id ∷ ids) table =
    update (λ m. one_of (id ∷ ids) m.id) (λ m. record m { is_read = true }) table
