-- ===== src/Client/Storage/Pages.antt =====
-- The pages of a chat (GetMessagesByChatId of semestral/internal/client/storage/sqlite_repository.go).
use go_tasks.Prelude.{
  subst, Bool, true, ◌&&◌, Bool-cases, inl, inr, All, leb, str_eq, ℕ, zero, suc, ◌+◌, ◌*◌, ◌≤◌, ◌≡◌,
  refl, sym, ap, ◌∙◌, String, [], ◌∷◌, ◌++◌, arith, length,
}
use go_tasks.Prelude.Tables.{take, select, count}
use go_tasks.Client.Storage.{
  Message, Messages, skip, place_newest, newest_first, chat_messages, get_messages_by_chat_id,
}

-- The pages from an offset on, each asked for behind the one before.
abbrev pub pages : ℕ → String → ℕ → ℕ → Messages → Messages
pages zero chat limit offset table = []
pages (suc n) chat limit offset table =
    get_messages_by_chat_id chat limit offset table ++ pages n chat limit (offset + limit) table

take-skip : (n : ℕ) (ms : Messages) → take n ms ++ skip n ms ≡ ms
unfolding skip
take-skip zero ms = refl
take-skip (suc n) [] = refl
take-skip (suc n) (m ∷ ms) = ap (λ rest. m ∷ rest) (take-skip n ms)

skip_nil : (n : ℕ) → skip n [] ≡ []
unfolding skip
skip_nil zero = refl
skip_nil (suc n) = refl

skip-skip : (a b : ℕ) (ms : Messages) → skip b (skip a ms) ≡ skip (a + b) ms
unfolding skip
skip-skip zero b ms = ground arith
skip-skip (suc a) b [] = skip_nil b ∙ sym (skip_nil (suc a + b))
skip-skip (suc a) b (m ∷ ms) =
    let e : suc a + b ≡ suc (a + b) = omega arith in rw e (skip-skip a b ms)

skip_all : (n : ℕ) (ms : Messages) → length ms ≤ n → skip n ms ≡ []
unfolding skip
skip_all zero [] h = refl
skip_all zero (m ∷ ms) h = absurd (omega arith)
skip_all (suc n) [] h = refl
skip_all (suc n) (m ∷ ms) h = skip_all n ms (omega arith)

pages-skip :
    (n : ℕ) (chat : String) (limit offset : ℕ) (table : Messages)
    → length (chat_messages chat table) ≤ offset + n * limit
    → pages n chat limit offset table ≡ skip offset (chat_messages chat table)
unfolding get_messages_by_chat_id
pages-skip zero chat limit offset table h = sym (skip_all offset _ (omega arith))
pages-skip (suc n) chat limit offset table h =
    rw
      (
        pages-skip n chat limit (offset + limit) table (grind arith),
        ← skip-skip offset limit (chat_messages chat table),
      )
      (take-skip limit (skip offset (chat_messages chat table)))

-- Each message was sent no later than the one before it.
abbrev pub IsNewestFirst : Messages → Type 0
IsNewestFirst [] = Unit
IsNewestFirst (m ∷ ms) = All (λ n. n.sent_at ≤ m.sent_at) ms × IsNewestFirst ms

place_newest-All :
    (bound : ℕ) (m : Message) (ms : Messages)
    → m.sent_at ≤ bound
    → All (λ n. n.sent_at ≤ bound) ms
    → All (λ n. n.sent_at ≤ bound) (place_newest m ms)
unfolding place_newest
place_newest-All bound m [] h hs = (h, tt)
place_newest-All bound m (n ∷ ms) h (k, ks) = elim (Bool-cases (leb m.sent_at n.sent_at)) [
  | inl e ↦ rw e (k, place_newest-All bound m ms h ks)
  | inr e ↦ rw e (h, (k, ks))
]

below :
    (a b : ℕ) (ms : Messages) → a ≤ b → All (λ n. n.sent_at ≤ a) ms → All (λ n. n.sent_at ≤ b) ms
below a b [] h hs = tt
below a b (m ∷ ms) h (k, ks) = (omega (arith, h, k), below a b ms h ks)

place_newest-IsNewestFirst :
    (m : Message) (ms : Messages) → IsNewestFirst ms → IsNewestFirst (place_newest m ms)
unfolding place_newest
place_newest-IsNewestFirst m [] h = (tt, tt)
place_newest-IsNewestFirst m (n ∷ ms) (k, ks) = elim (Bool-cases (leb m.sent_at n.sent_at)) [
  | inl e ↦
      rw e
        (place_newest-All n.sent_at m ms (ground (arith, e)) k, place_newest-IsNewestFirst m ms ks)
  | inr e ↦ rw e ((ground (arith, e), below n.sent_at m.sent_at ms (ground (arith, e)) k), (k, ks))
]

newest_first-IsNewestFirst : (ms : Messages) → IsNewestFirst (newest_first ms)
unfolding newest_first
newest_first-IsNewestFirst [] = tt
newest_first-IsNewestFirst (m ∷ ms) =
    place_newest-IsNewestFirst m (newest_first ms) (newest_first-IsNewestFirst ms)

count-place_newest :
    (p : Message → Bool) (m : Message) (ms : Messages)
    → count p (place_newest m ms) ≡ count p (m ∷ ms)
unfolding place_newest count
count-place_newest p m [] = refl
count-place_newest p m (n ∷ ms) = ground (arith, count-place_newest p m ms)

count-newest_first : (p : Message → Bool) (ms : Messages) → count p (newest_first ms) ≡ count p ms
unfolding newest_first count
count-newest_first p [] = refl
count-newest_first p (m ∷ ms) =
    ground (arith, count-newest_first p ms, count-place_newest p m (newest_first ms))

abbrev pub is_in : String → Message → Bool
is_in chat m = str_eq m.chat_id chat

count-select :
    (p q : Message → Bool) (ms : Messages) → count p (select q ms) ≡ count (λ m. q m && p m) ms
unfolding count select
count-select p q [] = refl
count-select p q (m ∷ ms) = ground (arith, count-select p q ms)

count-chat_messages :
    (p : Message → Bool) (chat : String) (table : Messages)
    → count p (chat_messages chat table) ≡ count (λ m. is_in chat m && p m) table
count-chat_messages p chat table =
    count-newest_first p (select (is_in chat) table) ∙ count-select p (is_in chat) table

length-count : (ms : Messages) → length ms ≡ count (λ m. true) ms
unfolding count
length-count [] = refl
length-count (m ∷ ms) = ap suc (length-count ms)

count_and_true : (q : Message → Bool) (ms : Messages) → count (λ m. q m && true) ms ≡ count q ms
unfolding count
count_and_true q [] = refl
count_and_true q (m ∷ ms) = ground (arith, count_and_true q ms)

-- The pages of a chat, each asked for at the offset where the one before ended, are together its
-- messages, newest first, if they are enough for the messages of the chat in the table: of every kind
-- of message they hold as many as the table holds of that kind in that chat.
pub pages_whole :
    (n : ℕ) (chat : String) (limit : ℕ) (table : Messages)
    → count (is_in chat) table ≤ n * limit
    → IsNewestFirst (pages n chat limit 0 table)
      × ((p : Message → Bool)
          → count p (pages n chat limit 0 table) ≡ count (λ m. is_in chat m && p m) table)
pages_whole n chat limit table h =
    let whole : pages n chat limit 0 table ≡ chat_messages chat table =
      unfold skip in
      pages-skip n chat limit 0 table (
        omega (
          arith,
          h,
          length-count (chat_messages chat table),
          count-chat_messages (λ m. true) chat table,
          count_and_true (is_in chat) table,
        )) in
    (
      subst IsNewestFirst (sym whole) (newest_first-IsNewestFirst (select (is_in chat) table)),
      λ p. ap (count p) whole ∙ count-chat_messages p chat table,
    )
