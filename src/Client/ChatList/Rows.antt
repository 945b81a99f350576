-- ===== src/Client/ChatList/Rows.antt =====
-- The cursor of the list of chats and what is drawn of it
-- (semestral/internal/client/tui/models/chat_list_model.go).
use go_tasks.Prelude.Text.{concat}
use go_tasks.Prelude.{
  ◌==◌, ◌∙◌, sym, if◌then◌else◌, Option, none, some, true, false, ℕ, zero, suc, ◌+◌, ◌-◌, ◌≤◌, ◌<◌,
  ◌≡◌, refl, ap, String, Bool, ◌||◌, List, [], ◌∷◌, is_some, length, str_eq, arith, Bool-cases, inl,
  inr,
}
use go_tasks.Prelude.Outcome.{Outcome, ok, ok_inj, panic}
use go_tasks.Prelude.Tables.{take}
use go_tasks.Client.Session.{Session, get_chat}
use go_tasks.Client.ChatList.{
  ChatRow, ChatsList, ListMsg, Cmd, chat_info_pulled, incoming_message, key_press, new_chats_list,
  refresh_rows, update, row_at, on_key, on_enter, select_row, clamp, same_version, window_start,
  at_least_one, content_lines, drop_rows, row_lines, row_label, truncate,
}

-- The cursor is on a row, or at the start where there is none.
abbrev pub OnRow : ChatsList → Type 0
OnRow m = m.cursor ≤ length m.rows - 1

-- A result with the cursor on a row.
abbrev pub IsFine : Outcome (ChatsList × Cmd) → Type 0
IsFine (ok (m, cmd)) = OnRow m
IsFine panic = ⊥

row_at-ok : (i : ℕ) (rows : List ChatRow) → i < length rows → (r : ChatRow) × (row_at i rows ≡ ok r)
unfolding row_at
row_at-ok i [] h = absurd (omega arith)
row_at-ok zero (r ∷ rest) h = (r, refl)
row_at-ok (suc i) (r ∷ rest) h = row_at-ok i rest (omega arith)

select_row-IsFine :
    (rows : List ChatRow) (m : ChatsList)
    → m.cursor ≤ length rows - 1
    → OnRow m
    → IsFine (select_row rows m)
unfolding select_row
select_row-IsFine [] m c h = h
select_row-IsFine (r ∷ rest) m c h =
    let (selected, e) = row_at-ok m.cursor (r ∷ rest) (omega arith) in rw (select_row, e) h

on_key-IsFine : (key : String) (m : ChatsList) → OnRow m → IsFine (on_key key m)
unfolding on_key on_enter
on_key-IsFine key m h = elim (Bool-cases (str_eq key "j" || str_eq key "down")) [
  | inl e ↦ rw e (ground (arith, h))
  | inr e ↦ elim (Bool-cases (str_eq key "k" || str_eq key "up")) [
    | inl f ↦ rw (e, f) (omega (arith, h))
    | inr f ↦ elim (Bool-cases (str_eq key "enter")) [
      | inl g ↦ rw (e, f, g) (select_row-IsFine m.rows m h h)
      | inr g ↦ rw (e, f, g) h
    ]
  ]
]

update-IsFine : (s : Session) (msg : ListMsg) (m : ChatsList) → OnRow m → IsFine (update s msg m)
unfolding update
update-IsFine s (chat_info_pulled chat) m h = h
update-IsFine s (incoming_message chat) m h = elim (Bool-cases (is_some (get_chat chat s))) [
  | inl e ↦ rw e h
  | inr e ↦ rw e h
]
update-IsFine s (key_press key) m h = on_key-IsFine key m h

clamp-le : (cursor count : ℕ) → clamp cursor count ≤ count - 1
clamp-le cursor count = ground arith

-- The list is drawn from a session, or it gets a message.
pub data Event : Type 0 where
  draws : Session → Event
  gets : Session → ListMsg → Event

abbrev pub go_on : (ChatsList → Outcome ChatsList) → Outcome (ChatsList × Cmd) → Outcome ChatsList
go_on later (ok (m, cmd)) = later m
go_on later panic = panic

-- A list that is on a row.
abbrev Ends : Outcome ChatsList → Type 0
Ends (ok m) = OnRow m
Ends panic = ⊥

go_on-Ends :
    (later : ChatsList → Outcome ChatsList) (r : Outcome (ChatsList × Cmd))
    → ((m : ChatsList) → OnRow m → Ends (later m))
    → IsFine r
    → Ends (go_on later r)
go_on-Ends later (ok (m, cmd)) h f = h m f
go_on-Ends later panic h f = f

module _ (less : String → String → Bool) where
  refresh_rows-OnRow : (s : Session) (m : ChatsList) → OnRow m → OnRow (refresh_rows less s m)
  unfolding refresh_rows
  refresh_rows-OnRow s m h = elim (Bool-cases (same_version m.last_version s.session_version)) [
    | inl e ↦ rw e h
    | inr e ↦ rw e (clamp-le m.cursor _)
  ]

  abbrev pub run : List Event → ChatsList → Outcome ChatsList
  run [] m = ok m
  run (draws s ∷ events) m = run events (refresh_rows less s m)
  run (gets s msg ∷ events) m = go_on (run events) (update s msg m)

  run-Ends : (events : List Event) (m : ChatsList) → OnRow m → Ends (run events m)
  run-Ends [] m h = h
  run-Ends (draws s ∷ events) m h = run-Ends events _ (refresh_rows-OnRow s m h)
  run-Ends (gets s msg ∷ events) m h =
      go_on-Ends (run events) (update s msg m) (run-Ends events) (update-IsFine s msg m h)

window_start-le :
    (cursor visible : ℕ)
    → 1 ≤ visible
    → (window_start cursor visible ≤ cursor) × (cursor < window_start cursor visible + visible)
window_start-le cursor visible h = ground arith

length-take : (n : ℕ) (rows : List ChatRow) → length (take n rows) ≤ n
length-take zero rows = omega arith
length-take (suc n) [] = omega arith
length-take (suc n) (r ∷ rows) = omega (arith, length-take n rows)

length-row_lines :
    (engaged : Bool) (cursor width i : ℕ) (rows : List ChatRow)
    → length (row_lines engaged cursor width i rows) ≡ length rows
unfolding row_lines
length-row_lines engaged cursor width i [] = refl
length-row_lines engaged cursor width i (r ∷ rows) =
    ap suc (length-row_lines engaged cursor width (i + 1) rows)

length-content_lines :
    (width height : ℕ) (m : ChatsList)
    → length (content_lines width height m) ≤ at_least_one (height - 2)
unfolding content_lines
length-content_lines width height m =
    rw
      (length-row_lines m.engaged m.cursor (at_least_one (width - 6))
        (window_start m.cursor (at_least_one (height - 2)))
        (take (at_least_one (height - 2))
          (drop_rows (window_start m.cursor (at_least_one (height - 2))) m.rows)))
      (length-take (at_least_one (height - 2))
        (drop_rows (window_start m.cursor (at_least_one (height - 2))) m.rows))

-- The line at an index.
abbrev pub line_at : ℕ → List String → Option String
line_at i [] = none
line_at zero (l ∷ ls) = some l
line_at (suc i) (l ∷ ls) = line_at i ls

-- The line of a row that the cursor is on.
abbrev pub cursor_line : Bool → ℕ → ChatRow → String
cursor_line engaged width r =
    concat (if engaged then "> " else "  ")
      (truncate (row_label r) (at_least_one (at_least_one (width - 6) - 2)))

row_at-take : (i n : ℕ) (rows : List ChatRow) → i < n → row_at i (take n rows) ≡ row_at i rows
unfolding row_at
row_at-take i zero rows h = absurd (omega arith)
row_at-take i (suc n) [] h = refl
row_at-take zero (suc n) (r ∷ rows) h = refl
row_at-take (suc i) (suc n) (r ∷ rows) h = row_at-take i n rows (omega arith)

row_at-drop_rows :
    (s i : ℕ) (rows : List ChatRow) → row_at i (drop_rows s rows) ≡ row_at (s + i) rows
unfolding row_at drop_rows
row_at-drop_rows zero i rows = ap (λ k. row_at k rows) (omega arith)
row_at-drop_rows (suc s) i [] = refl
row_at-drop_rows (suc s) i (r ∷ rows) =
    let e : suc s + i ≡ suc (s + i) = omega arith in rw e (row_at-drop_rows s i rows)

line_at-row_lines :
    (engaged : Bool) (cursor width first i : ℕ) (rows : List ChatRow) (r : ChatRow)
    → row_at i rows ≡ ok r
    → cursor ≡ first + i
    → line_at i (row_lines engaged cursor width first rows)
      ≡ some (
          concat
            (if engaged then "> " else "  ")
            (truncate (row_label r) (at_least_one (width - 2))))
unfolding row_at row_lines
line_at-row_lines engaged cursor width first i [] r h e = absurd (cc h)
line_at-row_lines true cursor width first zero (x ∷ rows) r h e =
    let same : (first == cursor) ≡ true = ground (arith, e) in
    rw same
      (ap (λ q. some (concat "> " (truncate (row_label q) (at_least_one (width - 2))))) (ok_inj h))
line_at-row_lines false cursor width first zero (x ∷ rows) r h e =
    ap (λ q. some (concat "  " (truncate (row_label q) (at_least_one (width - 2))))) (ok_inj h)
line_at-row_lines engaged cursor width first (suc i) (x ∷ rows) r h e =
    line_at-row_lines engaged cursor width (first + 1) i rows r h (omega arith)

cursor_drawn :
    (width height : ℕ) (m : ChatsList) (r : ChatRow)
    → row_at m.cursor m.rows ≡ ok r
    → (i : ℕ) × (line_at i (content_lines width height m) ≡ some (cursor_line m.engaged width r))
unfolding content_lines
cursor_drawn width height m r h =
    let visible = at_least_one (height - 2) in
    let start = window_start m.cursor visible in
    let (from, to) = window_start-le m.cursor visible (ground arith) in
    let e : start + (m.cursor - start) ≡ m.cursor = omega (arith, from) in
    (
      m.cursor - start,
      line_at-row_lines m.engaged m.cursor (at_least_one (width - 6)) start (m.cursor - start)
          (take visible (drop_rows start m.rows)) r
          (row_at-take (m.cursor - start) visible (drop_rows start m.rows) (omega (arith, from, to))
            ∙ row_at-drop_rows start (m.cursor - start) m.rows
            ∙ ap (λ k. row_at k m.rows) e
            ∙ h)
          (sym e),
    )

-- What holds of a list that is drawn in a frame of this size.
pub record Drawn (width height : ℕ) (m : ChatsList) : Type 0 where
  pub on_row : OnRow m
  pub fits : length (content_lines width height m) ≤ at_least_one (height - 2)
  pub shows_cursor :
      (r : ChatRow)
      → row_at m.cursor m.rows ≡ ok r
      → (i : ℕ) × (line_at i (content_lines width height m) ≡ some (cursor_line m.engaged width r))

-- However the session changes between the drawings and the keys, no index of a row is out of range,
-- the cursor stays on a row, the lines that are drawn fit into the frame, and the line of the row that
-- the cursor is on is among them, marked if the list is engaged.
pub run-Drawn :
    (less : String → String → Bool) (events : List Event) (width height : ℕ)
    → (m : ChatsList) × (run less events new_chats_list ≡ ok m) × Drawn width height m
run-Drawn less events width height =
    let (m, e, h) =
      settled (run less events new_chats_list)
        (run-Ends less events new_chats_list (unfold new_chats_list in omega arith)) in
    (
      m,
      e,
      record {
        on_row = h;
        fits = length-content_lines width height m;
        shows_cursor = cursor_drawn width height m;
      },
    )
  where
    settled : (r : Outcome ChatsList) → Ends r → (m : ChatsList) × (r ≡ ok m) × OnRow m
    settled (ok m) h = (m, refl, h)
    settled panic h = absurd h
