-- ===== src/Client/CreateChat/Form.antt =====
-- What holds of the form for a new chat after any keys
-- (semestral/internal/client/tui/models/create_chat_submodel.go).
use go_tasks.Prelude.{
  ℕ, zero, suc, ◌-◌, ◌≤◌, ◌<◌, ◌≡◌, String, Bool, false, ◌&&◌, ◌||◌, not, List, [], ◌∷◌, ltb, leb,
  ◌==◌, length, length-append, str_eq, if◌then◌else◌, arith, Bool-cases, inl, inr,
}
use go_tasks.Prelude.Text.{byte_length, is_nil, trim_space, char_count}
use go_tasks.Client.CreateChat.{
  CreateChat, new_create_chat, Next, stays, returns, submits, fails, panics, Key, update_key,
  next_focus, on_field, on_group_name, on_member_input, on_enter, on_members_list, remove_member,
  remove_at, is_digit, is_group_name_focused, is_member_input_focused, is_members_list_focused,
}

-- The cursor is on a member, or at the start where there is none; the focus is on a field; a direct
-- chat has at most one member.
pub record Valid (m : CreateChat) : Type 0 where
  pub on_member : m.cursor ≤ length m.user_ids - 1
  pub on_field : m.focus_index < (if m.is_group then 3 else 2)
  pub one_recipient : m.is_group ≡ false → length m.user_ids ≤ 1

-- What may come next.
abbrev pub IsFine : Next → Type 0
IsFine (stays m) = Valid m
IsFine returns = Unit
IsFine (submits m) = Valid m × (1 ≤ length m.user_ids)
IsFine (fails e m) = Valid m
IsFine panics = ⊥

length-remove_at :
    (i : ℕ) (xs : List String) → i < length xs → length (remove_at i xs) ≡ length xs - 1
unfolding remove_at
length-remove_at i [] h = omega arith
length-remove_at zero (x ∷ xs) h = omega arith
length-remove_at (suc i) (x ∷ xs) h = omega (arith, length-remove_at i xs (omega arith))

below_limit :
    (empty : Bool) (focus limit : ℕ) → focus < limit → (if empty then 0 else focus) < limit
below_limit empty focus limit h = ground (arith, Bool-cases empty)

remove_member-IsFine : (m : CreateChat) → Valid m → 1 ≤ length m.user_ids → IsFine (remove_member m)
unfolding remove_member
remove_member-IsFine m v h = elim (Bool-cases (ltb m.cursor (length m.user_ids))) [
  | inr e ↦ absurd (ground (arith, e, v.on_member))
  | inl e ↦
      let count = length-remove_at m.cursor m.user_ids (ground (arith, e)) in
      rw (e, count)
        (record {
          on_member = omega (arith, v.on_member, count);
          on_field = below_limit (length m.user_ids - 1 == 0) m.focus_index _ v.on_field;
          one_recipient = λ d. omega (arith, v.one_recipient d, count);
        })
]

on_members_list-IsFine : (key : Key) (m : CreateChat) → Valid m → IsFine (on_members_list key m)
unfolding on_members_list
on_members_list-IsFine key m v = elim (Bool-cases (str_eq key.name "k" || str_eq key.name "up")) [
  | inl e ↦ rw e (record {
    on_member = omega (arith, v.on_member);
    on_field = v.on_field;
    one_recipient = v.one_recipient;
  })
  | inr e ↦ elim (Bool-cases (str_eq key.name "j" || str_eq key.name "down")) [
    | inl f ↦
        rw (e, f)
          (record {
            on_member = ground (arith, v.on_member);
            on_field = v.on_field;
            one_recipient = v.one_recipient;
          })
    | inr f ↦
        elim (Bool-cases
          ((str_eq key.name "x" || str_eq key.name "backspace") && ltb 0 (length m.user_ids))) [
            | inl g ↦ rw (e, f, g) (remove_member-IsFine m v (ground (arith, g)))
            | inr g ↦ rw (e, f, g) v
          ]
  ]
]

on_enter-IsFine : (m : CreateChat) → Valid m → IsFine (on_enter m)
unfolding on_enter
on_enter-IsFine m v = elim (Bool-cases (is_nil m.input_val)) [
  | inl e ↦
      elim (Bool-cases
        (ltb 0 (length m.user_ids) && (not m.is_group || not (is_nil (trim_space m.group_name))))) [
          | inl f ↦ rw (e, f) (v, ground (arith, f))
          | inr f ↦ rw (e, f) v
        ]
  | inr e ↦ elim (Bool-cases (byte_length m.input_val == 9)) [
    | inr f ↦ rw (e, f) v
    | inl f ↦ elim (Bool-cases (not m.is_group && leb 1 (length m.user_ids))) [
      | inl g ↦
          rw (e, f, g)
            (record {
              on_member = v.on_member;
              on_field = v.on_field;
              one_recipient = v.one_recipient;
            })
      | inr g ↦
          rw (e, f, g)
            (record {
              on_member = omega (arith, length-append m.user_ids (m.input_val ∷ []));
              on_field = v.on_field;
              one_recipient =
                  λ d. ground (arith, d, g, length-append m.user_ids (m.input_val ∷ []));
            })
    ]
  ]
]

on_member_input-IsFine : (key : Key) (m : CreateChat) → Valid m → IsFine (on_member_input key m)
unfolding on_member_input
on_member_input-IsFine key m v = elim (Bool-cases (str_eq key.name "backspace")) [
  | inl e ↦
      rw e
        (record { on_member = v.on_member; on_field = v.on_field; one_recipient = v.one_recipient })
  | inr e ↦ elim (Bool-cases (str_eq key.name "enter")) [
    | inl f ↦ rw (e, f) (on_enter-IsFine m v)
    | inr f ↦ elim (Bool-cases (ltb (byte_length m.input_val) 9 && is_digit key.name)) [
      | inl g ↦
          rw (e, f, g)
            (record {
              on_member = v.on_member;
              on_field = v.on_field;
              one_recipient = v.one_recipient;
            })
      | inr g ↦ rw (e, f, g) v
    ]
  ]
]

on_group_name-Valid : (key : Key) (m : CreateChat) → Valid m → Valid (on_group_name key m)
unfolding on_group_name
on_group_name-Valid key m v = elim (Bool-cases (str_eq key.name "backspace")) [
  | inl e ↦
      rw e
        (record { on_member = v.on_member; on_field = v.on_field; one_recipient = v.one_recipient })
  | inr e ↦ elim (Bool-cases (ltb (char_count m.group_name) 100)) [
    | inl g ↦
        rw (e, g)
          (record {
            on_member = v.on_member;
            on_field = v.on_field;
            one_recipient = v.one_recipient;
          })
    | inr g ↦ rw (e, g) v
  ]
]

on_field-IsFine : (key : Key) (m : CreateChat) → Valid m → IsFine (on_field key m)
unfolding on_field
on_field-IsFine key m v = elim (Bool-cases (is_group_name_focused m)) [
  | inl e ↦ rw e (on_group_name-Valid key m v)
  | inr e ↦ elim (Bool-cases (is_member_input_focused m)) [
    | inl f ↦ rw (e, f) (on_member_input-IsFine key m v)
    | inr f ↦ elim (Bool-cases (is_members_list_focused m)) [
      | inl g ↦ rw (e, f, g) (on_members_list-IsFine key m v)
      | inr g ↦ rw (e, f, g) v
    ]
  ]
]

next_focus-Valid : (m : CreateChat) → Valid m → Valid (next_focus m)
unfolding next_focus
next_focus-Valid m v = record {
  on_member = v.on_member;
  on_field = ground (arith, Bool-cases m.is_group);
  one_recipient = v.one_recipient;
}

update_key-IsFine : (key : Key) (m : CreateChat) → Valid m → IsFine (update_key key m)
unfolding update_key
update_key-IsFine key m v = elim (Bool-cases (str_eq key.name "esc")) [
  | inl e ↦ rw e tt
  | inr e ↦ elim (Bool-cases (str_eq key.name "tab")) [
    | inl f ↦ rw (e, f) (next_focus-Valid m v)
    | inr f ↦ elim (Bool-cases (str_eq key.name "ctrl+s" && ltb 0 (length m.user_ids))) [
      | inl g ↦ rw (e, f, g) (v, ground (arith, g))
      | inr g ↦ rw (e, f, g) (on_field-IsFine key m v)
    ]
  ]
]

-- What comes after a key, until the form is left; an error leads back to it.
abbrev pub go_on : (CreateChat → Next) → Next → Next
go_on later (stays m) = later m
go_on later (fails e m) = later m
go_on later returns = returns
go_on later (submits m) = submits m
go_on later panics = panics

-- The keys one after the other.
abbrev pub run : List Key → CreateChat → Next
run [] m = stays m
run (key ∷ keys) m = go_on (run keys) (update_key key m)

go_on-IsFine :
    (later : CreateChat → Next) (next : Next)
    → ((m : CreateChat) → Valid m → IsFine (later m))
    → IsFine next
    → IsFine (go_on later next)
go_on-IsFine later (stays m) h f = h m f
go_on-IsFine later (fails e m) h f = h m f
go_on-IsFine later returns h f = f
go_on-IsFine later (submits m) h f = f
go_on-IsFine later panics h f = f

run-IsFine : (keys : List Key) (m : CreateChat) → Valid m → IsFine (run keys m)
run-IsFine [] m v = v
run-IsFine (key ∷ keys) m v =
    go_on-IsFine (run keys) (update_key key m) (run-IsFine keys) (update_key-IsFine key m v)

-- Whatever keys are pressed on a new form, no index of the list of members is out of range, the
-- cursor and the focus stay within their bounds, and the chat is only sent to the server with at
-- least one member, a direct chat with exactly one.
pub keys-IsFine : (is_group : Bool) (keys : List Key) → IsFine (run keys (new_create_chat is_group))
keys-IsFine is_group keys = run-IsFine keys (new_create_chat is_group) (
    unfold new_create_chat in
    record {
      on_member = omega arith;
      on_field = ground (arith, Bool-cases is_group);
      one_recipient = λ d. omega arith;
    })
