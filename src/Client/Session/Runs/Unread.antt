-- ===== src/Client/Session/Runs/Unread.antt =====
-- The unread counts over a run of calls (semestral/internal/client/state/session.go).
use go_tasks.Prelude.{
  ℕ, ◌+◌, ◌^◌, ◌<◌, ◌≡◌, refl, String, none, some, List, [], ◌∷◌, arith, length, str_eq, eq_iff,
  if◌then◌else◌, Bool-cases, inl, inr,
}
use go_tasks.Prelude.Int.{pos, add_int64, add_int64-pos}
use go_tasks.Prelude.Maps.{lookup, lookup-insert, lookup-delete}
use go_tasks.Client.Session.{
  Session, set_invisible, set_user_id, get_unread, increment_unread, reset_unread, set_profile,
  remove_chat, insert_chat, set_chat_members, or_zero, same,
}
use go_tasks.Client.Session.Runs.{
  Call, apply, run, makes_invisible, sets_user, receives, reads, sets_profile, removes, inserts,
  sets_members,
}

get_unread-increment :
    (asked chat : String) (s : Session) (n : ℕ)
    → get_unread asked s ≡ pos n
    → n + 1 < 2 ^ 63
    → get_unread asked (increment_unread chat s) ≡ pos (if str_eq chat asked then n + 1 else n)
unfolding get_unread increment_unread
get_unread-increment asked chat s n h l = elim (Bool-cases (str_eq chat asked)) [
  | inr e ↦
      rw
        (
          lookup-insert chat asked (add_int64 (or_zero (lookup chat s.unread_counts)) 1)
              s.unread_counts,
          e,
        )
        h
  | inl e ↦
      rw
        (
          lookup-insert chat asked (add_int64 (or_zero (lookup chat s.unread_counts)) 1)
              s.unread_counts,
          e,
          (eq_iff chat asked).0 e,
          h,
        )
        (add_int64-pos n 1 l)
]

get_unread-reset :
    (asked chat : String) (s : Session) (n : ℕ)
    → get_unread asked s ≡ pos n
    → get_unread asked (reset_unread chat s) ≡ pos (if str_eq chat asked then 0 else n)
unfolding get_unread reset_unread
get_unread-reset asked chat s n h = elim (Bool-cases (str_eq chat asked)) [
  | inr e ↦ rw (lookup-insert chat asked (pos 0) s.unread_counts, e) h
  | inl e ↦ rw (lookup-insert chat asked (pos 0) s.unread_counts, e) refl
]

get_unread-remove :
    (asked chat : String) (s : Session) (n : ℕ)
    → get_unread asked s ≡ pos n
    → get_unread asked (remove_chat chat s) ≡ pos (if str_eq chat asked then 0 else n)
unfolding get_unread remove_chat
get_unread-remove asked chat s n h = elim (Bool-cases (str_eq chat asked)) [
  | inr e ↦ rw (lookup-delete chat asked s.unread_counts, e) h
  | inl e ↦ rw (lookup-delete chat asked s.unread_counts, e) refl
]

get_unread-kept :
    (asked : String) (s s' : Session) (n : ℕ)
    → s'.unread_counts ≡ s.unread_counts
    → get_unread asked s ≡ pos n
    → get_unread asked s' ≡ pos n
unfolding get_unread
get_unread-kept asked s s' n e h = rw e h

-- A call that is about no message.
abbrev IsOther : Call → Type 0
IsOther (receives chat) = ⊥
IsOther (reads chat) = ⊥
IsOther (removes chat) = ⊥
IsOther _ = Unit

counts_kept :
    (call : Call) (s : Session) → IsOther call → (apply call s).unread_counts ≡ s.unread_counts
unfolding set_invisible set_user_id set_profile insert_chat set_chat_members
counts_kept (makes_invisible b) s o = elim (Bool-cases (same s.is_invisible b)) [
  | inl e ↦ rw e refl
  | inr e ↦ rw e refl
]
counts_kept (sets_user id) s o = refl
counts_kept (receives chat) s o = absurd o
counts_kept (reads chat) s o = absurd o
counts_kept (sets_profile none) s o = refl
counts_kept (sets_profile (some p)) s o = refl
counts_kept (removes chat) s o = absurd o
counts_kept (inserts none) s o = refl
counts_kept (inserts (some chat)) s o = refl
counts_kept (sets_members chat members) s o = refl

-- The messages of a chat that came in after it was read or removed last, on top of a first count.
abbrev pub unread_after : String → List Call → ℕ → ℕ
unread_after asked [] n = n
unread_after asked (receives chat ∷ calls) n =
    unread_after asked calls (if str_eq chat asked then n + 1 else n)
unread_after asked (reads chat ∷ calls) n =
    unread_after asked calls (if str_eq chat asked then 0 else n)
unread_after asked (removes chat ∷ calls) n =
    unread_after asked calls (if str_eq chat asked then 0 else n)
unread_after asked (call ∷ calls) n = unread_after asked calls n

-- The unread count of a chat is the number of its messages that came in since it was read or removed
-- last, if the count at the start and the number of calls together are below 2^63.
pub get_unread-run :
    (asked : String) (calls : List Call) (s : Session) (n : ℕ)
    → get_unread asked s ≡ pos n
    → n + length calls < 2 ^ 63
    → get_unread asked (run calls s) ≡ pos (unread_after asked calls n)
get_unread-run asked [] s n h l = h
get_unread-run asked (receives chat ∷ calls) s n h l =
    get_unread-run asked calls _ _ (get_unread-increment asked chat s n h (omega arith))
      (ground arith)
get_unread-run asked (reads chat ∷ calls) s n h l =
    get_unread-run asked calls _ _ (get_unread-reset asked chat s n h) (ground arith)
get_unread-run asked (removes chat ∷ calls) s n h l =
    get_unread-run asked calls _ _ (get_unread-remove asked chat s n h) (ground arith)
get_unread-run asked (makes_invisible b ∷ calls) s n h l =
    get_unread-run asked calls (apply (makes_invisible b) s) n
      (get_unread-kept asked s (apply (makes_invisible b) s) n
        (counts_kept (makes_invisible b) s tt) h)
      (omega arith)
get_unread-run asked (sets_user id ∷ calls) s n h l =
    get_unread-run asked calls (apply (sets_user id) s) n
      (get_unread-kept asked s (apply (sets_user id) s) n (counts_kept (sets_user id) s tt) h)
      (omega arith)
get_unread-run asked (sets_profile p ∷ calls) s n h l =
    get_unread-run asked calls (apply (sets_profile p) s) n
      (get_unread-kept asked s (apply (sets_profile p) s) n (counts_kept (sets_profile p) s tt) h)
      (omega arith)
get_unread-run asked (inserts c ∷ calls) s n h l =
    get_unread-run asked calls (apply (inserts c) s) n
      (get_unread-kept asked s (apply (inserts c) s) n (counts_kept (inserts c) s tt) h)
      (omega arith)
get_unread-run asked (sets_members c m ∷ calls) s n h l =
    get_unread-run asked calls (apply (sets_members c m) s) n
      (get_unread-kept asked s (apply (sets_members c m) s) n (counts_kept (sets_members c m) s tt)
        h)
      (omega arith)
