-- ===== src/Shell/Formatting/Paths.antt =====
-- `FormatPath` (hw3/internal/shell/commands/formatting.go): what is shown of a path.
use mathlib.Core.List.{append_assoc, append-nil}
use go_tasks.Prelude.{
  ℕ, zero, suc, ◌+◌, ◌-◌, ◌≤◌, ◌≡◌, refl, ap, sym, inl, inr, List, [], ◌∷◌, ◌++◌, arith, ltb, ◌==◌,
  Bool-cases, length,
}
use go_tasks.Prelude.Outcome.{ok}
use go_tasks.Shell.Formatting.{split, add_head, join, drop, last_parts, dots, shorten, format_path}

-- The second text is the end of the first.
abbrev pub EndsWith : List ℕ → List ℕ → Type 0
EndsWith text back = (front : List ℕ) × (text ≡ front ++ back)

split-cons :
    (sep : ℕ) (s : List ℕ)
    → (part : List ℕ) × (parts : List (List ℕ)) × (split sep s ≡ part ∷ parts)
unfolding split add_head
split-cons sep [] = ([], [], refl)
split-cons sep (c ∷ s) = elim (Bool-cases (c == sep)) [
  | inl e ↦ ([], split sep s, rw e refl)
  | inr e ↦ let (part, parts, q) = split-cons sep s in (c ∷ part, parts, rw (e, q) refl)
]

join-add_head :
    (sep c : ℕ) (part : List ℕ) (parts : List (List ℕ))
    → join sep (add_head c (part ∷ parts)) ≡ c ∷ join sep (part ∷ parts)
unfolding join add_head
join-add_head sep c part [] = refl
join-add_head sep c part (next ∷ parts) = refl

join_nil :
    (sep : ℕ) (part : List ℕ) (parts : List (List ℕ))
    → join sep ([] ∷ part ∷ parts) ≡ sep ∷ join sep (part ∷ parts)
unfolding join
join_nil sep part parts = refl

-- The parts of a text, joined again, are the text.
pub join-split : (sep : ℕ) (s : List ℕ) → join sep (split sep s) ≡ s
unfolding split
join-split sep [] = unfold join in refl
join-split sep (c ∷ s) =
    let (part, parts, q) = split-cons sep s in
    elim (Bool-cases (c == sep)) [
      | inl e ↦ rw (e, q, join_nil sep part parts) (grind (arith, join-split sep s, q))
      | inr e ↦ rw (e, q, join-add_head sep c part parts) (grind (arith, join-split sep s, q))
    ]

length-drop : (n : ℕ) (xs : List ℕ) → length (drop n xs) ≡ length xs - n
unfolding drop
length-drop zero xs = omega arith
length-drop (suc n) [] = omega arith
length-drop (suc n) (x ∷ xs) = omega (arith, length-drop n xs)

drop-EndsWith : (n : ℕ) (xs : List ℕ) → EndsWith xs (drop n xs)
unfolding drop
drop-EndsWith zero xs = ([], refl)
drop-EndsWith (suc n) [] = ([], refl)
drop-EndsWith (suc n) (x ∷ xs) =
    let (front, e) = drop-EndsWith n xs in (x ∷ front, ap (λ r. x ∷ r) e)

EndsWith-trans : (a b c : List ℕ) → EndsWith a b → EndsWith b c → EndsWith a c
EndsWith-trans a b c (f, p) (g, q) = (f ++ g, rw (p, q) (sym (append_assoc f g c)))

drop_nil : (n : ℕ) → drop {A = List ℕ} n [] ≡ []
unfolding drop
drop_nil zero = refl
drop_nil (suc n) = refl

join-drop :
    (sep n : ℕ) (parts : List (List ℕ)) → EndsWith (join sep parts) (join sep (drop n parts))
unfolding drop join
join-drop sep zero parts = ([], refl)
join-drop sep (suc n) [] = ([], refl)
join-drop sep (suc n) (part ∷ []) = rw (drop_nil n) (part, sym (append-nil part))
join-drop sep (suc n) (part ∷ next ∷ parts) =
    let (front, e) = join-drop sep n (next ∷ parts) in
    (
      part ++ (sep ∷ front),
      rw (append_assoc part (sep ∷ front) (join sep (drop n (next ∷ parts))))
          (ap (λ r. part ++ (sep ∷ r)) e),
    )

join-last_parts :
    (sep n : ℕ) (parts : List (List ℕ)) → EndsWith (join sep parts) (join sep (last_parts n parts))
join-last_parts sep n parts = elim (Bool-cases (ltb n (length parts))) [
  | inl e ↦ rw e (join-drop sep (length parts - n) parts)
  | inr e ↦ rw e ([], refl)
]

-- What is shown is an end of the path that fits, or three dots and an end of the path, as wide as allowed.
pub data Shown (path : List ℕ) (max_len : ℕ) (out : List ℕ) : Type 0 where
  fits : EndsWith path out → length out ≤ max_len → Shown path max_len out
  cut :
      (back : List ℕ)
      → out ≡ dots ++ back
      → EndsWith path back
      → length out ≡ max_len
      → Shown path max_len out

shorten-Shown :
    (path text : List ℕ) (max_len : ℕ)
    → 3 ≤ max_len
    → EndsWith path text
    → (out : List ℕ) × (shorten max_len text ≡ ok out) × Shown path max_len out
unfolding shorten
shorten-Shown path text max_len h s = elim (Bool-cases (ltb max_len (length text))) [
  | inr e ↦ (text, rw e refl, fits s (ground arith))
  | inl e ↦
      let cut_at = length text - max_len + 3 in
      let back = drop cut_at text in
      (
        dots ++ back,
        ground (arith, e),
        cut back refl (EndsWith-trans path text back s (drop-EndsWith cut_at text))
            (ground (arith, length-drop cut_at text)),
      )
]

-- With room for at least three bytes a path is always shown, in no more bytes than allowed: an end
-- of it, or dots and an end of it that fill the room.
pub format_path-Shown :
    (path : List ℕ) (last_n max_len : ℕ)
    → 3 ≤ max_len
    → (out : List ℕ) × (format_path path last_n max_len ≡ ok out) × Shown path max_len out
unfolding format_path
format_path-Shown [] last_n max_len h = ([], refl, fits ([], refl) (omega arith))
format_path-Shown (c ∷ path) last_n max_len h =
    shorten-Shown (c ∷ path) _ max_len h
      (rw (join-split b'/' (c ∷ path)) at (join-last_parts b'/' last_n (split b'/' (c ∷ path))))
