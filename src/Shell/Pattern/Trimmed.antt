-- ===== src/Shell/Pattern/Trimmed.antt =====
-- What a line cannot match once `strings.TrimSpace` has cut it (hw3/internal/shell/shell.go).
use Prim.Native.Char.{Char, code}
use go_tasks.Prelude.{
  ◌≡◌, refl, ◌≢◌, subst, String, Bool, Option, none, some, true, false, arith, ◌==◌, Bool-cases,
  inl, inr, ◌⊎◌, Option-cases, if◌then◌else◌, ◌&&◌,
}
use go_tasks.Prelude.Text.{strip_prefix, trim_space, trim_left, trim_right, is_space, is_nil}
use go_tasks.Shell.Pattern.{match_download, match_destination, after_blank, span_field, is_blank}

-- Whether the last character is white space.
ends_blank : String → Bool
ends_blank String.[] = false
ends_blank (String.◌∷◌ c s) = if is_nil s then is_space (code c) else ends_blank s

ends_blank-trim_right : (s : String) → ends_blank (trim_right s) ≡ false
unfolding ends_blank trim_right
ends_blank-trim_right String.[] = refl
ends_blank-trim_right (String.◌∷◌ c s) =
    elim (Bool-cases (is_nil (trim_right s) && is_space (code c))) [
      | inl e ↦ rw e refl
      | inr e ↦ rw e (ground (arith, ends_blank-trim_right s))
    ]

blank_space : (c : Char) → is_blank (code c) ≡ true → is_space (code c) ≡ true
unfolding is_blank is_space
blank_space c h = ground arith

ends_blank-cons : (d : Char) (s : String) → ends_blank s ≡ true → ends_blank (String.◌∷◌ d s) ≡ true
unfolding ends_blank
ends_blank-cons d String.[] h = cc
ends_blank-cons d (String.◌∷◌ c s) h = h

ends_blank-strip_prefix :
    (p s tail : String)
    → strip_prefix p s ≡ some tail
    → ends_blank tail ≡ true
    → ends_blank s ≡ true
unfolding strip_prefix ends_blank
ends_blank-strip_prefix String.[] s tail e h = ground (arith, e)
ends_blank-strip_prefix (String.◌∷◌ c p) String.[] tail e h = cc
ends_blank-strip_prefix (String.◌∷◌ c p) (String.◌∷◌ d s) tail e h =
    elim (Bool-cases (code c == code d)) [
      | inl same ↦ ends_blank-cons d s (ends_blank-strip_prefix p s tail (rw same at e) h)
      | inr other ↦ absurd (ground (arith, e, other))
    ]

blank_then :
    (c : Char) (s : String)
    → is_blank (code c) ≡ true
    → (s ≡ String.[]) ⊎ (ends_blank s ≡ true)
    → ends_blank (String.◌∷◌ c s) ≡ true
unfolding ends_blank
blank_then c String.[] f h = blank_space c f
blank_then c (String.◌∷◌ d s) f (inl e) = cc
blank_then c (String.◌∷◌ d s) f (inr e) = e

ends_blank-after_blank :
    (s tail : String)
    → after_blank s ≡ some tail
    → (tail ≡ String.[]) ⊎ (ends_blank tail ≡ true)
    → ends_blank s ≡ true
unfolding after_blank ends_blank
ends_blank-after_blank String.[] tail e h = cc
ends_blank-after_blank (String.◌∷◌ c s) tail e h = elim (Bool-cases (is_blank (code c))) [
  | inr f ↦ absurd (ground (arith, e, f))
  | inl f ↦
      blank_then c s f
        (subst (λ r. (r ≡ String.[]) ⊎ (ends_blank r ≡ true)) (ground (arith, e, f)) h)
]

ends_blank-span_field : (s : String) → ends_blank (span_field s).1 ≡ true → ends_blank s ≡ true
unfolding span_field
ends_blank-span_field String.[] h = h
ends_blank-span_field (String.◌∷◌ c s) h = elim (Bool-cases (is_blank (code c))) [
  | inl e ↦ rw e at h
  | inr e ↦ ends_blank-cons c s (ends_blank-span_field s (rw e at h))
]

abbrev pub destination_of : Option (String × String) → Option String
destination_of none = none
destination_of (some (url, destination)) = some destination

empty_destination :
    (url more : String)
    → destination_of (match_destination (url, more)) ≡ some String.[]
    → ends_blank more ≡ true
unfolding match_destination
empty_destination url more h = elim (Option-cases (after_blank more)) [
  | inl e ↦ absurd (ground (arith, e))
  | inr (destination, e) ↦ ends_blank-after_blank more destination e (inl (ground (arith, e, h)))
]

no_destination :
    (s : String) → destination_of (match_download s) ≡ some String.[] → ends_blank s ≡ true
unfolding match_download
no_destination s h = elim (Option-cases (strip_prefix "download" s)) [
  | inl e ↦ absurd (ground (arith, e))
  | inr (tail, e) ↦ elim (Option-cases (after_blank tail)) [
    | inl f ↦ absurd (ground (arith, e, f))
    | inr (fields, f) ↦
        let last =
          empty_destination (span_field fields).0 (span_field fields).1 (ground (arith, h, e, f)) in
        ends_blank-strip_prefix "download" s tail e
          (ends_blank-after_blank tail fields f (inr (ends_blank-span_field fields last)))
  ]
]

-- A line that was trimmed never matches `download` with an empty destination.
pub match_download-trim_space :
    (s : String) → destination_of (match_download (trim_space s)) ≢ some ""
unfolding trim_space
match_download-trim_space s h =
    cc (no_destination (trim_space s) h, ends_blank-trim_right (trim_left s))
