-- ===== src/Shell/Pattern/Disjoint.antt =====
-- No line matches two of the patterns, which start with different letters.
use Prim.Native.Char.{code}
use go_tasks.Prelude.{
  ℕ, ◌≡◌, refl, ◌≢◌, String, Bool, none, true, false, is_some, arith, ◌==◌, Bool-cases, inl, inr,
}
use go_tasks.Prelude.Text.{strip_prefix}
use go_tasks.Shell.Pattern.{match_cancel, match_status, match_download}

-- Whether a text starts with a letter.
abbrev starts : ℕ → String → Bool
starts letter String.[] = false
starts letter (String.◌∷◌ c s) = code c == letter

starts-strip_prefix :
    (letter : ℕ) (s : String)
    → starts letter s ≡ false
    → (letter ≡ b'c' → strip_prefix "cancel" s ≡ none)
      × (letter ≡ b's' → strip_prefix "status" s ≡ none)
      × (letter ≡ b'd' → strip_prefix "download" s ≡ none)
unfolding strip_prefix
starts-strip_prefix letter String.[] h = (λ e. refl, λ e. refl, λ e. refl)
starts-strip_prefix letter (String.◌∷◌ c s) h =
    (λ e. ground arith, λ e. ground arith, λ e. ground arith)

match_cancel-starts : (s : String) → is_some (match_cancel s) ≡ true → starts b'c' s ≡ true
unfolding match_cancel
match_cancel-starts s h = elim (Bool-cases (starts b'c' s)) [
  | inl e ↦ e
  | inr e ↦ absurd (ground (arith, (starts-strip_prefix b'c' s e).0 refl))
]

match_status-starts : (s : String) → is_some (match_status s) ≡ true → starts b's' s ≡ true
unfolding match_status
match_status-starts s h = elim (Bool-cases (starts b's' s)) [
  | inl e ↦ e
  | inr e ↦ absurd (ground (arith, (starts-strip_prefix b's' s e).1 refl))
]

match_download-starts : (s : String) → is_some (match_download s) ≡ true → starts b'd' s ≡ true
unfolding match_download
match_download-starts s h = elim (Bool-cases (starts b'd' s)) [
  | inl e ↦ e
  | inr e ↦ absurd (ground (arith, (starts-strip_prefix b'd' s e).2 refl))
]

starts_one : (a b : ℕ) (s : String) → starts a s ≡ true → starts b s ≡ true → a ≡ b
starts_one a b String.[] p q = cc
starts_one a b (String.◌∷◌ c s) p q = ground arith

apart :
    (a b : ℕ) (s : String) (p q : Bool)
    → a ≢ b
    → (p ≡ true → starts a s ≡ true)
    → (q ≡ true → starts b s ≡ true)
    → p ≡ true
    → q ≡ false
apart a b s p true h f g e = absurd (h (starts_one a b s (f e) (g refl)))
apart a b s p false h f g e = refl

pub download_not_status :
    (s : String) → is_some (match_download s) ≡ true → is_some (match_status s) ≡ false
download_not_status s =
    apart b'd' b's' s _ _ (omega arith) (match_download-starts s) (match_status-starts s)

pub download_not_cancel :
    (s : String) → is_some (match_download s) ≡ true → is_some (match_cancel s) ≡ false
download_not_cancel s =
    apart b'd' b'c' s _ _ (omega arith) (match_download-starts s) (match_cancel-starts s)

pub status_not_cancel :
    (s : String) → is_some (match_status s) ≡ true → is_some (match_cancel s) ≡ false
status_not_cancel s =
    apart b's' b'c' s _ _ (omega arith) (match_status-starts s) (match_cancel-starts s)
