-- ===== src/Shell/Command/Chain.antt =====
-- The order of a chain of commands (hw3/internal/shell/commands/command.go).
use mathlib.Core.List.{Permᴰ}
use go_tasks.Prelude.{ℕ, ◌≤◌, ◌≡◌, refl, ◌∙◌, String, List, [], ◌∷◌, arith, Bool-cases, inl, inr}
use go_tasks.Prelude.Tables.{count}
use go_tasks.Shell.Command.{BaseCommand, handle}

module _ {S : Type 0} (t : String) where
  -- How many commands of the chain match the text.
  abbrev pub matching : List (BaseCommand S) → ℕ
  matching chain = count (λ cmd. cmd.matches t) chain

  matching-Perm : (c d : List (BaseCommand S)) → Permᴰ c d → matching c ≡ matching d
  unfolding count
  matching-Perm _ _ Permᴰ.nil = refl
  matching-Perm _ _ (Permᴰ.cons {a} {b} {l₁} {l₂} e p) = rw (e, matching-Perm l₁ l₂ p) refl
  matching-Perm _ _ (Permᴰ.swap {a} {b} {a'} {b'} {l} e f) =
      rw (e, f) (ground (arith, Bool-cases (b'.matches t), Bool-cases (a'.matches t)))
  matching-Perm _ _ (Permᴰ.trans p q) = matching-Perm _ _ p ∙ matching-Perm _ _ q

  handle-unmatched :
      (s : S) (chain : List (BaseCommand S)) → matching chain ≡ 0 → handle chain t s ≡ handle [] t s
  unfolding handle count
  handle-unmatched s [] h = refl
  handle-unmatched s (cmd ∷ chain) h = elim (Bool-cases (cmd.matches t)) [
    | inl e ↦ absurd (ground (arith, h, e))
    | inr e ↦ rw e (handle-unmatched s chain (ground (arith, h, e)))
  ]

  -- Of two commands in front at most one matches.
  handle_swap :
      (s : S) (x y : BaseCommand S) (chain : List (BaseCommand S))
      → matching (x ∷ y ∷ chain) ≤ 1
      → handle (x ∷ y ∷ chain) t s ≡ handle (y ∷ x ∷ chain) t s
  unfolding handle count
  handle_swap s x y chain h = elim (Bool-cases (x.matches t)) [
    | inr e ↦ rw e refl
    | inl e ↦ elim (Bool-cases (y.matches t)) [
      | inr f ↦ rw (e, f) refl
      | inl f ↦ absurd (ground (arith, e, f))
    ]
  ]

  matching_tail :
      (cmd : BaseCommand S) (chain : List (BaseCommand S))
      → matching (cmd ∷ chain) ≤ 1
      → matching chain ≤ 1
  unfolding count
  matching_tail cmd chain h = ground (arith, Bool-cases (cmd.matches t))

  handle_cons :
      (s : S) (x y : BaseCommand S) (c d : List (BaseCommand S))
      → x ≡ y
      → handle c t s ≡ handle d t s
      → handle (x ∷ c) t s ≡ handle (y ∷ d) t s
  unfolding handle
  handle_cons s x y c d e f = rw (e, f) refl

  -- Where a text matches at most one command of a chain, every order of the chain does the same.
  pub handle-Perm :
      (s : S) (c d : List (BaseCommand S))
      → Permᴰ c d
      → matching c ≤ 1
      → handle c t s ≡ handle d t s
  handle-Perm s _ _ Permᴰ.nil h = refl
  handle-Perm s _ _ (Permᴰ.cons {a} {b} {l₁} {l₂} e p) h =
      handle_cons s a b l₁ l₂ e (handle-Perm s l₁ l₂ p (matching_tail a l₁ h))
  handle-Perm s _ _ (Permᴰ.swap {a} {b} {a'} {b'} {l} e f) h =
      rw (e, f) (handle_swap s b' a' l (rw (e, f) at h))
  handle-Perm s _ _ (Permᴰ.trans {l₁} {l₂} {l₃} p q) h =
      handle-Perm s l₁ l₂ p h ∙ handle-Perm s l₂ l₃ q (rw (matching-Perm l₁ l₂ p) at h)
