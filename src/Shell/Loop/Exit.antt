-- ===== src/Shell/Loop/Exit.antt =====
-- The exit of the shell (hw3/internal/shell/shell.go) over a whole run of the prompt.
use go_tasks.Prelude.{
  ℕ, ◌≡◌, refl, ◌∙◌, String, Bool, true, false, ◌||◌, Option, none, some, List, [], ◌∷◌, str_eq,
  Bool-cases, Option-cases, inl, inr, All,
}
use go_tasks.Prelude.Text.{trim_space, is_nil}
use go_tasks.Prelude.Outcome.{ok, Err}
use go_tasks.Shell.Command.{BaseCommand, Filter}
use go_tasks.Shell.Commands.{Backend, Shell, new_chain}
use go_tasks.Shell.Commands.Dispatch.{Sound, handle-Calm, new_chain-Calm}
use go_tasks.Shell.Loop.{new_shell, handle_exit, handle_line, report, Turn, run}

-- A line that asks for the exit, or the end of the input.
abbrev pub asks_exit : Option String → Bool
asks_exit none = true
asks_exit (some line) = str_eq (trim_space line) "exit"

abbrev pub some_exit : {D : Type 0} → List (Turn D) → Bool
some_exit [] = false
some_exit (turn ∷ turns) = asks_exit turn.line || some_exit turns

-- What the other goroutines do returns, and leaves the downloader good.
abbrev pub Keeps : {D : Type 0} → (D → Type 0) → Turn D → Type 0
Keeps Good turn = (d : _) → Good d → (d' : _) × (turn.background d ≡ ok d') × Good d'

module _ {D : Type 0} (backend : Backend D) (Good : D → Type 0) (filter : Filter) (now : ℕ) where
  abbrev chain : List (BaseCommand (Shell D))
  chain = new_chain backend filter now

  -- A state before the exit, and one after it.
  abbrev Stage : Bool → Shell D → Type 0
  Stage true s = (s.shutdown ≡ true) × (s.shutdown_done_ch ≡ true)
  Stage false s = Good s.downloader × (s.shutdown ≡ false) × (s.shutdown_done_ch ≡ false)

  handle_exit-Stage :
      Sound backend Good
      → (s : Shell D) → Stage false s
      → (s' : Shell D) × (handle_exit backend s ≡ ok s') × Stage true s'
  unfolding handle_exit
  handle_exit-Stage sound s (g, e, f) =
      let (d, h) = sound.shuts s.downloader g in rw (e, h, f) (_, refl, (refl, refl))

  nil_not_exit : (t : String) → is_nil t ≡ true → str_eq t "exit" ≡ false
  unfolding str_eq
  nil_not_exit String.[] h = refl
  nil_not_exit (String.◌∷◌ c t) h = cc

  report-Stage : (s : Shell D) (err : Option Err) → Stage false s → Stage false (report (s, err))
  report-Stage s none h = h
  report-Stage s (some e) h = h

  handle_line-Stage :
      Sound backend Good
      → (line : String) (s : Shell D) → Stage false s
      → (s' : Shell D) × (handle_line backend chain line s ≡ ok s')
        × Stage (asks_exit (some line)) s'
  unfolding handle_line
  handle_line-Stage sound line s h = elim (Bool-cases (is_nil (trim_space line))) [
    | inl e ↦ rw (e, nil_not_exit (trim_space line) e) (s, refl, h)
    | inr e ↦ elim (Bool-cases (str_eq (trim_space line) "exit")) [
      | inl f ↦ rw (e, f) (handle_exit-Stage sound s h)
      | inr f ↦
          let (after, err, g, good, p, q) =
            handle-Calm backend Good chain (trim_space line) s h.0
              (new_chain-Calm backend Good sound filter now) in
          rw (e, f, g) (report (after, err), refl, report-Stage after err (good, p ∙ h.1, q ∙ h.2))
    ]
  ]

  run_stopped :
      (turns : List (Turn D)) (s : Shell D) → Stage true s → run backend chain turns s ≡ ok s
  unfolding run
  run_stopped [] s h = refl
  run_stopped (turn ∷ turns) s h = rw h.0 refl

  run-Stage :
      Sound backend Good
      → (turns : List (Turn D)) (s : Shell D) → All (Keeps Good) turns
      → Stage false s
      → (s' : Shell D) × (run backend chain turns s ≡ ok s') × Stage (some_exit turns) s'
  unfolding run
  run-Stage sound [] s b h = (s, refl, h)
  run-Stage sound (turn ∷ turns) s (r, b) h =
      let (d, g, good) = r s.downloader h.0 in
      let s1 = record s { downloader = d } in
      let stage1 : Stage false s1 = (good, h.1, h.2) in
      elim (Option-cases turn.line) [
        | inl e ↦ rw (h.1, g, e) (handle_exit-Stage sound s1 stage1)
        | inr (line, e) ↦
            let (s2, f, stage) = handle_line-Stage sound line s1 stage1 in
            rw (h.1, g, e, f)
              (elim (Bool-cases (str_eq (trim_space line) "exit")) [
                | inl x ↦ rw (x, run_stopped turns s2 (rw x at stage)) (s2, refl, (rw x at stage))
                | inr x ↦ rw x (run-Stage sound turns s2 b (rw x at stage))
              ])
      ]

  run_closed : (b : Bool) (s : Shell D) → Stage b s → s.shutdown_done_ch ≡ b
  run_closed true s h = h.1
  run_closed false s h = h.2

-- For a downloader whose calls return in good states and keep them good, the loop of Run takes any
-- input without a panic, and the channel that Run waits for at its end is closed if some turn asked
-- for the exit, else open. So it is never closed twice.
pub run_exit :
    {D : Type 0} (backend : Backend D) (Good : D → Type 0) (filter : Filter) (now : ℕ)
    → Sound backend Good
    → (turns : List (Turn D)) (d : D) → Good d
    → All (Keeps Good) turns
    → (s : Shell D) × (run backend (new_chain backend filter now) turns (new_shell d) ≡ ok s)
      × (s.shutdown_done_ch ≡ some_exit turns)
run_exit backend Good filter now sound turns d g h =
    let (s, e, stage) =
      run-Stage backend Good filter now sound turns (new_shell d) h
        (unfold new_shell in (g, refl, refl)) in
    (s, e, run_closed backend Good filter now (some_exit turns) s stage)
