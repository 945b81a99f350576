-- ===== src/Shell/Commands/Dispatch.antt =====
-- Which command handles a line (`Handle` of hw3/internal/shell/commands/command.go), for the chain of
-- the shell.
use go_tasks.Prelude.{
  ℕ, ◌≤◌, ◌≡◌, refl, String, true, Option, none, some, List, [], ◌∷◌, is_some, arith, Bool-cases,
  Option-cases, inl, inr, All,
}
use go_tasks.Prelude.Outcome.{Outcome, ok, Failable, value, failure, Failable-cases, Err}
use go_tasks.Shell.Pattern.{match_cancel, match_status, match_download}
use go_tasks.Shell.Pattern.Disjoint.{download_not_status, download_not_cancel, status_not_cancel}
use mathlib.Core.List.{Permᴰ}
use go_tasks.Shell.Command.{BaseCommand, Filter, handle}
use go_tasks.Shell.Command.Chain.{matching, handle-Perm}
use go_tasks.Prelude.Tables.{count}
use go_tasks.Shell.Commands.{
  Backend, Shell, cancel_handle, status_handle, download_handle, new_chain, new_download_command,
  new_status_command, new_cancel_command, cancel_matched, status_matched, download_matched,
}

-- What the shell relies on: in a good state of the downloader every call returns, and leaves it good
-- but for the shutdown.
pub record Sound {D : Type 0} (backend : Backend D) (Good : D → Type 0) : Type 0 where
  pub submits :
      (url destination : String) (d : D)
      → Good d
      → (d' : D) × (r : Failable String) × (backend.submit_download url destination d ≡ ok (d', r))
        × Good d'
  pub cancels : (id : String) (d : D) → Good d → Good (backend.cancel_download id d).0
  pub shuts : (d : D) → Good d → (d' : D) × (backend.shutdown d ≡ ok d')

-- A result that is a state with a good downloader and the same fields of the exit.
pub record Calm {D : Type 0} (Good : D → Type 0) (s : Shell D) (r : Outcome (Shell D))
    : Type 0 where
  pub after : Shell D
  pub returns : r ≡ ok after
  pub good : Good after.downloader
  pub same_shutdown : after.shutdown ≡ s.shutdown
  pub same_done : after.shutdown_done_ch ≡ s.shutdown_done_ch

calm :
    {D : Type 0} {Good : D → Type 0} (s after : Shell D) {r : Outcome (Shell D)}
    → Good after.downloader
    → r ≡ ok after
    → after.shutdown ≡ s.shutdown
    → after.shutdown_done_ch ≡ s.shutdown_done_ch
    → Calm Good s r
calm s after g e p q = record {
  after = after;
  returns = e;
  good = g;
  same_shutdown = p;
  same_done = q;
}

module _ {D : Type 0} (backend : Backend D) (Good : D → Type 0) where
  -- The command handles what it matches, and leaves the exit alone.
  abbrev pub IsCalm : BaseCommand (Shell D) → Type 0
  IsCalm cmd =
      (t : String) (s : Shell D)
      → Good s.downloader
      → cmd.matches t ≡ true
      → Calm Good s (cmd.handle t s)

  pub handle-Calm :
      (chain : List (BaseCommand (Shell D))) (t : String) (s : Shell D)
      → Good s.downloader
      → All IsCalm chain
      → (after : Shell D) × (err : Option Err) × (handle chain t s ≡ ok (after, err))
        × Good after.downloader
        × (after.shutdown ≡ s.shutdown)
        × (after.shutdown_done_ch ≡ s.shutdown_done_ch)
  unfolding handle
  handle-Calm [] t s g h = (s, _, refl, g, refl, refl)
  handle-Calm (cmd ∷ chain) t s g (c, h) = elim (Bool-cases (cmd.matches t)) [
    | inr e ↦ rw e (handle-Calm chain t s g h)
    | inl e ↦
        let it = c t s g e in
        (it.after, none, rw (e, it.returns) refl, it.good, it.same_shutdown, it.same_done)
  ]

  cancel_matched-Calm :
      Sound backend Good
      → (id : String) (s : Shell D) → Good s.downloader
      → Calm Good s (cancel_matched backend (some id) s)
  cancel_matched-Calm sound id s g =
      elim (Option-cases (backend.cancel_download id s.downloader).1) [
        | inl f ↦ rw (cancel_matched, f) (calm s _ (sound.cancels id s.downloader g) refl refl refl)
        | inr (err, f) ↦
            rw (cancel_matched, f) (calm s _ (sound.cancels id s.downloader g) refl refl refl)
      ]

  cancel-Calm :
      Sound backend Good
      → (filter : Filter) (now : ℕ) → IsCalm (new_cancel_command backend filter now)
  unfolding cancel_handle
  cancel-Calm sound filter now t s g m = elim (Option-cases (match_cancel t)) [
    | inl e ↦ absurd (ground (arith, e, m))
    | inr (id, e) ↦ rw e (cancel_matched-Calm sound id s g)
  ]

  status_matched-Calm :
      (asked : Option String) (s : Shell D)
      → Good s.downloader
      → Calm Good s (status_matched backend (some asked) s)
  status_matched-Calm none s g = calm s _ g refl refl refl
  status_matched-Calm (some id) s g = elim (Failable-cases (backend.get_download id s.downloader)) [
    | inl (err, f) ↦ rw (status_matched, f) (calm s _ g refl refl refl)
    | inr (view, f) ↦ rw (status_matched, f) (calm s _ g refl refl refl)
  ]

  status-Calm : (filter : Filter) → IsCalm (new_status_command backend filter)
  unfolding status_handle
  status-Calm filter t s g m = elim (Option-cases (match_status t)) [
    | inl e ↦ absurd (ground (arith, e, m))
    | inr (asked, e) ↦ rw e (status_matched-Calm asked s g)
  ]

  download_matched-Calm :
      (fields : String × String) (s : Shell D) (d : D) (result : Failable String)
      → backend.submit_download fields.0 fields.1 s.downloader ≡ ok (d, result)
      → Good d
      → Calm Good s (download_matched backend (some fields) s)
  download_matched-Calm fields s d (failure err) f g =
      rw (download_matched, f) (calm s _ g refl refl refl)
  download_matched-Calm fields s d (value id) f g =
      rw (download_matched, f) (calm s _ g refl refl refl)

  download-Calm :
      Sound backend Good → (filter : Filter) → IsCalm (new_download_command backend filter)
  unfolding download_handle
  download-Calm sound filter t s g m = elim (Option-cases (match_download t)) [
    | inl e ↦ absurd (ground (arith, e, m))
    | inr (fields, e) ↦
        let (d, result, f, g') = sound.submits fields.0 fields.1 s.downloader g in
        rw e (download_matched-Calm fields s d result f g')
  ]

  pub new_chain-Calm :
      Sound backend Good → (filter : Filter) (now : ℕ) → All IsCalm (new_chain backend filter now)
  new_chain-Calm sound filter now =
      (download-Calm sound filter, (status-Calm filter, (cancel-Calm sound filter now, tt)))

module _ {D : Type 0} (backend : Backend D) where
  new_chain-matching :
      (filter : Filter) (now : ℕ) (t : String) → matching t (new_chain backend filter now) ≤ 1
  unfolding count
  new_chain-matching filter now t = elim (Bool-cases (is_some (match_download t))) [
    | inl e ↦ rw (e, download_not_status t e, download_not_cancel t e) (omega arith)
    | inr e ↦ elim (Bool-cases (is_some (match_status t))) [
      | inl f ↦ rw (e, f, status_not_cancel t f) (omega arith)
      | inr f ↦ rw (e, f) (ground arith)
    ]
  ]

-- The order in which the shell chains its three commands does not matter: in any other order they
-- do and print the same on every line.
pub handle_any_order :
    {D : Type 0} (backend : Backend D) (filter : Filter) (now : ℕ)
    (chain : List (BaseCommand (Shell D)))
    → Permᴰ (new_chain backend filter now) chain
    → (t : String) (s : Shell D) → handle (new_chain backend filter now) t s ≡ handle chain t s
handle_any_order backend filter now chain p t s =
    handle-Perm t s (new_chain backend filter now) chain p (new_chain-matching backend filter now t)
