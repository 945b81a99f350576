-- ===== src/Shell/Command.antt =====
-- hw3/internal/shell/commands/command.go: commands that are chained. A command's own state is part
-- of one state `S`, which `handle` and `suggest_arguments` may change. A chain is its first command
-- and the list of those that `next` leads to.
pub mod Chain
use Prim.Native.Char.{code}
use go_tasks.Prelude.{
  ◌≡◌, String, Bool, true, false, Option, none, some, List, [], ◌∷◌, ◌++◌, str_eq, ◌==◌,
  if◌then◌else◌,
}
use go_tasks.Prelude.Text.{strip_prefix, has_prefix}
use go_tasks.Prelude.Outcome.{Outcome, ok, Err, ◌>>=◌}

pub record Suggest : Type 0 where
  pub text : String
  pub description : String

-- `prompt.FilterHasPrefix`, case ignored or not, is of the prompt's library.
abbrev pub Filter : Type 0
Filter = List Suggest → String → Bool → List Suggest

pub record BaseCommand (S : Type 0) : Type 0 where
  pub name : String
  pub description : String
  pub matches : String → Bool
  pub handle : String → S → Outcome S
  pub suggest_arguments : List String → S → S × List Suggest

-- `strings.Split` at a blank: the first part and the others.
unfoldable pub words : String → String × List String
words String.[] = (String.[], [])
words (String.◌∷◌ c s) =
    let (first, others) = words s in
    if code c == 32 then (String.[], first ∷ others) else (String.◌∷◌ c first, others)

module _ {S : Type 0} where
  -- `WithNext` from the head on: the commands in the order in which they are chained.
  abbrev pub with_next : List (BaseCommand S) → BaseCommand S → List (BaseCommand S)
  with_next chain next = chain ++ next ∷ []

  -- The state and the error of `Handle`.
  unfoldable pub handle : List (BaseCommand S) → String → S → Outcome (S × Option Err)
  handle [] s state = ok (state, some "no such command")
  handle (cmd ∷ next) s state =
      let rest = handle next s state in
      if cmd.matches s then (do state' ← cmd.handle s state; ok (state', none)) else rest

  own_suggestions : BaseCommand S → String → S → S × List Suggest
  unfolding words strip_prefix
  own_suggestions cmd s state =
      let (first, others) = words s in
      if str_eq first cmd.name
      then cmd.suggest_arguments (first ∷ others) state
      else (if has_prefix cmd.name first
          then (state, record { text = cmd.name; description = cmd.description } ∷ [])
          else (state, []))

  -- The commands behind come first.
  unfoldable pub complete_prompt : List (BaseCommand S) → String → S → S × List Suggest
  unfolding own_suggestions
  complete_prompt [] s state = (state, [])
  complete_prompt (cmd ∷ next) s state =
      let (state', suggestions) = complete_prompt next s state in
      let (state'', own) = own_suggestions cmd s state' in (state'', suggestions ++ own)
