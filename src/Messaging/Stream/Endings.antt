-- ===== src/Messaging/Stream/Endings.antt =====
-- How the stream of semestral/internal/messaging/service.go ends.
use go_tasks.Prelude.{
  ◌≡◌, String, Bool, true, false, ◌&&◌, Option, none, some, List, [], ◌∷◌, ◌++◌, if◌then◌else◌,
}
use go_tasks.Messaging.Handler.{internal}
use go_tasks.Messaging.Repository
use go_tasks.Messaging.Repository.{call}
use go_tasks.Messaging.Stream.{Effect, sends, begins, ends, sets_status, Ending, refused}

abbrev pub is_sends : Effect → Bool
is_sends (sends x) = true
is_sends begins = false
is_sends ends = false
is_sends (sets_status online) = false

abbrev pub all_sends : List Effect → Bool
all_sends [] = true
all_sends (e ∷ es) = is_sends e && all_sends es

-- What an ended stream has done.
abbrev pub StreamEnd : Option String → Bool → List Effect × Ending → Type 0
StreamEnd none is_invisible (effects, ending) = (effects ≡ []) × (ending ≡ refused internal)
StreamEnd (some user) is_invisible (effects, ending) =
    (es : List Effect) × (all_sends es ≡ true)
    × (effects
        ≡ (if is_invisible then [] else sets_status true ∷ [])
          ++ begins ∷ (es ++ (ends ∷ sets_status false ∷ [])))
