-- ===== src/Mocker/Examples.antt =====
-- Runs of the HTTP mocker (hw4) on concrete input.
use go_tasks.Prelude.{◌≡◌, refl, ◌↔◌, String, true, false, none, some, List, [], ◌∷◌}
use go_tasks.Prelude.Int.{pos}
use go_tasks.Prelude.Maps.{Map, lookup}
use go_tasks.Prelude.Outcome.{Failable, value}
use go_tasks.Mocker.Spec.{RequestSpec, ResponseSpec, ConfigEntry, equals, matches, new_request_spec}
use go_tasks.Mocker.Spec.Requests.{RawRequest, SameRequest, spec_of, equals-spec_of}
use go_tasks.Mocker.Engine.{serve, new_http_mocker, found, is_method_supported}
use go_tasks.Mocker.Engine.Runs.{sets, serves, clears, Op, run, latest, serve-run}
use go_tasks.Mocker.Front.{SetReplyRequest, HttpRequest, to_request_spec, parse_request}
use go_tasks.Mocker.Front.Bodies.{empty_body_unmatched}

-- Methods that are written in capitals already.
abbrev same_text : String → String
same_text s = s

abbrev raw : List String → RawRequest
raw vs = record {
  path = "/users";
  method = "GET";
  params = ("id", vs) ∷ [];
  has_body = false;
  body = [];
}

equals-spec_of_example :
    (equals (spec_of same_text (raw ("1" ∷ "2" ∷ []))) (spec_of same_text (raw ("2" ∷ "1" ∷ [])))
      ≡ true)
    ↔ SameRequest same_text (raw ("1" ∷ "2" ∷ [])) (raw ("2" ∷ "1" ∷ []))
equals-spec_of_example =
    equals-spec_of same_text (raw ("1" ∷ "2" ∷ [])) (raw ("2" ∷ "1" ∷ []))
      (unfold lookup in (refl, tt)) (unfold lookup in (refl, tt))

abbrev users : RequestSpec
users = spec_of same_text (raw ("1" ∷ []))

abbrev created : ResponseSpec
created = record { status_code = pos 201; headers = []; has_body = false; body = [] }

abbrev ops : List Op
ops = serves users ∷ sets users created ∷ clears ∷ sets users created ∷ []

serve-run_example :
    ((serve same_text users (run same_text ops new_http_mocker)).1 ≡ found created) ↔ (
      (is_method_supported same_text users.method ≡ true)
      × (e : ConfigEntry) × (latest same_text users.path users.method ops none ≡ some e)
      × (matches e users ≡ true)
      × (e.response_spec ≡ created))
serve-run_example = serve-run same_text ops users created

-- The path is taken as it is, with no parameters.
abbrev plain_url : String → Failable (String × Map (List String))
plain_url s = value (s, [])

abbrev with_empty_body : SetReplyRequest
with_empty_body = record {
  path = "/users";
  method = "POST";
  request_body = some [];
  status_code = pos 200;
  response_body = none;
  response_headers = [];
}

abbrev without_body : HttpRequest
without_body = record { escaped_path = "/users"; method = "POST"; params = []; body = value [] }

abbrev configured : RequestSpec
configured = new_request_spec same_text "/users" "POST" [] true []

abbrev incoming : RequestSpec
incoming = new_request_spec same_text "/users" "POST" [] false []

empty_body_unmatched_example : equals configured incoming ≡ false
empty_body_unmatched_example =
    empty_body_unmatched same_text plain_url with_empty_body without_body configured incoming refl
      (unfold to_request_spec in refl) (unfold parse_request in refl)
