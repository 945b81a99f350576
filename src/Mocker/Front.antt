-- ===== src/Mocker/Front.antt =====
-- hw4/internal/handler: management_service.go and mock_http_handler.go. A response is what the
-- handler writes. `net/url`, `strings.ToUpper` and the canonical form of header names are arguments:
-- `parse_url` gives the escaped path and the query parameters of a text. Logging is left
-- out, and so is what `net/http` does with a status code outside its range.
pub mod Bodies
use go_tasks.Prelude.{
  ℕ, ltb, ◌≡◌, String, Bool, true, false, Option, none, some, List, [], ◌∷◌, map, is_some, length,
  if◌then◌else◌,
}
use go_tasks.Prelude.Int.{ℤ, pos}
use go_tasks.Prelude.Maps.{Map, lookup, insert, delete}
use go_tasks.Prelude.Outcome.{Failable, value, failure, Err}
use go_tasks.Mocker.Spec.{
  RequestSpec, ResponseSpec, ConfigEntry, new_request_spec, new_response_spec, query_params,
}
use go_tasks.Mocker.Engine
use go_tasks.Mocker.Engine.{
  HttpMocker, MockError, no_configuration_exists, method_not_supported, specification_differs,
  path_not_registered, method_not_registered, Reply, found, refused,
}

pub record SetReplyRequest : Type 0 where
  pub path : String
  pub method : String
  pub request_body : Option (List ℕ)
  pub status_code : ℤ
  pub response_body : Option (List ℕ)
  pub response_headers : Map (List String)

abbrev bytes_of : Option (List ℕ) → List ℕ
bytes_of none = []
bytes_of (some b) = b

unfoldable pub to_request_spec :
    (String → String)
    → (String → Failable (String × Map (List String)))
    → SetReplyRequest
    → Failable RequestSpec
to_request_spec upper parse_url r = elim (parse_url r.path) [
  | failure e ↦ failure e
  | value u ↦
      value
        (new_request_spec upper u.0 r.method u.1 (is_some r.request_body) (bytes_of r.request_body))
]

unfoldable pub to_response_spec : SetReplyRequest → ResponseSpec
to_response_spec r =
    new_response_spec r.status_code r.response_headers (is_some r.response_body)
      (bytes_of r.response_body)

-- The new state, and whether the call ended without the code InvalidArgument.
unfoldable pub set_reply :
    (String → String)
    → (String → Failable (String × Map (List String)))
    → SetReplyRequest
    → HttpMocker
    → HttpMocker × Bool
unfolding to_request_spec to_response_spec
set_reply upper parse_url r m = elim (to_request_spec upper parse_url r) [
  | failure e ↦ (m, false)
  | value request_spec ↦
      let (m', err) = Engine.set_reply upper request_spec (to_response_spec r) m in
      (m', if is_some err then false else true)
]

pub record RequestSpecMessage : Type 0 where
  pub path : String
  pub method : String
  pub query : Map (List String)
  pub body : Option (List ℕ)

pub record ResponseSpecMessage : Type 0 where
  pub status_code : ℤ
  pub headers : Map (List String)
  pub body : Option (List ℕ)

unfoldable pub to_request_spec_message : RequestSpec → RequestSpecMessage
to_request_spec_message spec = record {
  path = spec.path;
  method = spec.method;
  query = query_params spec;
  body = if spec.has_body then some spec.body else none;
}

unfoldable pub to_response_spec_message : ResponseSpec → ResponseSpecMessage
to_response_spec_message spec = record {
  status_code = spec.status_code;
  headers = spec.headers;
  body = if spec.has_body then some spec.body else none;
}

unfoldable pub dump_database : HttpMocker → List (RequestSpecMessage × ResponseSpecMessage)
unfolding to_request_spec_message to_response_spec_message
dump_database m =
    map (λ e. (to_request_spec_message e.request_spec, to_response_spec_message e.response_spec))
      (Engine.dump_configuration m)

unfoldable pub clear_database : HttpMocker → HttpMocker
clear_database m = Engine.clear_configuration m

unfoldable pub list_requests : HttpMocker → List RequestSpecMessage
unfolding to_request_spec_message
list_requests m = map to_request_spec_message (Engine.list_requests m)

-- An incoming request; reading its body may fail.
pub record HttpRequest : Type 0 where
  pub escaped_path : String
  pub method : String
  pub params : Map (List String)
  pub body : Failable (List ℕ)

-- `body` is what `Write` was called with, if it was.
pub record HttpResponse : Type 0 where
  pub status_code : ℤ
  pub headers : Map (List String)
  pub body : Option (List ℕ)

unfoldable pub parse_request : (String → String) → HttpRequest → Failable RequestSpec
parse_request upper r = elim r.body [
  | failure e ↦ failure e
  | value bytes ↦
      value (new_request_spec upper r.escaped_path r.method r.params (ltb 0 (length bytes)) bytes)
]

unfoldable pub map_to_status_code : MockError → ℤ
map_to_status_code no_configuration_exists = pos 501
map_to_status_code method_not_supported = pos 405
map_to_status_code specification_differs = pos 404
map_to_status_code method_not_registered = pos 404
map_to_status_code path_not_registered = pos 404

-- `Del` of the name, and `Add` of each value.
unfoldable pub write_headers :
    (String → String) → Map (List String) → Map (List String) → Map (List String)
write_headers canonical [] out = out
write_headers canonical ((key, []) ∷ rest) out =
    write_headers canonical rest (delete (canonical key) out)
write_headers canonical ((key, v ∷ vs) ∷ rest) out =
    write_headers canonical rest (insert (canonical key) (v ∷ vs) (delete (canonical key) out))

abbrev only_status : ℤ → HttpResponse
only_status n = record { status_code = n; headers = []; body = none }

respond : (String → String) → Reply → HttpResponse
respond canonical (refused e) = only_status (map_to_status_code e)
respond canonical (found spec) = record {
  status_code = spec.status_code;
  headers = write_headers canonical spec.headers [];
  body = if spec.has_body then some spec.body else none;
}

unfoldable pub serve_http :
    (String → String) → (String → String) → HttpRequest → HttpMocker → HttpMocker × HttpResponse
unfolding parse_request respond map_to_status_code write_headers
serve_http upper canonical r m = elim (parse_request upper r) [
  | failure e ↦ (m, only_status (pos 400))
  | value request_spec ↦
      let (m', reply) = Engine.serve upper request_spec m in (m', respond canonical reply)
]
