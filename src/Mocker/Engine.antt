-- ===== src/Mocker/Engine.antt =====
-- hw4/pkg/mocker/http_mocker.go. Each method runs under its lock, so it is one step. `upper` is
-- `strings.ToUpper`.
pub mod Routes
pub mod Runs
use go_tasks.Prelude.{
  ℕ, ◌≡◌, String, Bool, true, false, ◌||◌, not, Option, none, some, List, [], ◌∷◌, ◌++◌, str_eq,
  if◌then◌else◌,
}
use go_tasks.Prelude.Maps.{Map, lookup, insert, values}
use go_tasks.Prelude.Text.{trim_space}
use go_tasks.Mocker.Spec.{RequestSpec, ResponseSpec, ConfigEntry, matches}

pub data MockError : Type 0 where
  no_configuration_exists method_not_supported specification_differs : MockError
  path_not_registered method_not_registered : MockError

pub data Reply : Type 0 where
  found : ResponseSpec → Reply
  refused : MockError → Reply

pub record HttpMocker : Type 0 where
  pub config_entries : Map (Map ConfigEntry)
  pub requests_history : List RequestSpec

unfoldable pub new_http_mocker : HttpMocker
new_http_mocker = record { config_entries = []; requests_history = [] }

-- Whether the text is a key of `supportedMethods`.
abbrev supported : String → Bool
supported s =
    str_eq s "GET" || str_eq s "POST" || str_eq s "PUT" || str_eq s "DELETE" || str_eq s "PATCH"

unfoldable pub is_method_supported : (String → String) → String → Bool
is_method_supported upper method = supported (upper (trim_space method))

abbrev pub or_empty : {A : Type 0} → Option (Map A) → Map A
or_empty none = []
or_empty (some m) = m

-- The new state, and the error if there is one.
unfoldable pub set_reply :
    (String → String) → RequestSpec → ResponseSpec → HttpMocker → HttpMocker × Option MockError
set_reply upper request_spec response_spec m =
    if not (is_method_supported upper request_spec.method)
    then (m, some method_not_supported)
    else let methods_map = or_empty (lookup request_spec.path m.config_entries) in
      let entry : ConfigEntry = record {
        request_spec = request_spec;
        response_spec = response_spec;
      } in
      (
        record m {
          config_entries =
              insert request_spec.path (insert request_spec.method entry methods_map)
                m.config_entries;
        },
        none,
      )

abbrev is_empty : Map (Map ConfigEntry) → Bool
is_empty [] = true
is_empty (e ∷ es) = false

-- The part of `Serve` that reads the configuration.
find_reply : RequestSpec → Map (Map ConfigEntry) → Reply
find_reply request_spec entries =
    if is_empty entries
    then refused no_configuration_exists
    else elim (lookup request_spec.path entries) [
      | none ↦ refused path_not_registered
      | some methods_map ↦ elim (lookup request_spec.method methods_map) [
        | none ↦ refused method_not_registered
        | some config_entry ↦
            if matches config_entry request_spec
            then found config_entry.response_spec
            else refused specification_differs
      ]
    ]

unfoldable pub serve : (String → String) → RequestSpec → HttpMocker → HttpMocker × Reply
unfolding find_reply
serve upper request_spec m = (
  record m { requests_history = m.requests_history ++ request_spec ∷ [] },
  if not (is_method_supported upper request_spec.method)
      then refused method_not_supported
      else find_reply request_spec m.config_entries,
)

-- The entries of all methods of all paths.
unfoldable pub all_entries : Map (Map ConfigEntry) → List ConfigEntry
all_entries [] = []
all_entries ((path, methods_map) ∷ rest) = values methods_map ++ all_entries rest

unfoldable pub dump_configuration : HttpMocker → List ConfigEntry
unfolding all_entries
dump_configuration m = all_entries m.config_entries

unfoldable pub clear_configuration : HttpMocker → HttpMocker
clear_configuration m = record m { config_entries = [] }

unfoldable pub list_requests : HttpMocker → List RequestSpec
list_requests m = m.requests_history
