-- ===== src/Mocker/Spec.antt =====
-- hw4/pkg/mocker/request_spec.go, response_spec.go and config_entry.go. `upper` is
-- `strings.ToUpper`, whose Unicode tables are not written out. A nil body and an empty one are the
-- same list of bytes; `has_body` tells them apart, as in the code.
pub mod Equality
pub mod Requests
use go_tasks.Prelude.{
  ℕ, zero, suc, ◌+◌, ◌≡◌, String, Bool, true, false, ◌&&◌, ◌||◌, not, Option, none, some, List, [],
  ◌∷◌, str_eq, ◌==◌, if◌then◌else◌, length, ◌++◌,
}
use go_tasks.Prelude.Int.{ℤ}
use go_tasks.Prelude.Maps.{Map, lookup, insert}
use go_tasks.Prelude.Text.{trim_space}

pub record RequestSpec : Type 0 where
  pub path : String
  pub query : Map (Map ℕ)
  pub method : String
  pub has_body : Bool
  pub body : List ℕ

pub record ResponseSpec : Type 0 where
  pub status_code : ℤ
  pub headers : Map (List String)
  pub has_body : Bool
  pub body : List ℕ

pub record ConfigEntry : Type 0 where
  pub request_spec : RequestSpec
  pub response_spec : ResponseSpec

abbrev or_zero : Option ℕ → ℕ
or_zero none = 0
or_zero (some n) = n

-- `freq[v]`, which is 0 for a missing key.
abbrev pub freq : String → Map ℕ → ℕ
freq v m = or_zero (lookup v m)

-- `freq[v]++` for each value.
unfoldable pub frequencies : List String → Map ℕ → Map ℕ
frequencies [] m = m
frequencies (v ∷ vs) m = frequencies vs (insert v (suc (freq v m)) m)

unfoldable pub build_query : Map (List String) → Map (Map ℕ) → Map (Map ℕ)
unfolding frequencies
build_query [] query = query
build_query ((key, vs) ∷ rest) query = build_query rest (insert key (frequencies vs []) query)

unfoldable pub new_request_spec :
    (String → String) → String → String → Map (List String) → Bool → List ℕ → RequestSpec
unfolding build_query
new_request_spec upper path method raw_query_params has_body body = record {
  path = path;
  query = build_query raw_query_params [];
  method = upper (trim_space method);
  has_body = has_body;
  body = if has_body then body else [];
}

-- Headers and body are copied.
unfoldable pub new_response_spec : ℤ → Map (List String) → Bool → List ℕ → ResponseSpec
new_response_spec status_code headers has_body body = record {
  status_code = status_code;
  headers = headers;
  has_body = has_body;
  body = body;
}

-- `bytes.Equal`.
unfoldable pub bytes_equal : List ℕ → List ℕ → Bool
bytes_equal [] [] = true
bytes_equal [] (y ∷ ys) = false
bytes_equal (x ∷ xs) [] = false
bytes_equal (x ∷ xs) (y ∷ ys) = x == y && bytes_equal xs ys

-- The inner loop of `Equals`.
unfoldable pub values_match : Map ℕ → Map ℕ → Bool
values_match [] other = true
values_match ((val, r_count) ∷ rest) other = freq val other == r_count && values_match rest other

-- The outer loop of `Equals`.
unfoldable pub query_match : Map (Map ℕ) → Map (Map ℕ) → Bool
unfolding values_match
query_match [] other = true
query_match ((key, r_values) ∷ rest) other = elim (lookup key other) [
  | none ↦ false
  | some other_values ↦
      length r_values == length other_values
      && values_match r_values other_values
      && query_match rest other
]

abbrev bool_eq : Bool → Bool → Bool
bool_eq true b = b
bool_eq false b = not b

unfoldable pub equals : RequestSpec → RequestSpec → Bool
unfolding query_match bytes_equal
equals r other =
    if not (str_eq r.method other.method) || not (str_eq r.path other.path)
    then false
    else if not (length r.query == length other.query)
    then false
    else if not (bool_eq r.has_body other.has_body)
    then false
    else if not (query_match r.query other.query)
    then false
    else if r.has_body && not (bytes_equal r.body other.body)
    then false
    else true

unfoldable pub matches : ConfigEntry → RequestSpec → Bool
unfolding equals
matches c request_spec = equals c.request_spec request_spec

-- `count` copies of a value.
unfoldable pub repeated : ℕ → String → List String → List String
repeated zero val values = values
repeated (suc n) val values = val ∷ repeated n val values

unfoldable pub expand : Map ℕ → List String
unfolding repeated
expand [] = []
expand ((val, n) ∷ rest) = repeated n val (expand rest)

unfoldable pub query_params_of : Map (Map ℕ) → Map (List String) → Map (List String)
unfolding expand
query_params_of [] out = out
query_params_of ((key, freq_map) ∷ rest) out =
    query_params_of rest (insert key (expand freq_map) out)

unfoldable pub query_params : RequestSpec → Map (List String)
unfolding query_params_of
query_params r = query_params_of r.query []
