-- ===== src/Profiles/Examples.antt =====
-- Runs of the profile service (semestral/internal/profiles) on concrete input.
use go_tasks.Prelude.{
  ℕ, zero, suc, ◌≡◌, ◌≤◌, ◌==◌, refl, String, Bool, true, false, ◌&&◌, Option, none, some, List, [],
  ◌∷◌, arith, str_eq, eq_iff, if◌then◌else◌, Bool-cases, inl, inr,
}
use go_tasks.Prelude.Maps.{lookup}
use go_tasks.Prelude.Outcome.{Failable, value, failure}
use go_tasks.Prelude.Tables.{count, select}
use go_tasks.Profiles.Tokens.{
  MessengerClaims, access_token_type, Tokens, refresh_claims, access_claims, validate_token,
  build_tokens,
}
use go_tasks.Prelude.Text.{strip_prefix}
use go_tasks.Profiles.Interceptor.{
  is_public_method, authorization_interceptor, extract_and_verify_claims, runs,
  authorization_interceptor_claims,
}
use go_tasks.Profiles.Repository
use go_tasks.Profiles.Repository.{Profile, new_row, call}
use go_tasks.Profiles.Service.{
  Env, ProfileService, new_profile_service, reply, status, unauthenticated, Request, registers,
  renames, serve_all, login, refresh,
}
use go_tasks.Profiles.Service.Refreshing.{refresh_once}
use go_tasks.Profiles.Service.Sessions.{login_refresh}
use go_tasks.Profiles.Service.Uniqueness.{serve_all_unique}
use go_tasks.Profiles.Service.Registration.{is_named}

-- An id is written as that many strokes.
strokes : ℕ → String
strokes zero = ""
strokes (suc n) = String.◌∷◌ "x" (strokes n)

count_strokes : String → ℕ
count_strokes String.[] = 0
count_strokes (String.◌∷◌ c s) = suc (count_strokes s)

count_strokes-strokes : (n : ℕ) → some (count_strokes (strokes n)) ≡ some n
unfolding strokes count_strokes
count_strokes-strokes zero = refl
count_strokes-strokes (suc n) = ground (arith, count_strokes-strokes n)

abbrev claims_eq : MessengerClaims → MessengerClaims → Bool
claims_eq c d =
    str_eq c.token_type d.token_type
    && str_eq c.subject d.subject
    && str_eq c.issuer d.issuer
    && str_eq c.id d.id
    && c.issued_at == d.issued_at
    && c.expires_at == d.expires_at

claims_eq_iff : (c d : MessengerClaims) → claims_eq c d ≡ true → c ≡ d
claims_eq_iff c d h = ground (
  arith,
  eq_iff c.token_type d.token_type,
  eq_iff c.subject d.subject,
  eq_iff c.issuer d.issuer,
  eq_iff c.id d.id,
)

-- The tokens of the user with three strokes.
abbrev access_of : MessengerClaims
access_of = access_claims "xxx" "me" 100

abbrev refresh_of : MessengerClaims
refresh_of = refresh_claims "xxx" "me" "j1" 100

-- A library that signs these two claims, and one that signs anything.
abbrev sign_two : MessengerClaims → Failable String
sign_two c =
    if claims_eq c access_of
    then value "a"
    else if claims_eq c refresh_of
    then value "r"
    else failure "no key"

abbrev sign_all : MessengerClaims → Failable String
sign_all c = value "s"

abbrev parse_two : String → Option MessengerClaims
parse_two text =
    if str_eq text "a" then some access_of else if str_eq text "r" then some refresh_of else none

r_a : str_eq "r" "a" ≡ false
unfolding str_eq
r_a = refl

parse_two-sign_two :
    (c : MessengerClaims) (text : String) → sign_two c ≡ value text → parse_two text ≡ some c
parse_two-sign_two c text h = elim (Bool-cases (claims_eq c access_of)) [
  | inl a ↦ ground (arith, claims_eq_iff c access_of a, eq_iff text "a")
  | inr a ↦ elim (Bool-cases (claims_eq c refresh_of)) [
    | inl r ↦ ground (arith, claims_eq_iff c refresh_of r, eq_iff text "r", r_a)
    | inr r ↦ absurd (ground arith)
  ]
]

abbrev at_login : Env
at_login = record {
  claims = none;
  now = 100;
  jti = "j1";
  repo = none;
  issuer = "me";
  sign = sign_two;
  parse = parse_two;
  hash = λ p. value p;
  compare_hash = λ h p. true;
  show_id = strokes;
  parse_id = λ s. some (count_strokes s);
}

abbrev later : Env
later = record at_login { now = 200; jti = "j2"; sign = sign_all }

-- One user, with the id 3.
abbrev one_user : ProfileService
one_user = record {
  table = record { rows = new_row 3 "ann" [] ∷ []; seq = 3 };
  active_refresh_tokens = [];
}

abbrev two_tokens : Tokens
two_tokens = record { access = "a"; refresh = "r"; jti = "j1" }

logged_in : (login at_login "xxx" [] one_user).1 ≡ reply two_tokens
unfolding login Repository.get_profile_by_user_id call select build_tokens strokes count_strokes
    str_eq
logged_in = refl

login_refresh_example :
    (t' : Tokens) × ((refresh later "r" (login at_login "xxx" [] one_user).0).1 ≡ reply t')
login_refresh_example =
    login_refresh at_login later "xxx" [] two_tokens one_user logged_in refl refl (omega arith)
      (omega arith) (λ c text h from until. parse_two-sign_two c text h) count_strokes-strokes
      (λ c. ("s", refl))

-- The refresh token of the user is active.
abbrev with_token : ProfileService
with_token = record one_user { active_refresh_tokens = ("j1", "xxx") ∷ [] }

abbrev new_tokens : Tokens
new_tokens = record { access = "s"; refresh = "s"; jti = "j2" }

accepted : (refresh later "r" with_token).1 ≡ reply new_tokens
unfolding refresh validate_token Repository.get_profile_by_user_id call select build_tokens strokes
    count_strokes str_eq lookup
accepted = refl

abbrev between : List (Env × Request)
between = (record later { jti = "j3" }, registers "bob" []) ∷ []

refresh_once_example :
    refresh later "r" (serve_all between (refresh later "r" with_token).0)
    ≡ (serve_all between (refresh later "r" with_token).0, status unauthenticated)
unfolding validate_token str_eq
refresh_once_example =
    refresh_once later later "r" refresh_of new_tokens between with_token refl accepted refl
      (refl, tt) (λ c' e. ground arith)

abbrev requests : List (Env × Request)
requests =
    (later, registers "annabel" (1 ∷ 2 ∷ 3 ∷ 4 ∷ 5 ∷ 6 ∷ 7 ∷ 8 ∷ []))
    ∷ (record later { claims = some "x" }, renames "bob" "hi")
    ∷ []

serve_all_unique_example :
    (count (is_named "bob") (serve_all requests new_profile_service).table.rows ≤ 1)
    × (count (λ p. p.user_id == 3) (serve_all requests new_profile_service).table.rows ≤ 1)
serve_all_unique_example = serve_all_unique requests "bob" 3

abbrev one_call : Option (List String)
one_call = some ("Bearer a" ∷ [])

not_public : is_public_method "/Messaging/SendMessage" [] ≡ false
unfolding is_public_method strip_prefix lookup
not_public = refl

let_in :
    authorization_interceptor parse_two "me" [] "/Messaging/SendMessage" one_call
    ≡ runs (some access_of)
unfolding authorization_interceptor is_public_method strip_prefix lookup extract_and_verify_claims
    validate_token str_eq
let_in = refl

authorization_interceptor_claims_example :
    (c : MessengerClaims) × (some access_of ≡ some c)
    × (token : String) × (parse_two token ≡ some c)
    × (c.token_type ≡ access_token_type)
    × (c.issuer ≡ "me")
authorization_interceptor_claims_example =
    authorization_interceptor_claims parse_two "me" [] "/Messaging/SendMessage" one_call
      (some access_of) not_public let_in
