-- ===== src/Profiles/Service.antt =====
-- semestral/internal/profiles/service.go. The claims of the caller, the clock, the fresh JTI, the
-- faults of the driver, bcrypt, the JWT library and the two readings of ids are arguments. The
-- claims are those that the auth interceptor put into the context. Logging is left out.
pub mod Refreshing
pub mod Sessions
pub mod Registration
pub mod Uniqueness
use go_tasks.Prelude.{
  ℕ, ◌≡◌, String, Bool, true, false, ◌&&◌, ◌||◌, not, Option, none, some, List, [], ◌∷◌, str_eq,
  ltb, length, if◌then◌else◌,
}
use go_tasks.Prelude.Maps.{Map, lookup, insert, delete}
use go_tasks.Prelude.Outcome.{Failable, value, failure, Err}
use go_tasks.Prelude.Tables.{any}
use go_tasks.Prelude.Text.{trim_space, byte_length, is_nil}
use go_tasks.Profiles.Tokens.{
  MessengerClaims, Tokens, refresh_token_type, build_tokens, validate_token,
}
use go_tasks.Profiles.Repository
use go_tasks.Profiles.Repository.{Table, Profile, Fault, empty_table, unique_constraint_violated}

pub data Code : Type 0 where
  unauthenticated invalid_argument not_found already_exists internal : Code

pub data Rpc {ℓ} (A : Type ℓ) : Type ℓ where
  reply : A → Rpc A
  status : Code → Rpc A

-- What surrounds a call.
pub record Env : Type 0 where
  pub claims : Option String
  pub now : ℕ
  pub jti : String
  pub repo : Fault
  pub issuer : String
  pub sign : MessengerClaims → Failable String
  pub parse : String → Option MessengerClaims
  pub hash : List ℕ → Failable (List ℕ)
  pub compare_hash : List ℕ → List ℕ → Bool
  pub show_id : ℕ → String
  pub parse_id : String → Option ℕ

-- The table of profiles, and the service's map from the JTI of a refresh token to its user.
pub record ProfileService : Type 0 where
  pub table : Table
  pub active_refresh_tokens : Map String

unfoldable pub new_profile_service : ProfileService
new_profile_service = record { table = empty_table; active_refresh_tokens = [] }

abbrev pub Handler : Type 0 → Type 0
Handler A = ProfileService → ProfileService × Rpc A

abbrev pub or_status : {A : Type 0} → Failable A → Code → Rpc A
or_status (value a) c = reply a
or_status (failure e) c = status c

abbrev pub good_username : String → Bool
good_username s = not (ltb (byte_length s) 3 || ltb 32 (byte_length s))

-- The code of an error of a write: the conflict of names has its own.
abbrev write_status : {A : Type 0} → Failable A → Rpc A
write_status (value a) = reply a
write_status (failure e) =
    if str_eq e unique_constraint_violated then status already_exists else status internal

-- The reply is the number of the new row, of which the code sends the text.
unfoldable pub register_profile : Env → String → List ℕ → Handler ℕ
register_profile env username password s =
    let trimmed_username = trim_space username in
    if not (good_username trimmed_username)
    then (s, status invalid_argument)
    else if ltb (length password) 8 || ltb 72 (length password)
    then (s, status invalid_argument)
    else elim (env.hash password) [
      | failure e ↦ (s, status internal)
      | value hash ↦
          let (table, r) = Repository.insert_profile env.repo trimmed_username hash s.table in
          (record s { table = table }, write_status r)
    ]

-- A pair of tokens for the user, whose refresh token is active from now on.
unfoldable pub build_user_tokens : Env → String → Handler Tokens
build_user_tokens env user_id s = elim (build_tokens env.sign user_id env.issuer env.jti env.now) [
  | failure e ↦ (s, status internal)
  | value tokens ↦ (
    record s { active_refresh_tokens = insert tokens.jti user_id s.active_refresh_tokens },
    reply tokens,
  )
]

unfoldable pub login : Env → String → List ℕ → Handler Tokens
unfolding build_user_tokens
login env user_id password s =
    elim (Repository.get_profile_by_user_id env.parse_id env.repo user_id s.table) [
      | failure e ↦ (s, status not_found)
      | value p ↦
          if env.compare_hash p.password password
          then build_user_tokens env (env.show_id p.user_id) s
          else (s, status unauthenticated)
    ]

-- `exists && expectedUserId == userId`
abbrev is_owner : Option String → String → Bool
is_owner none user_id = false
is_owner (some expected) user_id = str_eq expected user_id

unfoldable pub refresh : Env → String → Handler Tokens
unfolding build_user_tokens
refresh env refresh_token s =
    elim (validate_token env.parse refresh_token env.issuer refresh_token_type) [
      | failure e ↦ (s, status unauthenticated)
      | value claims ↦
          let tokens = s.active_refresh_tokens in
          if not (is_owner (lookup claims.id tokens) claims.subject)
          then (s, status unauthenticated)
          else let s' = record s { active_refresh_tokens = delete claims.id tokens } in
            elim (Repository.get_profile_by_user_id env.parse_id env.repo claims.subject s.table) [
              | failure e ↦ (s', status internal)
              | value p ↦ build_user_tokens env (env.show_id p.user_id) s'
            ]
    ]

-- What `GetUserProfile` shows; `online` is the status.
pub record UserProfile : Type 0 where
  pub user_id : String
  pub username : String
  pub bio : String
  pub online : Bool

abbrev to_user_profile : Env → Failable Profile → Rpc UserProfile
to_user_profile env (failure e) = status not_found
to_user_profile env (value p) = reply (record {
  user_id = env.show_id p.user_id;
  username = p.username;
  bio = p.bio;
  online = str_eq p.status "online";
})

unfoldable pub get_user_profile : Env → String → Handler UserProfile
get_user_profile env user_id s = elim env.claims [
  | none ↦ (s, status unauthenticated)
  | some _ ↦ (
    s,
    to_user_profile env (Repository.get_profile_by_user_id env.parse_id env.repo user_id s.table),
  )
]

unfoldable pub update_status : Env → Bool → Handler (Unit {0})
update_status env online s = elim env.claims [
  | none ↦ (s, status unauthenticated)
  | some user_id ↦
      let (table, r) =
        Repository.update_status env.parse_id env.repo user_id
          (if online then "online" else "offline") s.table in
      (record s { table = table }, or_status r internal)
]

unfoldable pub update_user_profile : Env → String → String → Handler (Unit {0})
update_user_profile env username bio s = elim env.claims [
  | none ↦ (s, status unauthenticated)
  | some user_id ↦
      let trimmed_username = trim_space username in
      if not (good_username trimmed_username)
      then (s, status invalid_argument)
      else let (table, r) =
          Repository.update_profile env.parse_id env.repo user_id trimmed_username bio s.table in
        (record s { table = table }, write_status r)
]

-- The ids without the empty one and without repetitions.
unfoldable pub clean_ids : List String → List String → List String
clean_ids seen [] = []
clean_ids seen (id ∷ ids) =
    let kept = not (any (λ x. str_eq x id) seen) && not (is_nil id) in
    let rest = clean_ids (if kept then id ∷ seen else seen) ids in if kept then id ∷ rest else rest

unfoldable pub verify_users : Env → List String → Handler (List String)
unfolding clean_ids
verify_users env user_ids s = elim env.claims [
  | none ↦ (s, status unauthenticated)
  | some _ ↦ (
    s,
    or_status
        (Repository.check_users_exist env.parse_id env.show_id env.repo (clean_ids [] user_ids)
          s.table)
        internal,
  )
]

-- A request of a client, with its fields.
pub data Request : Type 0 where
  registers : String → List ℕ → Request
  logs_in : String → List ℕ → Request
  refreshes : String → Request
  shows : String → Request
  sets_status : Bool → Request
  renames : String → String → Request
  verifies : List String → Request

-- The state after the request.
unfoldable pub serve : Env → Request → ProfileService → ProfileService
serve env (registers username password) s = (register_profile env username password s).0
serve env (logs_in user_id password) s = (login env user_id password s).0
serve env (refreshes token) s = (refresh env token s).0
serve env (shows user_id) s = (get_user_profile env user_id s).0
serve env (sets_status online) s = (update_status env online s).0
serve env (renames username bio) s = (update_user_profile env username bio s).0
serve env (verifies ids) s = (verify_users env ids s).0

unfoldable pub serve_all : List (Env × Request) → ProfileService → ProfileService
serve_all [] s = s
serve_all ((env, r) ∷ rest) s = serve_all rest (serve env r s)
