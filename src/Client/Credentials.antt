-- ===== src/Client/Credentials.antt =====
-- semestral/internal/auth/client_middleware.go: the tokens that a client adds to its requests. The
-- method that adds them reads under the read lock, and goes on under the write lock only where the
-- token is expired, so it is two steps. The JWT library and the server's answer to a refresh are
-- arguments. The zero time is 0.
pub mod Refreshing
use go_tasks.Prelude.{
  ℕ, ◌≡◌, String, Bool, true, false, ◌&&◌, ◌||◌, not, Option, none, some, List, [], ◌∷◌, ltb,
  str_eq, if◌then◌else◌,
}
use go_tasks.Prelude.Outcome.{Failable, value, failure, Err}
use go_tasks.Profiles.Tokens.{MessengerClaims, validate_token, access_token_type}

pub record Credentials : Type 0 where
  pub user_id : String
  pub access_token : String
  pub refresh_token : String
  pub access_token_exp : ℕ
  pub issuer : String
  pub profile_client : Bool

unfoldable pub new_credentials : String → Credentials
new_credentials issuer = record {
  user_id = "";
  access_token = "";
  refresh_token = "";
  access_token_exp = 0;
  issuer = issuer;
  profile_client = false;
}

unfoldable pub set_profile_client : Credentials → Credentials
set_profile_client c = record c { profile_client = true }

unfoldable pub clear : Credentials → Credentials
clear c = record c { user_id = ""; access_token = ""; refresh_token = ""; access_token_exp = 0 }

-- What a request is sent with: nothing, a header, or it is not sent as the session is expired.
pub data Metadata : Type 0 where
  no_tokens : Metadata
  bearer : String → Metadata
  session_expired : Metadata

-- The answer to a refresh: an access and a refresh token.
abbrev pub Refresh : Type 0
Refresh = String → Failable (String × String)

module _ (parse : String → Option MessengerClaims) where
  unfoldable pub set_tokens : String → String → String → Credentials → Credentials × Option Err
  set_tokens user_id access refresh c =
      elim (validate_token parse access c.issuer access_token_type) [
        | failure e ↦ (c, some e)
        | value claims ↦ (
          record c {
            user_id = user_id;
            access_token = access;
            refresh_token = refresh;
            access_token_exp = claims.expires_at;
          },
          none,
        )
      ]

  -- Under the read lock; `none` where the token is expired.
  unfoldable pub read_tokens : ℕ → Credentials → Option Metadata
  read_tokens now c =
      if str_eq c.access_token ""
      then some no_tokens
      else (if ltb c.access_token_exp now then none else some (bearer c.access_token))

  unfoldable pub store_refreshed : Credentials → String × String → Credentials × Metadata
  store_refreshed c (access, refresh) =
      elim (validate_token parse access c.issuer access_token_type) [
        | failure e ↦ (clear c, session_expired)
        | value claims ↦ (
          record c {
            access_token = access;
            refresh_token = refresh;
            access_token_exp = claims.expires_at;
          },
          bearer access,
        )
      ]

  -- Under the write lock: the new state, the result, and the refresh token that was sent, if one was.
  unfoldable pub refresh_tokens : Refresh → ℕ → Credentials → Credentials × Metadata × Option String
  unfolding store_refreshed clear
  refresh_tokens refresh now c =
      if not (str_eq c.access_token "") && ltb now c.access_token_exp
      then (c, bearer c.access_token, none)
      else (if not c.profile_client || str_eq c.refresh_token "" || str_eq c.user_id ""
          then (clear c, session_expired, none)
          else elim (refresh c.refresh_token) [
            | failure e ↦ (clear c, session_expired, some c.refresh_token)
            | value tokens ↦
                let (c', metadata) = store_refreshed c tokens in
                (c', metadata, some c.refresh_token)
          ])

  -- The whole call, with what other goroutines do between the two locks.
  unfoldable pub get_request_metadata :
      Refresh → ℕ → (Credentials → Credentials) → ℕ → Credentials → Credentials × Metadata
  unfolding read_tokens refresh_tokens
  get_request_metadata refresh now between later c = elim (read_tokens now c) [
    | some metadata ↦ (c, metadata)
    | none ↦ let (c', metadata, sent) = refresh_tokens refresh later (between c) in (c', metadata)
  ]
