-- ===== src/Profiles/Tokens.antt =====
-- semestral/internal/auth: claims.go, tokens.go and server_middleware.go. The JWT library is an
-- argument: `sign` signs claims, and `parse` gives the claims of a text whose signature, signing
-- method and times it accepts.
use go_tasks.Prelude.{ℕ, ◌+◌, ◌*◌, String, ◌||◌, not, Option, none, some, str_eq, if◌then◌else◌}
use go_tasks.Prelude.Outcome.{Failable, value, failure, Err, bind_failable}

pub record MessengerClaims : Type 0 where
  pub token_type : String
  pub subject : String
  pub issuer : String
  pub id : String
  pub issued_at : ℕ
  pub expires_at : ℕ

abbrev pub access_token_type : String
access_token_type = "access"

abbrev pub refresh_token_type : String
refresh_token_type = "refresh"

abbrev pub error_invalid_token : Err
error_invalid_token = "invalid token"

abbrev pub hour : ℕ
hour = 3600

abbrev pub refresh_claims : String → String → String → ℕ → MessengerClaims
refresh_claims user_id issuer jti now = record {
  token_type = refresh_token_type;
  subject = user_id;
  issuer = issuer;
  id = jti;
  issued_at = now;
  expires_at = now + 24 * 7 * hour;
}

abbrev pub access_claims : String → String → ℕ → MessengerClaims
access_claims user_id issuer now = record {
  token_type = access_token_type;
  subject = user_id;
  issuer = issuer;
  id = "";
  issued_at = now;
  expires_at = now + 1 * hour;
}

pub record Tokens : Type 0 where
  pub access : String
  pub refresh : String
  pub jti : String

-- The fresh JTI and the time, in seconds, are arguments.
unfoldable pub build_tokens :
    (MessengerClaims → Failable String) → String → String → String → ℕ → Failable Tokens
build_tokens sign user_id issuer jti now =
    bind_failable (sign (access_claims user_id issuer now)) (λ access.
      bind_failable (sign (refresh_claims user_id issuer jti now))
        (λ refresh. value (record { access = access; refresh = refresh; jti = jti })))

unfoldable pub validate_token :
    (String → Option MessengerClaims) → String → String → String → Failable MessengerClaims
validate_token parse token issuer token_type = elim (parse token) [
  | none ↦ failure error_invalid_token
  | some claims ↦
      if not (str_eq claims.token_type token_type) || not (str_eq claims.issuer issuer)
      then failure error_invalid_token
      else value claims
]
