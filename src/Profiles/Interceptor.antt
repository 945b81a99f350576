-- ===== src/Profiles/Interceptor.antt =====
-- semestral/internal/auth/server_middleware.go: the interceptor of unary calls, which that of streams
-- repeats. The values of the `authorization` header are an argument, `none` for a call without
-- metadata; so is the JWT library.
use go_tasks.Prelude.{
  ◌≡◌, String, Bool, false, ◌||◌, Option, none, some, List, [], ◌∷◌, arith, eq_iff, if◌then◌else◌,
  Option-cases, inl, inr,
}
use go_tasks.Prelude.Maps.{Map, lookup}
use go_tasks.Prelude.Text.{strip_prefix, has_prefix}
use go_tasks.Prelude.Outcome.{Failable, value, failure, Failable-cases}
use go_tasks.Profiles.Tokens.{MessengerClaims, validate_token, access_token_type}

abbrev or_whole : String → Option String → String
or_whole s none = s
or_whole s (some rest) = rest

abbrev trim_prefix : String → String → String
trim_prefix s prefix = or_whole s (strip_prefix prefix s)

abbrev or_false : Option Bool → Bool
or_false none = false
or_false (some b) = b

unfoldable pub is_public_method : String → Map Bool → Bool
unfolding strip_prefix
is_public_method full_method public_methods =
    or_false (lookup full_method public_methods)
    || has_prefix full_method "/grpc.reflection.v1alpha.ServerReflection/"
    || has_prefix full_method "/grpc.reflection.v1.ServerReflection/"

abbrev access_token_missing : String
access_token_missing = "access token missing"

unfoldable pub extract_and_verify_claims :
    (String → Option MessengerClaims) → String → Option (List String) → Failable MessengerClaims
unfolding strip_prefix
extract_and_verify_claims parse issuer none = failure access_token_missing
extract_and_verify_claims parse issuer (some []) = failure access_token_missing
extract_and_verify_claims parse issuer (some (header ∷ more)) =
    elim (validate_token parse (trim_prefix header "Bearer ") issuer access_token_type) [
      | failure e ↦ failure "invalid access token"
      | value claims ↦ value claims
    ]

-- Whether the handler runs, and with which claims in its context; a refused call is Unauthenticated.
pub data Verdict : Type 0 where
  runs : Option MessengerClaims → Verdict
  refuses : Verdict

unfoldable pub authorization_interceptor :
    (String → Option MessengerClaims) → String → Map Bool → String → Option (List String) → Verdict
unfolding is_public_method extract_and_verify_claims
authorization_interceptor parse issuer public_methods full_method md =
    if is_public_method full_method public_methods
    then runs none
    else elim (extract_and_verify_claims parse issuer md) [
      | failure e ↦ refuses
      | value claims ↦ runs (some claims)
    ]

validated :
    (parse : String → Option MessengerClaims) (token issuer kind : String) (c : MessengerClaims)
    → validate_token parse token issuer kind ≡ value c
    → (parse token ≡ some c) × (c.token_type ≡ kind) × (c.issuer ≡ issuer)
unfolding validate_token
validated parse token issuer kind c h = elim (Option-cases (parse token)) [
  | inl e ↦ absurd (ground arith)
  | inr (d, e) ↦ ground (arith, (eq_iff d.token_type kind).0, (eq_iff d.issuer issuer).0)
]

extracted :
    (parse : String → Option MessengerClaims) (issuer : String) (md : Option (List String))
    (c : MessengerClaims)
    → extract_and_verify_claims parse issuer md ≡ value c
    → (token : String) × (parse token ≡ some c)
      × (c.token_type ≡ access_token_type)
      × (c.issuer ≡ issuer)
unfolding extract_and_verify_claims
extracted parse issuer none c h = absurd (cc h)
extracted parse issuer (some []) c h = absurd (cc h)
extracted parse issuer (some (header ∷ more)) c h =
    let token = trim_prefix header "Bearer " in
    elim (Failable-cases (validate_token parse token issuer access_token_type)) [
      | inl (e, p) ↦ absurd (ground arith)
      | inr (d, p) ↦ (
        token,
        ground (arith, validated parse token issuer access_token_type d p),
        ground (arith, validated parse token issuer access_token_type d p),
        ground (arith, validated parse token issuer access_token_type d p),
      )
    ]

-- The handler of a method that is not public runs only with the claims of a token that the library
-- accepts, that is an access token, not a refresh token, and that has the right issuer.
pub authorization_interceptor_claims :
    (parse : String → Option MessengerClaims) (issuer : String) (public_methods : Map Bool)
    (full_method : String) (md : Option (List String)) (found : Option MessengerClaims)
    → is_public_method full_method public_methods ≡ false
    → authorization_interceptor parse issuer public_methods full_method md ≡ runs found
    → (c : MessengerClaims) × (found ≡ some c)
      × (token : String) × (parse token ≡ some c)
      × (c.token_type ≡ access_token_type)
      × (c.issuer ≡ issuer)
unfolding authorization_interceptor
authorization_interceptor_claims parse issuer public_methods full_method md found n h =
    elim (Failable-cases (extract_and_verify_claims parse issuer md)) [
      | inl (e, p) ↦ absurd (ground arith)
      | inr (c, p) ↦
          let (token, read, kind, from) = extracted parse issuer md c p in
          (c, ground arith, token, read, kind, from)
    ]
