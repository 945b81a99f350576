-- ===== src/Profiles/Service/Refreshing.antt =====
-- Refresh tokens of one use, in semestral/internal/profiles/service.go.
use go_tasks.Prelude.{
  ℕ, ◌≡◌, String, false, Option, none, some, List, [], ◌∷◌, arith, str_eq, eq_refl, Option-cases,
  inl, inr,
}
use go_tasks.Prelude.Maps.{lookup, delete, lookup-insert, lookup-delete}
use go_tasks.Prelude.Outcome.{value, Failable-cases}
use go_tasks.Profiles.Tokens.{
  MessengerClaims, Tokens, refresh_token_type, refresh_claims, access_claims, build_tokens,
  validate_token,
}
use go_tasks.Profiles.Repository
use go_tasks.Profiles.Service.{
  Env, ProfileService, unauthenticated, reply, status, Request, registers, logs_in, refreshes,
  shows, sets_status, renames, verifies, serve, serve_all, register_profile, build_user_tokens,
  login, refresh, get_user_profile, update_status, update_user_profile, verify_users,
}

-- Whether a JTI is that of a token that may still be used.
abbrev pub active : String → ProfileService → Option String
active j s = lookup j s.active_refresh_tokens

build_tokens-jti :
    (env : Env) (user : String) (t : Tokens)
    → build_tokens env.sign user env.issuer env.jti env.now ≡ value t
    → t.jti ≡ env.jti
unfolding build_tokens
build_tokens-jti env user t h =
    elim (Failable-cases (env.sign (access_claims user env.issuer env.now))) [
      | inl (e, p) ↦ absurd (ground arith)
      | inr (a, p) ↦
          elim (Failable-cases (env.sign (refresh_claims user env.issuer env.jti env.now))) [
            | inl (e, q) ↦ absurd (ground arith)
            | inr (r, q) ↦ ground arith
          ]
    ]

-- New tokens touch no JTI but their own.
active-build_user_tokens :
    (env : Env) (user j : String) (s : ProfileService)
    → str_eq env.jti j ≡ false
    → active j (build_user_tokens env user s).0 ≡ active j s
unfolding build_user_tokens
active-build_user_tokens env user j s h =
    elim (Failable-cases (build_tokens env.sign user env.issuer env.jti env.now)) [
      | inl (e, p) ↦ ground arith
      | inr (t, p) ↦
          ground (
            arith,
            build_tokens-jti env user t p,
            lookup-insert t.jti j user s.active_refresh_tokens,
          )
    ]

spent_login :
    (env : Env) (user : String) (password : List ℕ) (j : String) (s : ProfileService)
    → str_eq env.jti j ≡ false
    → active j s ≡ none
    → active j (login env user password s).0 ≡ none
unfolding login
spent_login env user password j s h a =
    elim (Failable-cases (Repository.get_profile_by_user_id env.parse_id env.repo user s.table)) [
      | inl (e, p) ↦ ground arith
      | inr (row, p) ↦ ground (arith, active-build_user_tokens env (env.show_id row.user_id) j s h)
    ]

-- The state without a JTI.
abbrev pub spend : String → ProfileService → ProfileService
spend j s = record s { active_refresh_tokens = delete j s.active_refresh_tokens }

spent_refresh :
    (env : Env) (token j : String) (s : ProfileService)
    → str_eq env.jti j ≡ false
    → active j s ≡ none
    → active j (refresh env token s).0 ≡ none
unfolding refresh
spent_refresh env token j s h a =
    elim (Failable-cases (validate_token env.parse token env.issuer refresh_token_type)) [
      | inl (e, p) ↦ ground arith
      | inr (c, p) ↦
          elim (Failable-cases
            (Repository.get_profile_by_user_id env.parse_id env.repo c.subject s.table)) [
              | inl (e, q) ↦ ground (arith, lookup-delete c.id j s.active_refresh_tokens)
              | inr (row, q) ↦ ground (
                arith,
                active-build_user_tokens env (env.show_id row.user_id) j (spend c.id s) h,
                lookup-delete c.id j s.active_refresh_tokens,
              )
            ]
    ]

spent_serve :
    (env : Env) (r : Request) (j : String) (s : ProfileService)
    → str_eq env.jti j ≡ false
    → active j s ≡ none
    → active j (serve env r s) ≡ none
unfolding serve register_profile get_user_profile update_status update_user_profile verify_users
spent_serve env (registers username password) j s h a = elim (Failable-cases (env.hash password)) [
  | inl (e, p) ↦ ground arith
  | inr (x, p) ↦ ground arith
]
spent_serve env (logs_in user password) j s h a = spent_login env user password j s h a
spent_serve env (refreshes token) j s h a = spent_refresh env token j s h a
spent_serve env (shows user) j s h a = ground arith
spent_serve env (sets_status online) j s h a = ground arith
spent_serve env (renames username bio) j s h a = ground arith
spent_serve env (verifies ids) j s h a = ground arith

abbrev pub NewJtis : String → List (Env × Request) → Type 0
NewJtis j [] = Unit
NewJtis j ((env, r) ∷ rest) = (str_eq env.jti j ≡ false) × NewJtis j rest

spent_serve_all :
    (rs : List (Env × Request)) (j : String) (s : ProfileService)
    → NewJtis j rs
    → active j s ≡ none
    → active j (serve_all rs s) ≡ none
unfolding serve_all
spent_serve_all [] j s n a = a
spent_serve_all ((env, r) ∷ rest) j s n a =
    spent_serve_all rest j (serve env r s) n.1 (spent_serve env r j s n.0 a)

-- An answered refresh has used up its token.
refresh_spends :
    (env : Env) (token : String) (c : MessengerClaims) (t : Tokens) (s : ProfileService)
    → validate_token env.parse token env.issuer refresh_token_type ≡ value c
    → str_eq env.jti c.id ≡ false
    → (refresh env token s).1 ≡ reply t
    → active c.id (refresh env token s).0 ≡ none
unfolding refresh
refresh_spends env token c t s v n h =
    elim (Failable-cases
      (Repository.get_profile_by_user_id env.parse_id env.repo c.subject s.table)) [
        | inl (e, q) ↦ ground (arith, lookup-delete c.id c.id s.active_refresh_tokens, eq_refl c.id)
        | inr (row, q) ↦ ground (
          arith,
          active-build_user_tokens env (env.show_id row.user_id) c.id (spend c.id s) n,
          lookup-delete c.id c.id s.active_refresh_tokens,
          eq_refl c.id,
        )
      ]

refresh_spent :
    (env : Env) (token j : String) (s : ProfileService)
    → ((c : MessengerClaims) → env.parse token ≡ some c → c.id ≡ j)
    → active j s ≡ none
    → refresh env token s ≡ (s, status unauthenticated)
unfolding refresh validate_token
refresh_spent env token j s p a = elim (Option-cases (env.parse token)) [
  | inl e ↦ ground arith
  | inr (c, e) ↦ ground (arith, p c e)
]

-- A refresh token works once: after a refresh that was answered, and any requests after it, a refresh
-- with the same token is refused and changes nothing, if no later token gets the JTI of that token.
pub refresh_once :
    (env later : Env) (token : String) (c : MessengerClaims) (t : Tokens)
    (rs : List (Env × Request)) (s : ProfileService)
    → validate_token env.parse token env.issuer refresh_token_type ≡ value c
    → (refresh env token s).1 ≡ reply t
    → str_eq env.jti c.id ≡ false
    → NewJtis c.id rs
    → ((c' : MessengerClaims) → later.parse token ≡ some c' → c'.id ≡ c.id)
    → refresh later token (serve_all rs (refresh env token s).0)
      ≡ (serve_all rs (refresh env token s).0, status unauthenticated)
refresh_once env later token c t rs s v h n ns p =
    refresh_spent later token c.id _ p
      (spent_serve_all rs c.id _ ns (refresh_spends env token c t s v n h))
