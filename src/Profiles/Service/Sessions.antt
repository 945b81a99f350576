-- ===== src/Profiles/Service/Sessions.antt =====
-- From a login to a refresh, in semestral/internal/profiles/service.go.
use go_tasks.Prelude.{
  ℕ, ◌+◌, ◌≤◌, ◌<◌, ◌≡◌, String, Option, none, some, List, [], ◌∷◌, arith, eq_refl, Bool-cases,
  Option-cases, inl, inr, ◌==◌,
}
use go_tasks.Prelude.Maps.{insert, delete, lookup-insert_self}
use go_tasks.Prelude.Outcome.{value, Failable-cases}
use go_tasks.Prelude.Tables.{select, first}
use go_tasks.Profiles.Tokens.{
  MessengerClaims, Tokens, refresh_token_type, refresh_claims, access_claims, build_tokens,
  validate_token,
}
use go_tasks.Profiles.Repository
use go_tasks.Profiles.Repository.{Profile, Table, is_id, call}
use go_tasks.Profiles.Service.{Env, ProfileService, reply, build_user_tokens, login, refresh}

-- A row that was found is found by its number.
first_again :
    (o : Option ℕ) (row : Profile) (rows : List Profile)
    → first (select (is_id o) rows) ≡ some row
    → (p : Profile) × (first (select (is_id (some row.user_id)) rows) ≡ some p)
unfolding select
first_again o row [] h = absurd (cc h)
first_again o row (x ∷ xs) h = elim (Bool-cases (x.user_id == row.user_id)) [
  | inl b ↦ (x, ground arith)
  | inr b ↦ let (p, e) = first_again o row xs (ground arith) in (p, ground arith)
]

profile_again :
    (env later : Env) (user : String) (row : Profile) (t : Table)
    → Repository.get_profile_by_user_id env.parse_id env.repo user t ≡ value row
    → later.repo ≡ none
    → later.parse_id (env.show_id row.user_id) ≡ some row.user_id
    → (p : Profile) × (Repository.get_profile_by_user_id later.parse_id later.repo
          (env.show_id row.user_id)
          t
        ≡ value p)
unfolding Repository.get_profile_by_user_id call
profile_again env later user row t h free ids = elim (Failable-cases (call env.repo 0)) [
  | inl (e, q) ↦ absurd (ground arith)
  | inr (_, q) ↦ elim (Option-cases (first (select (is_id (env.parse_id user)) t.rows))) [
    | inl n ↦ absurd (ground arith)
    | inr (x, n) ↦
        let (p, e) = first_again (env.parse_id user) row t.rows (ground arith) in (p, ground arith)
  ]
]

-- The signed texts of a pair of tokens.
build_tokens_lem :
    (env : Env) (user : String) (t : Tokens)
    → build_tokens env.sign user env.issuer env.jti env.now ≡ value t
    → (env.sign (refresh_claims user env.issuer env.jti env.now) ≡ value t.refresh)
      × (t.jti ≡ env.jti)
unfolding build_tokens
build_tokens_lem env user t h =
    elim (Failable-cases (env.sign (access_claims user env.issuer env.now))) [
      | inl (e, p) ↦ absurd (ground arith)
      | inr (a, p) ↦
          elim (Failable-cases (env.sign (refresh_claims user env.issuer env.jti env.now))) [
            | inl (e, q) ↦ absurd (ground arith)
            | inr (r, q) ↦ ground arith
          ]
    ]

build_user_tokens_total :
    (env : Env) (user : String) (s : ProfileService)
    → ((c : MessengerClaims) → (text : String) × (env.sign c ≡ value text))
    → (t : Tokens) × ((build_user_tokens env user s).1 ≡ reply t)
unfolding build_user_tokens build_tokens
build_user_tokens_total env user s signs =
    let (a, p) = signs (access_claims user env.issuer env.now) in
    let (r, q) = signs (refresh_claims user env.issuer env.jti env.now) in
    (record { access = a; refresh = r; jti = env.jti }, ground arith)

-- An answered login leaves its refresh token active for the user that was found.
login_answered :
    (env : Env) (user : String) (password : List ℕ) (t : Tokens) (s : ProfileService)
    → (login env user password s).1 ≡ reply t
    → (row : Profile) × (Repository.get_profile_by_user_id env.parse_id env.repo user s.table
        ≡ value row)
      × (env.sign (refresh_claims (env.show_id row.user_id) env.issuer env.jti env.now)
          ≡ value t.refresh)
      × ((login env user password s).0 ≡ record s {
        active_refresh_tokens = insert env.jti (env.show_id row.user_id) s.active_refresh_tokens;
      })
unfolding login build_user_tokens
login_answered env user password t s h =
    elim (Failable-cases (Repository.get_profile_by_user_id env.parse_id env.repo user s.table)) [
      | inl (e, p) ↦ absurd (ground arith)
      | inr (row, p) ↦ elim (Bool-cases (env.compare_hash row.password password)) [
        | inr b ↦ absurd (ground arith)
        | inl b ↦
            elim (Failable-cases
              (build_tokens env.sign (env.show_id row.user_id) env.issuer env.jti env.now)) [
                | inl (e, q) ↦ absurd (ground arith)
                | inr (u, q) ↦ (
                  row,
                  p,
                  ground (arith, build_tokens_lem env (env.show_id row.user_id) u q),
                  ground (arith, build_tokens_lem env (env.show_id row.user_id) u q),
                )
              ]
      ]
    ]

-- A login that was answered gives a refresh token that a refresh within a week of it answers, if the
-- driver does not fail: for a JWT library that signs, and reads back what it signed from the time of
-- the issue until it expires, and ids that read back as they are written.
pub login_refresh :
    (env later : Env) (user : String) (password : List ℕ) (t : Tokens) (s : ProfileService)
    → (login env user password s).1 ≡ reply t
    → later.repo ≡ none
    → later.issuer ≡ env.issuer
    → env.now ≤ later.now
    → later.now < env.now + 604_800
    → ((c : MessengerClaims) (text : String)
        → env.sign c ≡ value text
        → c.issued_at ≤ later.now
        → later.now < c.expires_at
        → later.parse text ≡ some c)
    → ((n : ℕ) → later.parse_id (env.show_id n) ≡ some n)
    → ((c : MessengerClaims) → (text : String) × (later.sign c ≡ value text))
    → (t' : Tokens) × ((refresh later t.refresh (login env user password s).0).1 ≡ reply t')
unfolding refresh validate_token
login_refresh env later user password t s h free same from until reads ids signs =
    let (row, got, signed, after) = login_answered env user password t s h in
    let id = env.show_id row.user_id in
    let c = refresh_claims id env.issuer env.jti env.now in
    let (p, again) = profile_again env later user row s.table got free (ids row.user_id) in
    let s1 : ProfileService = record s {
      active_refresh_tokens = delete env.jti (insert env.jti id s.active_refresh_tokens);
    } in
    let (t', done) = build_user_tokens_total later (later.show_id p.user_id) s1 signs in
    (
      t',
      ground (
        arith,
        reads c t.refresh signed from (omega arith),
        eq_refl refresh_token_type,
        eq_refl env.issuer,
        eq_refl id,
        lookup-insert_self env.jti id s.active_refresh_tokens,
      ),
    )
