-- ===== src/Profiles/Service/Uniqueness.antt =====
-- No two profiles share a name or an id, whatever semestral/internal/profiles/service.go serves.
use go_tasks.Prelude.{
  ℕ, suc, ◌≤◌, ◌≡◌, refl, sym, subst, String, ◌&&◌, ◌||◌, not, Option, some, List, [], ◌∷◌, ◌++◌,
  arith, str_eq, eq_iff, if◌then◌else◌, Bool-cases, Option-cases, inl, inr, ◌==◌, ◌⊎◌, ltb, length,
}
use go_tasks.Prelude.Outcome.{Failable-cases}
use go_tasks.Prelude.Text.{trim_space}
use go_tasks.Prelude.Tables.{any, count, update, any-count}
use go_tasks.Profiles.Tokens.{build_tokens, validate_token, refresh_token_type}
use go_tasks.Profiles.Repository
use go_tasks.Profiles.Repository.{Profile, Table, empty_table, is_id, call}
use go_tasks.Profiles.Service.{
  Env, ProfileService, new_profile_service, Request, registers, logs_in, refreshes, shows,
  sets_status, renames, verifies, serve, serve_all, register_profile, build_user_tokens, login,
  refresh, get_user_profile, update_status, update_user_profile, verify_users, good_username,
}
use go_tasks.Profiles.Service.Refreshing.{spend}
use go_tasks.Profiles.Service.Registration.{
  is_named, Rows, Rows-append, Rows-update_kept, Rows-renamed, update_none, renamed,
}

pub record IsTable (t : Table) : Type 0 where
  pub apart : Rows t.seq t.rows

same_table : (t t' : Table) → t' ≡ t → IsTable t → IsTable t'
same_table t t' e i = subst IsTable (sym e) i

insert_profile-IsTable :
    (fault : Repository.Fault) (name : String) (password : List ℕ) (t : Table)
    → IsTable t
    → IsTable (Repository.insert_profile fault name password t).0
unfolding Repository.insert_profile
insert_profile-IsTable fault name password t i = elim (Failable-cases (call fault 0)) [
  | inl (e, p) ↦ same_table t _ (ground arith) i
  | inr (_, p) ↦ elim (Bool-cases (any (is_named name) t.rows)) [
    | inl b ↦ same_table t _ (ground arith) i
    | inr b ↦
        same_table
          (record {
            rows = t.rows ++ Repository.new_row (suc t.seq) name password ∷ [];
            seq = suc t.seq;
          })
          _ (ground arith) (record { apart = Rows-append t.seq name password t.rows b i.apart })
  ]
]

update_status-IsTable :
    (parse_id : String → Option ℕ) (fault : Repository.Fault) (user status : String) (t : Table)
    → IsTable t
    → IsTable (Repository.update_status parse_id fault user status t).0
unfolding Repository.update_status
update_status-IsTable parse_id fault user status t i = elim (Failable-cases (call fault 0)) [
  | inl (e, p) ↦ same_table t _ (ground arith) i
  | inr (_, p) ↦
      same_table
        (record t {
          rows = update (is_id (parse_id user)) (λ q. record q { status = status }) t.rows;
        })
        _ (ground arith)
        (record {
          apart =
              Rows-update_kept (parse_id user) (λ q. record q { status = status }) (λ q. refl) t.seq
                t.rows (λ q. refl) i.apart;
        })
]

update_profile-IsTable :
    (parse_id : String → Option ℕ) (fault : Repository.Fault) (user name bio : String) (t : Table)
    → IsTable t
    → IsTable (Repository.update_profile parse_id fault user name bio t).0
unfolding Repository.update_profile
update_profile-IsTable parse_id fault user name bio t i = elim (Failable-cases (call fault 0)) [
  | inl (e, p) ↦ same_table t _ (ground arith) i
  | inr (_, p) ↦ elim (Bool-cases (any (is_id (parse_id user)) t.rows)) [
    | inr b ↦
        same_table t _
          (ground (arith, update_none (parse_id user) name bio (renamed name bio) t.rows b)) i
    | inl b ↦
        elim (Bool-cases
          (any (λ q. not (is_id (parse_id user) q) && str_eq q.username name) t.rows)) [
            | inl c ↦ same_table t _ (ground arith) i
            | inr c ↦
                same_table
                  (record t { rows = update (is_id (parse_id user)) (renamed name bio) t.rows }) _
                  (ground arith)
                  (record { apart = Rows-renamed (parse_id user) name bio t.seq t.rows c i.apart })
          ]
  ]
]

-- Tokens do not touch the table.
table-build_user_tokens :
    (env : Env) (user : String) (s : ProfileService)
    → (build_user_tokens env user s).0.table ≡ s.table
unfolding build_user_tokens
table-build_user_tokens env user s =
    elim (Failable-cases (build_tokens env.sign user env.issuer env.jti env.now)) [
      | inl (e, p) ↦ ground arith
      | inr (t, p) ↦ ground arith
    ]

table-login :
    (env : Env) (user : String) (password : List ℕ) (s : ProfileService)
    → (login env user password s).0.table ≡ s.table
unfolding login
table-login env user password s =
    elim (Failable-cases (Repository.get_profile_by_user_id env.parse_id env.repo user s.table)) [
      | inl (e, p) ↦ ground arith
      | inr (row, p) ↦ ground (arith, table-build_user_tokens env (env.show_id row.user_id) s)
    ]

table-refresh :
    (env : Env) (token : String) (s : ProfileService) → (refresh env token s).0.table ≡ s.table
unfolding refresh
table-refresh env token s =
    elim (Failable-cases (validate_token env.parse token env.issuer refresh_token_type)) [
      | inl (e, p) ↦ ground arith
      | inr (c, p) ↦
          elim (Failable-cases
            (Repository.get_profile_by_user_id env.parse_id env.repo c.subject s.table)) [
              | inl (e, q) ↦ ground arith
              | inr (row, q) ↦
                  ground
                    (arith, table-build_user_tokens env (env.show_id row.user_id) (spend c.id s))
            ]
    ]

-- A registration leaves the table alone or inserts one profile.
register_table :
    (env : Env) (name : String) (password : List ℕ) (s : ProfileService)
    → ((register_profile env name password s).0.table ≡ s.table)
      ⊎ ((h : List ℕ) × ((register_profile env name password s).0.table
            ≡ (Repository.insert_profile env.repo (trim_space name) h s.table).0))
unfolding register_profile
register_table env name password s = elim (Bool-cases (not (good_username (trim_space name)))) [
  | inl b ↦ inl (ground arith)
  | inr b ↦ elim (Bool-cases (ltb (length password) 8 || ltb 72 (length password))) [
    | inl c ↦ inl (ground arith)
    | inr c ↦ elim (Failable-cases (env.hash password)) [
      | inl (e, p) ↦ inl (ground arith)
      | inr (h, p) ↦ inr (h, ground arith)
    ]
  ]
]

serve-IsTable :
    (env : Env) (r : Request) (s : ProfileService) → IsTable s.table → IsTable (serve env r s).table
unfolding serve register_profile get_user_profile update_status update_user_profile verify_users
serve-IsTable env (registers username password) s i =
    elim (register_table env username password s) [
      | inl e ↦ same_table s.table _ e i
      | inr (h, e) ↦
          same_table (Repository.insert_profile env.repo (trim_space username) h s.table).0 _ e
            (insert_profile-IsTable env.repo (trim_space username) h s.table i)
    ]
serve-IsTable env (logs_in user password) s i =
    same_table s.table _ (table-login env user password s) i
serve-IsTable env (refreshes token) s i = same_table s.table _ (table-refresh env token s) i
serve-IsTable env (shows user) s i = same_table s.table _ (ground arith) i
serve-IsTable env (sets_status online) s i = elim (Option-cases env.claims) [
  | inl c ↦ same_table s.table _ (ground arith) i
  | inr (user, c) ↦
      let text = if online then "online" else "offline" in
      same_table (Repository.update_status env.parse_id env.repo user text s.table).0 _
        (ground arith) (update_status-IsTable env.parse_id env.repo user text s.table i)
]
serve-IsTable env (renames username bio) s i = elim (Option-cases env.claims) [
  | inl c ↦ same_table s.table _ (ground arith) i
  | inr (user, c) ↦ elim (Bool-cases (not (good_username (trim_space username)))) [
    | inl b ↦ same_table s.table _ (ground arith) i
    | inr b ↦
        same_table
          (Repository.update_profile env.parse_id env.repo user (trim_space username) bio s.table).0
          _ (ground arith)
          (update_profile-IsTable env.parse_id env.repo user (trim_space username) bio s.table i)
  ]
]
serve-IsTable env (verifies ids) s i = same_table s.table _ (ground arith) i

serve_all-IsTable :
    (rs : List (Env × Request)) (s : ProfileService)
    → IsTable s.table
    → IsTable (serve_all rs s).table
unfolding serve_all
serve_all-IsTable [] s i = i
serve_all-IsTable ((env, r) ∷ rest) s i =
    serve_all-IsTable rest (serve env r s) (serve-IsTable env r s i)

count_names :
    (seq : ℕ) (name : String) (rows : List Profile) → Rows seq rows → count (is_named name) rows ≤ 1
unfolding count
count_names seq name [] r = ground arith
count_names seq name (p ∷ rows) r = ground (
  arith,
  count_names seq name rows r.3,
  any-count (is_named name) rows,
  (eq_iff p.username name).0,
)

count_ids :
    (seq : ℕ) (id : ℕ) (rows : List Profile) → Rows seq rows → count (λ p. p.user_id == id) rows ≤ 1
unfolding count
count_ids seq id [] r = ground arith
count_ids seq id (p ∷ rows) r =
    ground (arith, count_ids seq id rows r.3, any-count (is_id (some id)) rows)

-- After any run of requests on a new service, whatever fails in between, no two profiles share a user
-- name, and no two share an id.
pub serve_all_unique :
    (rs : List (Env × Request)) (name : String) (id : ℕ)
    → (count (is_named name) (serve_all rs new_profile_service).table.rows ≤ 1)
      × (count (λ p. p.user_id == id) (serve_all rs new_profile_service).table.rows ≤ 1)
unfolding new_profile_service empty_table
serve_all_unique rs name id =
    let i = serve_all-IsTable rs new_profile_service (record { apart = tt }) in
    (count_names _ name _ i.apart, count_ids _ id _ i.apart)
