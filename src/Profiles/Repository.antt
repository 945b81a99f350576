-- ===== src/Profiles/Repository.antt =====
-- semestral/internal/profiles: model.go, repository.go and sqlite_repository.go. A row has the number
-- that SQLite counts up; `parse_id` is how SQLite reads a text that is compared with that column. A
-- `Fault` numbers the call into the driver at which an error is reported, if any.
use go_tasks.Prelude.{
  ℕ, suc, String, Bool, false, ◌&&◌, not, Option, none, some, List, [], ◌∷◌, ◌++◌, map, str_eq,
  ◌==◌, if◌then◌else◌,
}
use go_tasks.Prelude.Outcome.{Failable, value, failure, Err, bind_failable}
use go_tasks.Prelude.Tables.{select, any, update, first}

pub record Profile : Type 0 where
  pub user_id : ℕ
  pub username : String
  pub password : List ℕ
  pub bio : String
  pub status : String

-- `seq` is the last number given.
pub record Table : Type 0 where
  pub rows : List Profile
  pub seq : ℕ

unfoldable pub empty_table : Table
empty_table = record { rows = []; seq = 99999999 }

abbrev pub Fault : Type 0
Fault = Option ℕ

abbrev pub driver_error : Err
driver_error = "driver error"

abbrev pub no_rows : Err
no_rows = "sql: no rows in result set"

abbrev pub unique_constraint_violated : Err
unique_constraint_violated = "profile repository: query failed due to unique constraint violation"

unfoldable pub call : Fault → ℕ → Failable (Unit {0})
call none n = value tt
call (some k) n = if k == n then failure driver_error else value tt

abbrev pub new_row : ℕ → String → List ℕ → Profile
new_row id username password = record {
  user_id = id;
  username = username;
  password = password;
  bio = "";
  status = "offline";
}

-- The new table, and the number of the row. The row stays where its number cannot be read back.
unfoldable pub insert_profile : Fault → String → List ℕ → Table → Table × Failable ℕ
insert_profile fault username password t = elim (call fault 0) [
  | failure e ↦ (t, failure e)
  | value _ ↦
      if any (λ p. str_eq p.username username) t.rows
      then (t, failure unique_constraint_violated)
      else (
        record { rows = t.rows ++ new_row (suc t.seq) username password ∷ []; seq = suc t.seq },
        bind_failable (call fault 1) (λ _. value (suc t.seq)),
      )
]

abbrev pub is_id : Option ℕ → Profile → Bool
is_id none p = false
is_id (some n) p = p.user_id == n

abbrev row : Option Profile → Failable Profile
row none = failure no_rows
row (some p) = value p

module _ (parse_id : String → Option ℕ) where
  unfoldable pub get_profile_by_user_id : Fault → String → Table → Failable Profile
  get_profile_by_user_id fault user_id t =
      bind_failable (call fault 0) (λ _. row (first (select (is_id (parse_id user_id)) t.rows)))

  unfoldable pub update_status : Fault → String → String → Table → Table × Failable (Unit {0})
  update_status fault user_id status t = elim (call fault 0) [
    | failure e ↦ (t, failure e)
    | value _ ↦ (
      record t {
        rows = update (is_id (parse_id user_id)) (λ p. record p { status = status }) t.rows;
      },
      value tt,
    )
  ]

  -- The user name has to differ from those of the other rows, if there is a row to change.
  unfoldable pub update_profile :
      Fault → String → String → String → Table → Table × Failable (Unit {0})
  update_profile fault user_id username bio t = elim (call fault 0) [
    | failure e ↦ (t, failure e)
    | value _ ↦
        if any (is_id (parse_id user_id)) t.rows
          && any (λ p. not (is_id (parse_id user_id) p) && str_eq p.username username) t.rows
        then (t, failure unique_constraint_violated)
        else (
          record t {
            rows =
                update (is_id (parse_id user_id)) (λ p. record p { username = username; bio = bio })
                  t.rows;
          },
          value tt,
        )
  ]

  unfoldable pub check_users_exist :
      (ℕ → String) → Fault → List String → Table → Failable (List String)
  check_users_exist show_id fault [] t = value []
  check_users_exist show_id fault (u ∷ us) t = bind_failable (call fault 0) (λ _. value (
      map (λ p. show_id p.user_id)
        (select (λ p. any (λ id. is_id (parse_id id) p) (u ∷ us)) t.rows)))
