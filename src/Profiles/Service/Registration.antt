-- ===== src/Profiles/Service/Registration.antt =====
-- User names and ids are unique, whatever requests semestral/internal/profiles/service.go serves.
use go_tasks.Prelude.{
  ℕ, suc, ◌≤◌, ◌≡◌, refl, String, Bool, true, false, ◌&&◌, not, Option, some, List, [], ◌∷◌, ◌++◌,
  arith, str_eq, eq_iff, eq_refl, Bool-cases, Option-cases, inl, inr,
}
use go_tasks.Prelude.Tables.{any, update, any-append}
use go_tasks.Profiles.Repository.{Profile, is_id, new_row}

abbrev pub is_named : String → Profile → Bool
is_named name p = str_eq p.username name

-- No row has the name or the number of an earlier one, and no number is above the counter.
abbrev pub Rows : ℕ → List Profile → Type 0
Rows seq [] = Unit
Rows seq (p ∷ rows) =
    (any (is_named p.username) rows ≡ false)
    × (any (is_id (some p.user_id)) rows ≡ false)
    × (p.user_id ≤ seq)
    × Rows seq rows

pub Rows-append :
    (seq : ℕ) (name : String) (password : List ℕ) (rows : List Profile)
    → any (is_named name) rows ≡ false
    → Rows seq rows
    → Rows (suc seq) (rows ++ new_row (suc seq) name password ∷ [])
unfolding any
Rows-append seq name password [] h r = (refl, refl, ground arith, tt)
Rows-append seq name password (p ∷ rows) h r = (
  ground (
    arith,
    any-append (is_named p.username) rows (new_row (suc seq) name password ∷ []),
    eq_iff name p.username,
    eq_iff p.username name,
    eq_refl name,
  ),
  ground (arith, any-append (is_id (some p.user_id)) rows (new_row (suc seq) name password ∷ [])),
  ground arith,
  Rows-append seq name password rows (ground arith) r.3,
)

-- A change of rows that keeps their numbers.
module _ (o : Option ℕ) (f : Profile → Profile)
    (keeps : (p : Profile) → (f p).user_id ≡ p.user_id) where
  any-update_id :
      (n : ℕ) (rows : List Profile)
      → any (is_id (some n)) (update (is_id o) f rows) ≡ any (is_id (some n)) rows
  unfolding any update
  any-update_id n [] = refl
  any-update_id n (p ∷ rows) = ground (arith, any-update_id n rows, keeps p)

  any-update_name :
      (name : String) (rows : List Profile)
      → ((p : Profile) → (f p).username ≡ p.username)
      → any (is_named name) (update (is_id o) f rows) ≡ any (is_named name) rows
  unfolding any update
  any-update_name name [] k = refl
  any-update_name name (p ∷ rows) k = ground (arith, any-update_name name rows k, k p)

  -- Names stay apart if the changed rows keep theirs.
  pub Rows-update_kept :
      (seq : ℕ) (rows : List Profile)
      → ((p : Profile) → (f p).username ≡ p.username)
      → Rows seq rows
      → Rows seq (update (is_id o) f rows)
  unfolding any update
  Rows-update_kept seq [] k r = tt
  Rows-update_kept seq (p ∷ rows) k r = (
    ground (arith, any-update_name p.username rows k, k p),
    ground (arith, any-update_id p.user_id rows, keeps p),
    ground (arith, keeps p),
    Rows-update_kept seq rows k r.3,
  )

-- The row that `UpdateProfile` writes.
abbrev pub renamed : String → String → Profile → Profile
renamed name bio p = record p { username = name; bio = bio }

module _ (o : Option ℕ) (name bio : String) where
  -- A name that is not the new one is in no more rows than before.
  any-renamed :
      (v : String) (rows : List Profile)
      → str_eq name v ≡ false
      → any (is_named v) rows ≡ false
      → any (is_named v) (update (is_id o) (renamed name bio) rows) ≡ false
  unfolding any update
  any-renamed v [] n h = refl
  any-renamed v (p ∷ rows) n h = ground (arith, any-renamed v rows n)

  -- The new name is in no row, if no row was changed.
  any-renamed_new :
      (rows : List Profile)
      → any (is_id o) rows ≡ false
      → any (λ p. not (is_id o p) && str_eq p.username name) rows ≡ false
      → any (is_named name) (update (is_id o) (renamed name bio) rows) ≡ false
  unfolding any update
  any-renamed_new [] n h = refl
  any-renamed_new (p ∷ rows) n h = ground (arith, any-renamed_new rows)

  same_id :
      (p : Profile) (rows : List Profile)
      → is_id o p ≡ true
      → any (is_id o) rows ≡ any (is_id (some p.user_id)) rows
  unfolding any
  same_id p [] h = refl
  same_id p (q ∷ rows) h = elim (Option-cases o) [
    | inl e ↦ absurd (ground arith)
    | inr (n, e) ↦ ground (arith, same_id p rows h)
  ]

  pub Rows-renamed :
      (seq : ℕ) (rows : List Profile)
      → any (λ p. not (is_id o p) && str_eq p.username name) rows ≡ false
      → Rows seq rows
      → Rows seq (update (is_id o) (renamed name bio) rows)
  unfolding any update
  Rows-renamed seq [] h r = tt
  Rows-renamed seq (p ∷ rows) h r = elim (Bool-cases (is_id o p)) [
    | inl b ↦ rw b (
      ground (arith, any-renamed_new rows, same_id p rows b),
      ground (arith, any-update_id o (renamed name bio) (λ q. refl) p.user_id rows),
      r.2,
      Rows-renamed seq rows (ground arith) r.3,
    )
    | inr b ↦ rw b (
      ground (arith, any-renamed p.username rows, eq_iff name p.username, eq_iff p.username name),
      ground (arith, any-update_id o (renamed name bio) (λ q. refl) p.user_id rows),
      r.2,
      Rows-renamed seq rows (ground arith) r.3,
    )
  ]

  -- Without a row to change nothing is changed.
  pub update_none :
      (f : Profile → Profile) (rows : List Profile)
      → any (is_id o) rows ≡ false
      → update (is_id o) f rows ≡ rows
  unfolding any update
  update_none f [] h = refl
  update_none f (p ∷ rows) h = ground (arith, update_none f rows)
