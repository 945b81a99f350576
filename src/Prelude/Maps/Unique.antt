-- ===== src/Prelude/Maps/Unique.antt =====
-- Maps with each key at most once, which is what every Go map is, and inclusion of their keys.
use go_tasks.Prelude.{
  suc, ◌≤◌, ◌≡◌, refl, String, Bool, true, false, [], ◌∷◌, arith, str_eq, eq_iff, eq_refl,
  if◌then◌else◌, length, is_some, Bool-cases, inl, inr,
}
use go_tasks.Prelude.Maps.{Map, lookup, insert, delete, lookup-insert, lookup-delete}

module _ {ℓ} {V : Type ℓ} where
  abbrev pub has : String → Map V → Bool
  has k m = is_some (lookup k m)

  abbrev pub IsUnique : Map V → Type 0
  IsUnique [] = Unit
  IsUnique ((k, v) ∷ m) = (has k m ≡ false) × IsUnique m

  pub has-insert :
      (k j : String) (v : V) (m : Map V)
      → has j (insert k v m) ≡ (if str_eq k j then true else has j m)
  has-insert k j v m = ground (arith, lookup-insert k j v m)

  pub insert-IsUnique : (k : String) (v : V) (m : Map V) → IsUnique m → IsUnique (insert k v m)
  unfolding insert lookup
  insert-IsUnique k v [] u = (refl, tt)
  insert-IsUnique k v ((j, w) ∷ m) u = elim (Bool-cases (str_eq j k)) [
    | inl e ↦ rw e (u)
    | inr e ↦ rw e (
      ground (arith, has-insert k j v m, eq_iff k j, eq_iff j k, eq_refl j),
      insert-IsUnique k v m u.1,
    )
  ]

  -- Dropping a key that is there makes the map shorter.
  delete-shorter : (k : String) (m : Map V) → length (delete k m) ≤ length m
  unfolding delete
  delete-shorter k [] = ground arith
  delete-shorter k ((j, v) ∷ m) = ground (arith, delete-shorter k m)

  delete-has : (k : String) (m : Map V) → has k m ≡ true → suc (length (delete k m)) ≤ length m
  unfolding delete lookup
  delete-has k [] h = absurd (ground arith)
  delete-has k ((j, v) ∷ m) h = ground (arith, delete-shorter k m, delete-has k m)

  has-delete :
      (k j : String) (m : Map V) → has j (delete k m) ≡ (if str_eq k j then false else has j m)
  has-delete k j m = ground (arith, lookup-delete k j m)

module _ {ℓ κ} {V : Type ℓ} {W : Type κ} where
  -- The keys of the first map are keys of the second.
  abbrev pub Within : Map V → Map W → Type 0
  Within m n = (k : String) → has k m ≡ true → has k n ≡ true

  Within-tail :
      (k : String) (v : V) (m : Map V) (n : Map W)
      → IsUnique ((k, v) ∷ m)
      → Within ((k, v) ∷ m) n
      → (j : String) → has j m ≡ true
      → has j (delete k n) ≡ true
  unfolding lookup
  Within-tail k v m n u w j h = ground (arith, has-delete k j n, w j, eq_iff k j)

  -- A map whose keys are all keys of another one is no longer than it.
  pub Within-length : (m : Map V) (n : Map W) → IsUnique m → Within m n → length m ≤ length n
  unfolding lookup
  Within-length [] n u w = ground arith
  Within-length ((k, v) ∷ m) n u w = ground (
    arith,
    Within-length m (delete k n) u.1 (Within-tail k v m n u w),
    delete-has k n (w k (ground (arith, eq_refl k))),
  )

  -- If it is not shorter either, both have the same keys.
  pub Within-back :
      (m : Map V) (n : Map W)
      → IsUnique m
      → Within m n
      → length n ≤ length m
      → (j : String) → has j n ≡ true
      → has j m ≡ true
  unfolding lookup
  Within-back [] [] u w l j h = h
  Within-back [] ((k, v) ∷ n) u w l j h = absurd (ground arith)
  Within-back ((k, v) ∷ m) n u w l j h = ground (
    arith,
    Within-back m (delete k n) u.1 (Within-tail k v m n u w)
        (ground (arith, delete-has k n (w k (ground (arith, eq_refl k))))) j,
    has-delete k j n,
  )
