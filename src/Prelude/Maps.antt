-- ===== src/Prelude/Maps.antt =====
-- Go's `map[string]V` as an association list. `insert` replaces the value of a key in its place or
-- adds a new entry at the end, and `delete` drops every entry of the key. Go leaves the order of an
-- iteration open; here it is that of the list.
pub mod Unique
use go_tasks.Prelude.{
  ◌≡◌, refl, String, Option, none, some, List, [], ◌∷◌, map, arith, ap, sym, ◌∙◌, ◌⊎◌, inl, inr,
  String-cases, ◌≢◌, eq_refl, str_eq-false, str_eq, eq_iff, if◌then◌else◌,
}

abbrev pub Map {ℓ} : Type ℓ → Type ℓ
Map V = List (String × V)

module _ {ℓ} {V : Type ℓ} where
  unfoldable pub lookup : String → Map V → Option V
  lookup key [] = none
  lookup key ((at, found) ∷ rest) = if str_eq at key then some found else lookup key rest

  unfoldable pub insert : String → V → Map V → Map V
  insert key new [] = (key, new) ∷ []
  insert key new ((at, old) ∷ rest) =
      if str_eq at key then (at, new) ∷ rest else (at, old) ∷ insert key new rest

  unfoldable pub delete : String → Map V → Map V
  delete k [] = []
  delete k ((j, v) ∷ m) = let rest = delete k m in if str_eq j k then rest else (j, v) ∷ rest

  abbrev pub keys : Map V → List String
  keys m = map (λ e. e.0) m

  abbrev pub values : Map V → List V
  values m = map (λ e. e.1) m

  pub lookup-insert :
      (key asked : String) (new : V) (entries : Map V)
      → lookup asked (insert key new entries)
        ≡ (if str_eq key asked then some new else lookup asked entries)
  unfolding insert lookup
  lookup-insert key asked new [] = refl
  lookup-insert key asked new ((at, old) ∷ rest) =
      ground
        (arith, lookup-insert key asked new rest, eq_iff at asked, eq_iff at key, eq_iff key asked)

  pub lookup-delete :
      (k j : String) (m : Map V) → lookup j (delete k m) ≡ (if str_eq k j then none else lookup j m)
  unfolding lookup delete
  lookup-delete k j [] = ground arith
  lookup-delete k j ((i, w) ∷ m) =
      ground (arith, eq_iff k j, eq_iff i k, eq_iff i j, lookup-delete k j m)

  pub insert-ne-nil : (k : String) (v : V) (m : Map V) → insert k v m ≡ [] → ⊥
  unfolding insert
  insert-ne-nil k v [] e = cc
  insert-ne-nil k v ((j, w) ∷ m) e = ground arith

  -- A map with no key at all is empty.
  pub nil_of_lookup : (m : Map V) → ((k : String) → lookup k m ≡ none) → m ≡ []
  unfolding lookup
  nil_of_lookup [] h = refl
  nil_of_lookup ((j, v) ∷ m) h = ground (arith, h j, eq_iff j j)

  pub lookup-insert_self : (k : String) (v : V) (m : Map V) → lookup k (insert k v m) ≡ some v
  lookup-insert_self k v m = rw (lookup-insert k k v m, eq_refl k)

  pub lookup-insert_ne :
      (k j : String) (v : V) (m : Map V) → k ≢ j → lookup j (insert k v m) ≡ lookup j m
  lookup-insert_ne k j v m h = rw (lookup-insert k j v m, str_eq-false k j h)

  pub lookup-delete_self : (k : String) (m : Map V) → lookup k (delete k m) ≡ none
  lookup-delete_self k m = rw (lookup-delete k k m, eq_refl k)

  pub lookup-delete_ne : (k j : String) (m : Map V) → k ≢ j → lookup j (delete k m) ≡ lookup j m
  lookup-delete_ne k j m h = rw (lookup-delete k j m, str_eq-false k j h)

  -- To delete a key that is not there changes nothing.
  pub delete_missing : (k : String) (m : Map V) → lookup k m ≡ none → delete k m ≡ m
  unfolding lookup delete
  delete_missing k [] h = refl
  delete_missing k ((j, v) ∷ m) h = ground (arith, delete_missing k m)

  pub lookup-insert_inv :
      (k j : String) (v : V) (m : Map V) (x : V)
      → lookup j (insert k v m) ≡ some x
      → ((k ≡ j) × (v ≡ x)) ⊎ ((k ≢ j) × (lookup j m ≡ some x))
  lookup-insert_inv k j v m x e = elim (String-cases k j) [
    | inl p ↦ inl (p, cc (ap (λ i. lookup i (insert k v m)) p, lookup-insert_self k v m))
    | inr p ↦ inr (p, sym (lookup-insert_ne k j v m p) ∙ e)
  ]

  pub lookup-delete_inv :
      (k j : String) (m : Map V) (x : V)
      → lookup j (delete k m) ≡ some x
      → (k ≢ j) × (lookup j m ≡ some x)
  lookup-delete_inv k j m x e = elim (String-cases k j) [
    | inl p ↦ absurd (cc (ap (λ i. lookup i (delete k m)) p, lookup-delete_self k m))
    | inr p ↦ (p, sym (lookup-delete_ne k j m p) ∙ e)
  ]
