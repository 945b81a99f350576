-- ===== src/Prelude/Tables.antt =====
-- Tables of a database as lists of rows, and the parts that SQL statements are made of.
use go_tasks.Prelude.{
  ℕ, zero, suc, ◌≡◌, refl, Bool, false, ◌||◌, List, [], ◌∷◌, Option, none, some, leb, arith,
  if◌then◌else◌, ◌++◌,
}

module _ {ℓ} {A : Type ℓ} where
  -- SELECT ... WHERE
  unfoldable pub select : (A → Bool) → List A → List A
  select p [] = []
  select p (x ∷ xs) = if p x then x ∷ select p xs else select p xs

  -- Whether some row passes.
  unfoldable pub any : (A → Bool) → List A → Bool
  any p [] = false
  any p (x ∷ xs) = p x || any p xs

  -- SELECT COUNT(*) ... WHERE
  unfoldable pub count : (A → Bool) → List A → ℕ
  count p [] = 0
  count p (x ∷ xs) = if p x then suc (count p xs) else count p xs

  -- UPDATE ... SET ... WHERE
  unfoldable pub update : (A → Bool) → (A → A) → List A → List A
  update p f [] = []
  update p f (x ∷ xs) = (if p x then f x else x) ∷ update p f xs

  -- The first row.
  abbrev pub first : List A → Option A
  first [] = none
  first (x ∷ xs) = some x

  abbrev pub take : ℕ → List A → List A
  take zero xs = []
  take (suc n) [] = []
  take (suc n) (x ∷ xs) = x ∷ take n xs

  unfoldable pub insert_by : (A → ℕ) → A → List A → List A
  insert_by key x [] = x ∷ []
  insert_by key x (y ∷ ys) = if leb (key x) (key y) then x ∷ y ∷ ys else y ∷ insert_by key x ys

  -- ORDER BY ... ASC; rows with equal keys keep their order.
  unfoldable pub order_by : (A → ℕ) → List A → List A
  unfolding insert_by
  order_by key [] = []
  order_by key (x ∷ xs) = insert_by key x (order_by key xs)

  pub any-append : (p : A → Bool) (xs ys : List A) → any p (xs ++ ys) ≡ (any p xs || any p ys)
  unfolding any
  any-append p [] ys = refl
  any-append p (x ∷ xs) ys = ground (arith, any-append p xs ys)

  -- No row is counted exactly when none passes.
  pub count-any : (p : A → Bool) (xs : List A) → count p xs ≡ 0 → any p xs ≡ false
  unfolding count any
  count-any p [] h = refl
  count-any p (x ∷ xs) h = ground (arith, count-any p xs)

  pub any-count : (p : A → Bool) (xs : List A) → any p xs ≡ false → count p xs ≡ 0
  unfolding count any
  any-count p [] h = refl
  any-count p (x ∷ xs) h = ground (arith, any-count p xs)
