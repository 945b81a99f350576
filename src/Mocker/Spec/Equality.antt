-- ===== src/Mocker/Spec/Equality.antt =====
-- What `Equals` of hw4/pkg/mocker/request_spec.go decides.
use go_tasks.Prelude.{
  ℕ, ◌≤◌, ◌≡◌, refl, ◌↔◌, String, Bool, true, ◌&&◌, Option, none, some, List, [], ◌∷◌, arith,
  str_eq, eq_iff, eq_refl, ◌==◌, length, Bool-cases, Option-cases, inl, inr, sym, subst,
}
use go_tasks.Prelude.Maps.{Map, lookup}
use go_tasks.Prelude.Maps.Unique.{IsUnique, Within-length, Within-back, Within}
use go_tasks.Mocker.Spec.{RequestSpec, freq, values_match, query_match, bytes_equal, equals}

-- A multiset of values as the code keeps it: no value twice, and none with the count 0.
pub record IsCounted (m : Map ℕ) : Type 0 where
  pub unique : IsUnique m
  pub positive : (v : String) (c : ℕ) → lookup v m ≡ some c → 1 ≤ c

pub record IsQuery (q : Map (Map ℕ)) : Type 0 where
  pub unique : IsUnique q
  pub counted : (k : String) (m : Map ℕ) → lookup k q ≡ some m → IsCounted m

values_forth :
    (r o : Map ℕ) (v : String) (c : ℕ)
    → values_match r o ≡ true
    → lookup v r ≡ some c
    → freq v o ≡ c
unfolding values_match lookup
values_forth [] o v c h e = absurd (cc e)
values_forth ((w, n) ∷ r) o v c h e = ground (arith, values_forth r o v c, (eq_iff w v).0)

values_back :
    (r o : Map ℕ)
    → IsUnique r
    → ((v : String) (c : ℕ) → lookup v r ≡ some c → freq v o ≡ c)
    → values_match r o ≡ true
unfolding values_match lookup
values_back [] o u h = refl
values_back ((w, n) ∷ r) o u h = ground (
  arith,
  values_back r o u.1 (λ v c e. h v c (ground (arith, eq_iff w v))),
  h w n (ground (arith, eq_refl w)),
)

abbrev pub inner_match : Map ℕ → Map ℕ → Bool
inner_match r o = length r == length o && values_match r o

counts-Within :
    (r o : Map ℕ)
    → IsCounted r
    → ((v : String) (c : ℕ) → lookup v r ≡ some c → freq v o ≡ c)
    → Within r o
counts-Within r o cr h v hv = elim (Option-cases (lookup v r)) [
  | inl e ↦ absurd (ground arith)
  | inr (c, e) ↦ ground (arith, h v c e, cr.positive v c e)
]

-- Two multisets pass exactly when every value has the same count in both.
inner_forth :
    (r o : Map ℕ)
    → IsCounted r
    → IsCounted o
    → inner_match r o ≡ true
    → (v : String) → freq v r ≡ freq v o
inner_forth r o cr co h v = elim (Option-cases (lookup v r)) [
  | inr (c, e) ↦ ground (arith, values_forth r o v c)
  | inl e ↦ ground (
    arith,
    Within-back r o cr.unique
        (counts-Within r o cr (λ w c f. values_forth r o w c (ground arith) f)) (ground arith) v,
  )
]

inner_back :
    (r o : Map ℕ)
    → IsCounted r
    → IsCounted o
    → ((v : String) → freq v r ≡ freq v o)
    → inner_match r o ≡ true
inner_back r o cr co h = ground (
  arith,
  values_back r o cr.unique forth,
  Within-length r o cr.unique (counts-Within r o cr forth),
  Within-length o r co.unique (counts-Within o r co back),
)
  where
    forth : (v : String) (c : ℕ) → lookup v r ≡ some c → freq v o ≡ c
    forth v c e = ground (arith, h v)

    back : (v : String) (c : ℕ) → lookup v o ≡ some c → freq v r ≡ c
    back v c e = ground (arith, h v)

query_forth :
    (q o : Map (Map ℕ)) (k : String) (m : Map ℕ)
    → query_match q o ≡ true
    → lookup k q ≡ some m
    → (n : Map ℕ) × (lookup k o ≡ some n) × (inner_match m n ≡ true)
unfolding query_match lookup
query_forth [] o k m h e = absurd (cc e)
query_forth ((j, x) ∷ q) o k m h e = elim (Option-cases (lookup j o)) [
  | inl p ↦ absurd (ground arith)
  | inr (n, p) ↦ elim (Bool-cases (str_eq j k)) [
    | inl b ↦ (n, ground (arith, (eq_iff j k).0), ground arith)
    | inr b ↦ query_forth q o k m (ground arith) (ground arith)
  ]
]

query_back :
    (q o : Map (Map ℕ))
    → IsUnique q
    → ((k : String) (m : Map ℕ)
        → lookup k q ≡ some m
        → (n : Map ℕ) × (lookup k o ≡ some n) × (inner_match m n ≡ true))
    → query_match q o ≡ true
unfolding query_match lookup
query_back [] o u h = refl
query_back ((j, x) ∷ q) o u h =
    let (n, p, i) = h j x (ground (arith, eq_refl j)) in
    let rest = query_back q o u.1 (λ k m e. h k m (ground (arith, eq_iff j k))) in ground arith

-- The same key with the same multiset of values, or the key in neither.
abbrev pub SameEntry : Option (Map ℕ) → Option (Map ℕ) → Type 0
SameEntry none none = Unit
SameEntry (some m) (some n) = (v : String) → freq v m ≡ freq v n
SameEntry none (some n) = ⊥
SameEntry (some m) none = ⊥

abbrev pub SameQuery : Map (Map ℕ) → Map (Map ℕ) → Type 0
SameQuery q o = (k : String) → SameEntry (lookup k q) (lookup k o)

abbrev outer_match : Map (Map ℕ) → Map (Map ℕ) → Bool
outer_match q o = length q == length o && query_match q o

outer_forth : (q o : Map (Map ℕ)) → IsQuery q → IsQuery o → outer_match q o ≡ true → SameQuery q o
outer_forth q o iq io h k = elim (Option-cases (lookup k q)) [
  | inr (m, e) ↦
      let (n, p, i) = query_forth q o k m (ground arith) e in
      rw (e, p) (inner_forth m n (iq.counted k m e) (io.counted k n p) i)
  | inl e ↦
      let missing : lookup k o ≡ none = elim (Option-cases (lookup k o)) [
        | inl p ↦ p
        | inr (n, p) ↦ absurd (ground (arith, Within-back q o iq.unique within (ground arith) k))
      ] in
      rw (e, missing) tt
]
  where
    within : Within q o
    within j hj = elim (Option-cases (lookup j q)) [
      | inl e ↦ absurd (ground arith)
      | inr (m, e) ↦ let (n, p, i) = query_forth q o j m (ground arith) e in ground arith
    ]

same_found :
    (q o : Map (Map ℕ)) (k : String) (m : Map ℕ)
    → SameQuery q o
    → lookup k q ≡ some m
    → (n : Map ℕ) × (lookup k o ≡ some n) × ((v : String) → freq v m ≡ freq v n)
same_found q o k m s e = elim (Option-cases (lookup k o)) [
  | inl p ↦ absurd (subst (λ x. SameEntry x none) e (subst (SameEntry (lookup k q)) p (s k)))
  | inr (n, p) ↦
      (n, p, subst (λ x. SameEntry x (some n)) e (subst (SameEntry (lookup k q)) p (s k)))
]

same_sym : (q o : Map (Map ℕ)) → SameQuery q o → SameQuery o q
same_sym q o s k = flip (lookup k q) (lookup k o) (s k)
  where
    flip : (a b : Option (Map ℕ)) → SameEntry a b → SameEntry b a
    flip none none h = tt
    flip (some m) (some n) h = λ v. sym (h v)
    flip none (some n) h = h
    flip (some m) none h = h

outer_back : (q o : Map (Map ℕ)) → IsQuery q → IsQuery o → SameQuery q o → outer_match q o ≡ true
outer_back q o iq io s = ground (
  arith,
  query_back q o iq.unique (λ k m e.
      let (n, p, f) = same_found q o k m s e in
      (n, p, inner_back m n (iq.counted k m e) (io.counted k n p) f)),
  Within-length q o iq.unique (within q o s),
  Within-length o q io.unique (within o q (same_sym q o s)),
)
  where
    within : (a b : Map (Map ℕ)) → SameQuery a b → Within a b
    within a b t j hj = elim (Option-cases (lookup j a)) [
      | inl e ↦ absurd (ground arith)
      | inr (m, e) ↦ let (n, p, f) = same_found a b j m t e in ground arith
    ]

bytes_equal_iff : (xs ys : List ℕ) → (bytes_equal xs ys ≡ true) ↔ (xs ≡ ys)
unfolding bytes_equal
bytes_equal_iff [] [] = ground arith
bytes_equal_iff [] (y ∷ ys) = ground arith
bytes_equal_iff (x ∷ xs) [] = ground arith
bytes_equal_iff (x ∷ xs) (y ∷ ys) = ground (arith, bytes_equal_iff xs ys)

-- The same method, path, body and parameters, whatever the order of the parameters.
pub record Same (r o : RequestSpec) : Type 0 where
  pub same_method : r.method ≡ o.method
  pub same_path : r.path ≡ o.path
  pub same_has_body : r.has_body ≡ o.has_body
  pub same_body : r.has_body ≡ true → r.body ≡ o.body
  pub same_query : SameQuery r.query o.query

-- `Equals` holds of two well-formed specs exactly when they have the same method, path and body, and
-- every query parameter comes with the same values, each as often.
pub equals_iff :
    (r o : RequestSpec) → IsQuery r.query → IsQuery o.query → (equals r o ≡ true) ↔ Same r o
unfolding equals
equals_iff r o ir io = (forth, back)
  where
    forth : equals r o ≡ true → Same r o
    forth h = record {
      same_method = ground (arith, (eq_iff r.method o.method).0);
      same_path = ground (arith, (eq_iff r.path o.path).0);
      same_has_body = ground arith;
      same_body = λ b. ground (arith, (bytes_equal_iff r.body o.body).0);
      same_query = outer_forth r.query o.query ir io (ground arith);
    }

    back : Same r o → equals r o ≡ true
    back s = ground (
      arith,
      eq_iff r.method o.method,
      eq_iff r.path o.path,
      s.same_method,
      s.same_path,
      s.same_has_body,
      s.same_body,
      bytes_equal_iff r.body o.body,
      outer_back r.query o.query ir io s.same_query,
    )
