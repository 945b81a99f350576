-- ===== src/Mocker/Spec/Requests.antt =====
-- `NewRequestSpec` of hw4/pkg/mocker/request_spec.go counts the values of each parameter, so `Equals`
-- ignores the order of parameters and of their values.
use go_tasks.Prelude.{
  ℕ, suc, ◌+◌, ◌≤◌, ◌≡◌, refl, ◌↔◌, String, Bool, true, Option, none, some, List, [], ◌∷◌, arith,
  str_eq, eq_iff, if◌then◌else◌, Bool-cases, inl, inr, subst, some_inj,
}
use go_tasks.Prelude.Maps.{Map, lookup, insert, lookup-insert}
use go_tasks.Prelude.Maps.Unique.{IsUnique, insert-IsUnique}
use go_tasks.Prelude.Tables.{count}
use go_tasks.Prelude.Text.{trim_space}
use go_tasks.Mocker.Spec.{RequestSpec, freq, frequencies, build_query, new_request_spec, equals}
use go_tasks.Mocker.Spec.Equality.{IsCounted, IsQuery, SameEntry, equals_iff}

-- How often a value stands in a list.
abbrev pub occurrences : String → List String → ℕ
occurrences v vs = count (λ w. str_eq w v) vs

freq-insert :
    (w v : String) (c : ℕ) (m : Map ℕ)
    → freq v (insert w c m) ≡ (if str_eq w v then c else freq v m)
freq-insert w v c m = ground (arith, lookup-insert w v c m)

freq-frequencies :
    (vs : List String) (v : String) (m : Map ℕ)
    → freq v (frequencies vs m) ≡ freq v m + occurrences v vs
unfolding frequencies count
freq-frequencies [] v m = ground arith
freq-frequencies (w ∷ vs) v m = ground (
  arith,
  freq-frequencies vs v (insert w (suc (freq w m)) m),
  freq-insert w v (suc (freq w m)) m,
  (eq_iff w v).0,
)

insert-IsCounted : (w : String) (c : ℕ) (m : Map ℕ) → 1 ≤ c → IsCounted m → IsCounted (insert w c m)
insert-IsCounted w c m p i = record {
  unique = insert-IsUnique w c m i.unique;
  positive = λ v n e. ground (arith, lookup-insert w v c m, i.positive v n);
}

frequencies-IsCounted : (vs : List String) (m : Map ℕ) → IsCounted m → IsCounted (frequencies vs m)
unfolding frequencies
frequencies-IsCounted [] m i = i
frequencies-IsCounted (v ∷ vs) m i =
    frequencies-IsCounted vs _ (insert-IsCounted v (suc (freq v m)) m (ground arith) i)

pub empty-IsCounted : IsCounted []
unfolding lookup
empty-IsCounted = record { unique = tt; positive = λ v c e. absurd (cc e) }

insert-IsQuery :
    (k : String) (m : Map ℕ) (q : Map (Map ℕ)) → IsCounted m → IsQuery q → IsQuery (insert k m q)
insert-IsQuery k m q c i = record {
  unique = insert-IsUnique k m q i.unique;
  counted = λ j n e. elim (Bool-cases (str_eq k j)) [
    | inl b ↦ subst IsCounted (some_inj (ground (arith, lookup-insert k j m q))) c
    | inr b ↦ i.counted j n (ground (arith, lookup-insert k j m q))
  ];
}

build_query-IsQuery :
    (raw : Map (List String)) (q : Map (Map ℕ)) → IsQuery q → IsQuery (build_query raw q)
unfolding build_query
build_query-IsQuery [] q i = i
build_query-IsQuery ((k, vs) ∷ rest) q i =
    build_query-IsQuery rest _
      (insert-IsQuery k (frequencies vs []) q (frequencies-IsCounted vs [] empty-IsCounted) i)

-- The entry of a key after the loop over the raw parameters.
abbrev counted_entry : Option (List String) → Option (Map ℕ) → Option (Map ℕ)
counted_entry none before = before
counted_entry (some vs) before = some (frequencies vs [])

lookup-build_query :
    (raw : Map (List String)) (q : Map (Map ℕ)) (k : String)
    → IsUnique raw
    → lookup k (build_query raw q) ≡ counted_entry (lookup k raw) (lookup k q)
unfolding build_query lookup
lookup-build_query [] q k u = refl
lookup-build_query ((j, vs) ∷ rest) q k u = ground (
  arith,
  lookup-build_query rest (insert j (frequencies vs []) q) k u.1,
  lookup-insert j k (frequencies vs []) q,
  (eq_iff j k).0,
)

-- The arguments of `NewRequestSpec`.
pub record RawRequest : Type 0 where
  pub path : String
  pub method : String
  pub params : Map (List String)
  pub has_body : Bool
  pub body : List ℕ

abbrev pub SameValues : Option (List String) → Option (List String) → Type 0
SameValues none none = Unit
SameValues (some vs) (some ws) = (v : String) → occurrences v vs ≡ occurrences v ws
SameValues none (some ws) = ⊥
SameValues (some vs) none = ⊥

entries_iff :
    (a b : Option (List String))
    → SameEntry (counted_entry a none) (counted_entry b none) ↔ SameValues a b
unfolding lookup
entries_iff none none = (λ h. h, λ h. h)
entries_iff none (some ws) = (λ h. h, λ h. h)
entries_iff (some vs) none = (λ h. h, λ h. h)
entries_iff (some vs) (some ws) = (
  λ h v. ground (arith, h v, freq-frequencies vs v [], freq-frequencies ws v []),
  λ h v. ground (arith, h v, freq-frequencies vs v [], freq-frequencies ws v []),
)

params-IsQuery : (raw : Map (List String)) → IsQuery (build_query raw [])
unfolding lookup
params-IsQuery raw =
    build_query-IsQuery raw [] (record { unique = tt; counted = λ k m e. absurd (cc e) })

module _ (upper : String → String) where
  abbrev pub spec_of : RawRequest → RequestSpec
  spec_of r = new_request_spec upper r.path r.method r.params r.has_body r.body

  -- Two requests are the same up to the order of parameters and of a parameter's values.
  pub record SameRequest (a b : RawRequest) : Type 0 where
    pub same_method : upper (trim_space a.method) ≡ upper (trim_space b.method)
    pub same_path : a.path ≡ b.path
    pub same_has_body : a.has_body ≡ b.has_body
    pub same_body : a.has_body ≡ true → a.body ≡ b.body
    pub same_params : (k : String) → SameValues (lookup k a.params) (lookup k b.params)

  same_entry :
      (a b : RawRequest)
      → IsUnique a.params
      → IsUnique b.params
      → (k : String)
      → SameEntry (lookup k (build_query a.params [])) (lookup k (build_query b.params []))
        ↔ SameValues (lookup k a.params) (lookup k b.params)
  unfolding lookup
  same_entry a b ua ub k =
      rw (lookup-build_query a.params [] k ua, lookup-build_query b.params [] k ub)
        (entries_iff (lookup k a.params) (lookup k b.params))

  -- The specs of two requests, whose parameters are Go maps, are equal exactly when the requests have
  -- the same normalised method, path and body, and every parameter comes with the same values, each
  -- as often, in any order.
  pub equals-spec_of :
      (a b : RawRequest)
      → IsUnique a.params
      → IsUnique b.params
      → (equals (spec_of a) (spec_of b) ≡ true) ↔ SameRequest a b
  unfolding new_request_spec
  equals-spec_of a b ua ub =
      let d =
        equals_iff (spec_of a) (spec_of b) (params-IsQuery a.params) (params-IsQuery b.params) in
      (
        λ h.
            let s = d.0 h in
            record {
              same_method = s.same_method;
              same_path = s.same_path;
              same_has_body = s.same_has_body;
              same_body = λ e. ground (arith, s.same_body e, s.same_has_body);
              same_params = λ k. (same_entry a b ua ub k).0 (s.same_query k);
            },
        λ t. d.1 (record {
          same_method = t.same_method;
          same_path = t.same_path;
          same_has_body = t.same_has_body;
          same_body = λ e. ground (arith, t.same_body e, t.same_has_body);
          same_query = λ k. (same_entry a b ua ub k).1 (t.same_params k);
        }),
      )
