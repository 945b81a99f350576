-- ===== src/Mocker/Engine/Routes.antt =====
-- The table of hw4/pkg/mocker/http_mocker.go seen as one function from a path and a method to an
-- entry, and what `Serve` answers on it.
use go_tasks.Prelude.{
  ◌≡◌, refl, ◌↔◌, String, true, false, ◌&&◌, Option, some, [], ◌∷◌, arith, str_eq, eq_iff,
  if◌then◌else◌, Bool-cases, Option-cases, is_some, inl, inr,
}
use go_tasks.Prelude.Maps.{Map, lookup, insert, lookup-insert}
use go_tasks.Mocker.Spec.{RequestSpec, ResponseSpec, ConfigEntry, matches}
use go_tasks.Mocker.Engine.{
  HttpMocker, found, is_method_supported, or_empty, set_reply, serve, is_empty,
}

-- The entry of a path and a method.
abbrev pub route : String → String → HttpMocker → Option ConfigEntry
route path method m = lookup method (or_empty (lookup path m.config_entries))

-- The entry that `SetReply` makes.
abbrev pub entry_of : RequestSpec → ResponseSpec → ConfigEntry
entry_of request_spec response_spec = record {
  request_spec = request_spec;
  response_spec = response_spec;
}

-- `SetReply` replaces one entry, if its method is supported, and no other.
pub route-set_reply :
    (upper : String → String) (req : RequestSpec) (resp : ResponseSpec) (m : HttpMocker)
    (path method : String)
    → route path method (set_reply upper req resp m).0 ≡ (
        if is_method_supported upper req.method && str_eq req.path path && str_eq req.method method
        then some (entry_of req resp)
        else route path method m)
unfolding set_reply lookup
route-set_reply upper req resp m path method = elim (Bool-cases (str_eq req.path path)) [
  | inl b ↦ ground (
    arith,
    (eq_iff req.path path).0,
    lookup-insert req.path path
        (insert req.method (entry_of req resp) (or_empty (lookup req.path m.config_entries)))
        m.config_entries,
    lookup-insert req.method method (entry_of req resp)
        (or_empty (lookup req.path m.config_entries)),
  )
  | inr b ↦ ground (
    arith,
    lookup-insert req.path path
        (insert req.method (entry_of req resp) (or_empty (lookup req.path m.config_entries)))
        m.config_entries,
  )
]

not_empty :
    (k : String) (m : Map (Map ConfigEntry)) → is_some (lookup k m) ≡ true → is_empty m ≡ false
unfolding lookup
not_empty k [] h = absurd (ground arith)
not_empty k (e ∷ es) h = refl

-- `Serve` answers with a response exactly when the method is supported and the entry of the path and
-- the method matches; the response is that of the entry.
pub serve_iff :
    (upper : String → String) (q : RequestSpec) (m : HttpMocker) (resp : ResponseSpec)
    → ((serve upper q m).1 ≡ found resp) ↔ (
        (is_method_supported upper q.method ≡ true)
        × (e : ConfigEntry) × (route q.path q.method m ≡ some e)
        × (matches e q ≡ true)
        × (e.response_spec ≡ resp))
unfolding serve lookup
serve_iff upper q m resp = elim (Option-cases (lookup q.path m.config_entries)) [
  | inl p ↦ (λ h. absurd (ground arith), λ (s, e, r, t, w). absurd (ground arith))
  | inr (methods, p) ↦ elim (Option-cases (lookup q.method methods)) [
    | inl n ↦ (λ h. absurd (ground arith), λ (s, e, r, t, w). absurd (ground arith))
    | inr (entry, n) ↦ (
      λ h. (ground arith, entry, ground arith, ground arith, ground arith),
      λ (s, e, r, t, w). ground (arith, not_empty q.path m.config_entries),
    )
  ]
]
