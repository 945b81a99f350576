-- ===== src/Mocker/Engine/Runs.antt =====
-- Runs of the methods of hw4/pkg/mocker/http_mocker.go, in any order.
use go_tasks.Prelude.{
  ◌≡◌, refl, ◌↔◌, ◌∙◌, sym, ap, String, true, ◌&&◌, Option, none, some, List, [], ◌∷◌, ◌++◌, arith,
  str_eq, if◌then◌else◌,
}
use mathlib.Core.List.{append-nil, append_assoc}
use go_tasks.Prelude.Maps.{lookup}
use go_tasks.Mocker.Spec.{RequestSpec, ResponseSpec, ConfigEntry, matches}
use go_tasks.Mocker.Engine.{
  HttpMocker, new_http_mocker, found, is_method_supported, set_reply, serve, clear_configuration,
  list_requests,
}
use go_tasks.Mocker.Engine.Routes.{route, entry_of, route-set_reply, serve_iff}

-- A call that changes the mocker.
pub data Op : Type 0 where
  sets : RequestSpec → ResponseSpec → Op
  serves : RequestSpec → Op
  clears : Op

module _ (upper : String → String) where
  unfoldable pub apply : Op → HttpMocker → HttpMocker
  apply (sets req resp) m = (set_reply upper req resp m).0
  apply (serves q) m = (serve upper q m).0
  apply clears m = clear_configuration m

  unfoldable pub run : List Op → HttpMocker → HttpMocker
  unfolding apply
  run [] m = m
  run (op ∷ ops) m = run ops (apply op m)

  -- The entry that the last accepted `SetReply` on a path and a method has left since the last clear.
  unfoldable pub latest : String → String → List Op → Option ConfigEntry → Option ConfigEntry
  latest path method [] before = before
  latest path method (sets req resp ∷ ops) before = latest path method ops (
      if is_method_supported upper req.method && str_eq req.path path && str_eq req.method method
      then some (entry_of req resp)
      else before)
  latest path method (serves q ∷ ops) before = latest path method ops before
  latest path method (clears ∷ ops) before = latest path method ops none

  route-run :
      (path method : String) (ops : List Op) (m : HttpMocker)
      → route path method (run ops m) ≡ latest path method ops (route path method m)
  unfolding run latest serve clear_configuration lookup
  route-run path method [] m = refl
  route-run path method (sets req resp ∷ ops) m =
      route-run path method ops _
      ∙ ap (latest path method ops) (route-set_reply upper req resp m path method)
  route-run path method (serves q ∷ ops) m = route-run path method ops _
  route-run path method (clears ∷ ops) m = route-run path method ops _

  -- After any run of calls on a new mocker, `Serve` answers with a response exactly when the method is
  -- supported and the last reply set for the path and the method since the last clear matches the
  -- request; the response is that reply's.
  pub serve-run :
      (ops : List Op) (q : RequestSpec) (resp : ResponseSpec)
      → ((serve upper q (run ops new_http_mocker)).1 ≡ found resp) ↔ (
          (is_method_supported upper q.method ≡ true)
          × (e : ConfigEntry) × (latest q.path q.method ops none ≡ some e)
          × (matches e q ≡ true)
          × (e.response_spec ≡ resp))
  unfolding new_http_mocker lookup
  serve-run ops q resp =
      rw (sym (route-run q.path q.method ops new_http_mocker))
        (serve_iff upper q (run ops new_http_mocker) resp)

  -- The requests served in a run, in order.
  abbrev pub served : List Op → List RequestSpec
  served [] = []
  served (serves q ∷ ops) = q ∷ served ops
  served (sets req resp ∷ ops) = served ops
  served (clears ∷ ops) = served ops

  history-apply :
      (op : Op) (m : HttpMocker) → list_requests (apply op m) ≡ list_requests m ++ served (op ∷ [])
  unfolding apply list_requests set_reply serve clear_configuration
  history-apply (sets req resp) m = ground (arith, append-nil m.requests_history)
  history-apply (serves q) m = refl
  history-apply clears m = sym (append-nil m.requests_history)

  served-cons : (op : Op) (ops : List Op) → served (op ∷ ops) ≡ served (op ∷ []) ++ served ops
  served-cons (sets req resp) ops = refl
  served-cons (serves q) ops = refl
  served-cons clears ops = refl

  history-run :
      (ops : List Op) (m : HttpMocker) → list_requests (run ops m) ≡ list_requests m ++ served ops
  unfolding run
  history-run [] m = sym (append-nil (list_requests m))
  history-run (op ∷ ops) m =
      history-run ops (apply op m)
      ∙ ap (λ l. l ++ served ops) (history-apply op m)
      ∙ append_assoc (list_requests m) (served (op ∷ [])) (served ops)
      ∙ ap (λ l. list_requests m ++ l) (sym (served-cons op ops))

  -- The history lists every request that was served, answered or not, oldest first, and a clear of the
  -- configuration does not touch it.
  pub list_requests-run : (ops : List Op) → list_requests (run ops new_http_mocker) ≡ served ops
  unfolding new_http_mocker list_requests
  list_requests-run ops = history-run ops new_http_mocker
