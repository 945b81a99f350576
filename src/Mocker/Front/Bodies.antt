-- ===== src/Mocker/Front/Bodies.antt =====
-- Bodies that a configuration of hw4/internal/handler/management_service.go can never meet.
use go_tasks.Prelude.{
  ℕ, ltb, ◌≡◌, String, true, false, some, List, [], ◌∷◌, arith, length, inl, inr, if◌then◌else◌,
}
use go_tasks.Prelude.Maps.{Map}
use go_tasks.Prelude.Outcome.{Failable, value, Failable-cases}
use go_tasks.Mocker.Spec.{RequestSpec, new_request_spec, equals, bytes_equal}
use go_tasks.Mocker.Front.{SetReplyRequest, HttpRequest, to_request_spec, parse_request}

empty_unmatched :
    (bytes : List ℕ) (spec incoming : RequestSpec)
    → spec.has_body ≡ true
    → spec.body ≡ []
    → incoming.has_body ≡ ltb 0 (length bytes)
    → incoming.body ≡ (if ltb 0 (length bytes) then bytes else [])
    → equals spec incoming ≡ false
unfolding equals bytes_equal
empty_unmatched [] spec incoming h b i j = ground arith
empty_unmatched (x ∷ bytes) spec incoming h b i j = ground arith

-- A reply set with a request body that is present but empty matches no HTTP request at all, since the
-- HTTP handler takes an empty body for none.
pub empty_body_unmatched :
    (upper : String → String) (parse_url : String → Failable (String × Map (List String)))
    (r : SetReplyRequest) (q : HttpRequest) (spec incoming : RequestSpec)
    → r.request_body ≡ some []
    → to_request_spec upper parse_url r ≡ value spec
    → parse_request upper q ≡ value incoming
    → equals spec incoming ≡ false
unfolding to_request_spec parse_request new_request_spec
empty_body_unmatched upper parse_url r q spec incoming e s i =
    elim (Failable-cases (parse_url r.path)) [
      | inl (x, p) ↦ absurd (ground arith)
      | inr (u, p) ↦ elim (Failable-cases q.body) [
        | inl (x, b) ↦ absurd (ground arith)
        | inr (bytes, b) ↦
            empty_unmatched bytes spec incoming (ground arith) (ground arith) (ground arith)
              (ground arith)
      ]
    ]
