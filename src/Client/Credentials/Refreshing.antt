-- ===== src/Client/Credentials/Refreshing.antt =====
-- Requests that wait for the write lock of the credentials together
-- (semestral/internal/auth/client_middleware.go).
use go_tasks.Prelude.{
  ℕ, ◌≤◌, ◌<◌, ◌≡◌, refl, ◌≢◌, inl, inr, String, Bool, true, false, ◌&&◌, ◌||◌, not, Option, none,
  some, List, [], ◌∷◌, ltb, length, str_eq, eq_refl, str_eq-false, Bool-cases, Option-cases, arith,
  All,
}
use go_tasks.Prelude.Outcome.{value, Failable-cases}
use go_tasks.Profiles.Tokens.{MessengerClaims, validate_token, access_token_type}
use go_tasks.Client.Credentials.{
  Credentials, clear, Metadata, Refresh, refresh_tokens, store_refreshed,
}

abbrev with_sent : Option String → List String → List String
with_sent none sent = sent
with_sent (some token) sent = token ∷ sent

ltb-true : (a b : ℕ) → a < b → ltb a b ≡ true
ltb-true a b h = ground arith

or_true : (a b : Bool) → (a || b || true) ≡ true
or_true true b = refl
or_true false true = refl
or_true false false = refl

module _ (parse : String → Option MessengerClaims) (refresh : Refresh) where
  -- Requests that get the write lock one after the other, at these times: the results, and the refresh tokens that were sent.
  abbrev pub refresh_all : List ℕ → Credentials → List Metadata × List String
  refresh_all [] c = ([], [])
  refresh_all (now ∷ times) c =
      let (c', metadata, sent) = refresh_tokens parse refresh now c in
      let (results, all_sent) = refresh_all times c' in
      (metadata ∷ results, with_sent sent all_sent)

  -- Nothing of the session is left, or the access token is good at all these times.
  data Settled (c : Credentials) (times : List ℕ) : Type 0 where
    cleared : c.access_token ≡ "" → c.user_id ≡ "" → Settled c times
    fresh : c.access_token ≢ "" → All (λ t. t < c.access_token_exp) times → Settled c times

  -- The library accepts no empty text, and a token that the server answers with outlasts the wait.
  pub record Lasting (times : List ℕ) : Type 0 where
    pub no_empty : parse "" ≡ none
    pub outlasts :
        (token access again : String) (claims : MessengerClaims)
        → refresh token ≡ value (access, again)
        → parse access ≡ some claims
        → All (λ t. t < claims.expires_at) times

  later-Lasting : (now : ℕ) (times : List ℕ) → Lasting (now ∷ times) → Lasting times
  later-Lasting now times l = record {
    no_empty = l.no_empty;
    outlasts = λ token access again claims e f. (l.outlasts token access again claims e f).1;
  }

  -- A step on a settled session sends nothing, and leaves it settled.
  Settled-step :
      (now : ℕ) (times : List ℕ) (c : Credentials)
      → Settled c (now ∷ times)
      → ((refresh_tokens parse refresh now c).2 ≡ none)
        × Settled (refresh_tokens parse refresh now c).0 times
  unfolding refresh_tokens clear
  Settled-step now times c (fresh n (h, hs)) =
      rw (str_eq-false c.access_token "" n, ltb-true now c.access_token_exp h) (refl, fresh n hs)
  Settled-step now times c (cleared a u) =
      rw (a, u, eq_refl "", or_true (not c.profile_client) (str_eq c.refresh_token ""))
        (refl, cleared refl refl)

  Settled-all : (times : List ℕ) (c : Credentials) → Settled c times → (refresh_all times c).1 ≡ []
  Settled-all [] c h = refl
  Settled-all (now ∷ times) c h =
      let (e, h') = Settled-step now times c h in
      rw e (Settled-all times (refresh_tokens parse refresh now c).0 h')

  -- What one step does.
  data Step (times : List ℕ) (c c' : Credentials) (sent : Option String) : Type 0 where
    quiet : sent ≡ none → Step times c c' sent
    asked : Settled c' times → Step times c c' sent

  validated :
      (access issuer : String) (claims : MessengerClaims)
      → validate_token parse access issuer access_token_type ≡ value claims
      → parse access ≡ some claims
  unfolding validate_token
  validated access issuer claims h = ground (arith, h, Option-cases (parse access))

  store_refreshed-Settled :
      (times : List ℕ) (c : Credentials) (token access again : String)
      → Lasting times
      → refresh token ≡ value (access, again)
      → Settled (store_refreshed parse c (access, again)).0 times
  unfolding store_refreshed clear
  store_refreshed-Settled times c token access again l e =
      elim (Failable-cases (validate_token parse access c.issuer access_token_type)) [
        | inl (x, f) ↦ rw (store_refreshed, f) (cleared refl refl)
        | inr (claims, f) ↦
            let good = validated access c.issuer claims f in
            rw (store_refreshed, f)
              (fresh (λ empty. absurd (ground (arith, l.no_empty, (rw empty at good))))
                (l.outlasts token access again claims e good))
      ]

  refresh-Step :
      (now : ℕ) (times : List ℕ) (c : Credentials)
      → Lasting times
      → Step times c (refresh_tokens parse refresh now c).0 (refresh_tokens parse refresh now c).2
  unfolding refresh_tokens clear
  refresh-Step now times c l =
      elim (Bool-cases (not (str_eq c.access_token "") && ltb now c.access_token_exp)) [
        | inl e ↦ rw e (quiet refl)
        | inr e ↦
            elim (Bool-cases
              (not c.profile_client || str_eq c.refresh_token "" || str_eq c.user_id "")) [
                | inl f ↦ rw (e, f) (quiet refl)
                | inr f ↦ elim (Failable-cases (refresh c.refresh_token)) [
                  | inl (x, g) ↦ rw (e, f, g) (asked (cleared refl refl))
                  | inr (tokens, g) ↦
                      rw (e, f, g)
                        (asked
                          (store_refreshed-Settled times c c.refresh_token tokens.0 tokens.1 l g))
                ]
              ]
      ]

  -- Requests that wait for the lock together send at most one refresh token, and send it once, if
  -- the library accepts no empty text and the token that the server answers with outlasts the wait.
  pub refresh_all_once :
      (times : List ℕ) (c : Credentials) → Lasting times → length (refresh_all times c).1 ≤ 1
  refresh_all_once [] c l = omega arith
  refresh_all_once (now ∷ times) c l = elim (refresh-Step now times c (later-Lasting now times l)) [
    | quiet e ↦ rw e (refresh_all_once times _ (later-Lasting now times l))
    | asked h ↦
        rw (Settled-all times _ h)
          (ground (arith, Option-cases (refresh_tokens parse refresh now c).2))
  ]
