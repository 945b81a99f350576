-- ===== src/Messaging/Handler.antt =====
-- A gRPC handler of semestral/internal/messaging/service.go: it reads and changes the database and
-- ends with a reply or with a status code. The texts of the status errors are left out.
pub mod Effects
use go_tasks.Prelude.{
  ℕ, ◌≡◌, refl, String, Bool, true, false, Option, none, some, arith, Bool-cases, inl, inr,
}
use go_tasks.Prelude.Outcome.{Failable, value, failure}
use go_tasks.Messaging.Database.{Db}

pub data Code : Type 0 where
  unauthenticated invalid_argument not_found already_exists permission_denied internal : Code

pub data Rpc {ℓ} (A : Type ℓ) : Type ℓ where
  reply : A → Rpc A
  status : Code → Rpc A

-- The status code of an answer that is refused.
abbrev pub code_of : {A : Type 0} → Rpc A → Option Code
code_of (reply a) = none
code_of (status c) = some c

abbrev pub Handler : Type 0 → Type 0
Handler A = Db → Db × Rpc A

abbrev pub continue : {A B : Type 0} → Rpc A → (A → Handler B) → Handler B
continue (reply a) f db = f a db
continue (status c) f db = (db, status c)

unfoldable pub respond : {A : Type 0} → A → Handler A
respond a db = (db, reply a)

unfoldable pub refuse : {A : Type 0} → Code → Handler A
refuse c db = (db, status c)

-- `if !ok { return status.Error(code) }`
unfoldable pub require : Bool → Code → Handler (Unit {0})
require true c db = (db, reply tt)
require false c db = (db, status c)

abbrev pub or_status : {A : Type 0} → Failable A → Code → Rpc A
or_status (value a) c = reply a
or_status (failure e) c = status c

-- The answer of a call, with the status for its error.
unfoldable pub attempt : {A : Type 0} → Failable A → Code → Handler A
attempt r c db = (db, or_status r c)

-- A read of the database.
unfoldable pub query : {A : Type 0} → (Db → Failable A) → Code → Handler A
query q c db = (db, or_status (q db) c)

-- A transaction, whose error leaves the database as the transaction left it.
unfoldable pub transact : (Db → Db × Failable (Unit {0})) → Code → Handler (Unit {0})
transact t c db = let (db', r) = t db in (db', or_status r c)

-- The claims that the interceptor put into the context.
unfoldable pub claims_subject : Option String → Code → Handler String
claims_subject none c db = (db, status c)
claims_subject (some subject) c db = (db, reply subject)

-- To open this is to open the parts above too.
infixl 5 ◌>>=◌ ◌>>◌
unfoldable pub ◌>>=◌ : {A B : Type 0} → Handler A → (A → Handler B) → Handler B
unfolding respond refuse require attempt query transact claims_subject
◌>>=◌ m f db = let (db', r) = m db in continue r f db'

abbrev pub ◌>>◌ : {B : Type 0} → Handler (Unit {0}) → Handler B → Handler B
m >> k = m >>= λ _. k
