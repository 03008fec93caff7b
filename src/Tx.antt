-- ===== src/Tx.antt =====
-- A unit of work on the database: it ends with a value and the new database, or it throws. What was
-- written before a throw is lost, as in a transaction that is rolled back.
pub mod Laws
pub mod Frame
use church_management.Base.{Bool, true, false, Option, none, some}
use church_management.Store.{Db}

-- The exceptions that the services throw; `fault` is any other (a row that must exist is missing).
pub data Error : Type 0 where
  bad denied missing conflict : Error
  church_scope_violation permission_denied reauthentication_required budget_blocked fault : Error
  unauthenticated mfa_required : Error
  login_rate_limited invalid_credentials csrf_invalid origin_denied mfa_invalid : Error
  mfa_already_enabled mfa_registration_changed : Error

pub data Result (A : Type 0) : Type 0 where
  ok : A → Result A
  err : Error → Result A

abbrev pub Tx : Type 0 → Type 0
Tx A = Db → Result (A × Db)

unfoldable pub pure : {A : Type 0} → A → Tx A
pure a db = ok (a, db)

unfoldable pub throw : {A : Type 0} → Error → Tx A
throw e db = err e

unfoldable pub gets : {A : Type 0} → (Db → A) → Tx A
gets f db = ok (f db, db)

unfoldable pub modify : (Db → Db) → Tx (Unit {0})
modify f db = ok (tt, f db)

-- `if (test) throw e`
unfoldable pub throw_if : Bool → Error → Tx (Unit {0})
throw_if true e db = err e
throw_if false e db = ok (tt, db)

-- A row that was looked up, or the exception for its absence.
unfoldable pub or_throw : {A : Type 0} → Option A → Error → Tx A
or_throw none e db = err e
or_throw (some a) e db = ok (a, db)

-- A query whose missing answer, or whose positive answer, is an exception.
unfoldable pub find_row : {A : Type 0} → (Db → Option A) → Error → Tx A
unfolding or_throw
find_row g e db = or_throw (g db) e db

unfoldable pub throw_if_found : (Db → Bool) → Error → Tx (Unit {0})
unfolding throw_if
throw_if_found g e db = throw_if (g db) e db

infixl 5 ◌>>=◌ ◌>>◌
unfoldable pub ◌>>=◌ : {A B : Type 0} → Tx A → (A → Tx B) → Tx B
◌>>=◌ m f db = elim (m db) [ ok (a, db') ↦ f a db' | err e ↦ err e ]

unfoldable pub ◌>>◌ : {A B : Type 0} → Tx A → Tx B → Tx B
◌>>◌ m k db = elim (m db) [ ok (_, db') ↦ k db' | err e ↦ err e ]

-- For tests by evaluation.
unfoldable pub tx : Unit {0}
unfolding pure throw gets modify throw_if or_throw find_row throw_if_found ◌>>=◌ ◌>>◌
tx = tt
