-- ===== src/Tx/Laws.antt =====
-- Inversion of a unit of work that has ended with a value: what each step must have found.
use church_management.Base.{Bool, true, false, Option, none, some, ◌≡◌, refl, sym, subst, arith}
use church_management.Store.{Db}
use church_management.Tx.{
  Error, Result, ok, err, Tx, pure, gets, modify, throw_if, or_throw, find_row, throw_if_found,
  ◌>>=◌, ◌>>◌,
}

module _ {A B : Type 0} {db : Db} {r : B × Db} where
  pub bind_ok :
      (m : Tx A) (f : A → Tx B)
      → (m >>= f) db ≡ ok r
      → (a : A) × (db' : Db) × (m db ≡ ok (a, db')) × (f a db' ≡ ok r)
  unfolding ◌>>=◌
  bind_ok m f h = go (m db) refl h
    where
      go :
          (x : Result (A × Db))
          → m db ≡ x
          → (elim x as (λ _. Result (B × Db)) [ ok (a, db') ↦ f a db' | err e ↦ err e ]) ≡ ok r
          → (a : A) × (db' : Db) × (m db ≡ ok (a, db')) × (f a db' ≡ ok r)
      go (ok (a, db')) e h = (a, db', e, h)
      go (err x) e h = cc

  pub then_ok :
      (m : Tx A) (k : Tx B)
      → (m >> k) db ≡ ok r
      → (a : A) × (db' : Db) × (m db ≡ ok (a, db')) × (k db' ≡ ok r)
  unfolding ◌>>=◌ ◌>>◌
  then_ok m k h = bind_ok m (λ _. k) h

module _ {B : Type 0} {db : Db} {r : B × Db} where
  pub throw_if_ok :
      (b : Bool) (e : Error) (k : Tx B)
      → (throw_if b e >> k) db ≡ ok r
      → (b ≡ false) × (k db ≡ ok r)
  unfolding throw_if ◌>>◌
  throw_if_ok true e k h = cc
  throw_if_ok false e k h = (refl, h)

  pub throw_if_found_ok :
      (g : Db → Bool) (e : Error) (k : Tx B)
      → (throw_if_found g e >> k) db ≡ ok r
      → (g db ≡ false) × (k db ≡ ok r)
  unfolding throw_if_found ◌>>◌
  throw_if_found_ok g e k h = throw_if_ok (g db) e k h

  pub modify_ok : (f : Db → Db) (k : Tx B) → (modify f >> k) db ≡ ok r → k (f db) ≡ ok r
  unfolding modify ◌>>◌
  modify_ok f k h = h

module _ {A B : Type 0} {db : Db} {r : B × Db} where
  pub gets_ok : (g : Db → A) (f : A → Tx B) → (gets g >>= f) db ≡ ok r → f (g db) db ≡ ok r
  unfolding gets ◌>>=◌
  gets_ok g f h = h

  pub or_throw_ok :
      (o : Option A) (e : Error) (f : A → Tx B)
      → (or_throw o e >>= f) db ≡ ok r
      → (a : A) × (o ≡ some a) × (f a db ≡ ok r)
  unfolding or_throw ◌>>=◌
  or_throw_ok none e f h = cc
  or_throw_ok (some a) e f h = (a, refl, h)

  pub find_row_ok :
      (g : Db → Option A) (e : Error) (f : A → Tx B)
      → (find_row g e >>= f) db ≡ ok r
      → (a : A) × (g db ≡ some a) × (f a db ≡ ok r)
  unfolding find_row ◌>>=◌
  find_row_ok g e f h = or_throw_ok (g db) e f h

pub pure_ok : {A : Type 0} {a b : A} {db db' : Db} → pure a db ≡ ok (b, db') → (a ≡ b) × (db ≡ db')
unfolding pure
pure_ok h = (cc, cc)

-- A step that ends in `pure`, followed by the rest of the work.
pub pure_then :
    {A B : Type 0} {x a : A} {db db' : Db} {r : B × Db} (f : A → Tx B)
    → pure x db ≡ ok (a, db')
    → f a db' ≡ ok r
    → f x db ≡ ok r
unfolding pure
pure_then f h k = let (same, same_db) = pure_ok h in rw (same, same_db) k

pub bind-pure :
    {A : Type 0} {x : A × Db} {db : Db} (m : Tx A) → m db ≡ ok x → (m >>= pure) db ≡ ok x
unfolding pure ◌>>=◌
bind-pure m h = ground arith

-- A step that only reads, followed by the rest of the work.
pub read_ok :
    {A B : Type 0} {db : Db} {r : B × Db} (m : Tx A) (f : A → Tx B)
    → ((a : A) (db' : Db) → m db ≡ ok (a, db') → db ≡ db')
    → (m >>= f) db ≡ ok r
    → (a : A) × (m db ≡ ok (a, db)) × (f a db ≡ ok r)
read_ok {db} {r} m f reads h =
    let (a, db', e, k) = bind_ok m f h in
    (
      a,
      subst (λ d. m db ≡ ok (a, d)) (sym (reads a db' e)) e,
      subst (λ d. f a d ≡ ok r) (sym (reads a db' e)) k,
    )

pub then_read_ok :
    {A B : Type 0} {db : Db} {r : B × Db} (m : Tx A) (k : Tx B)
    → ((a : A) (db' : Db) → m db ≡ ok (a, db') → db ≡ db')
    → (m >> k) db ≡ ok r
    → k db ≡ ok r
then_read_ok {r} m k reads h =
    let (a, db', e, h') = then_ok m k h in subst (λ d. k d ≡ ok r) (sym (reads a db' e)) h'
