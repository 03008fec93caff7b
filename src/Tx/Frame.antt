-- ===== src/Tx/Frame.antt =====
-- What a unit of work leaves as it was: one rule for each way to build one.
use church_management.Base.{Bool, true, false, Option, none, some, ◌≡◌, ◌∙◌, sym, ap}
use church_management.Store.{Db}
use church_management.Tx.{
  Error, ok, Tx, pure, throw_if, gets, modify, or_throw, find_row, throw_if_found, ◌>>=◌, ◌>>◌,
}
use church_management.Tx.Laws.{bind_ok, then_ok, pure_ok}

-- If `m` ends with a value, the view of the database is unchanged.
pub record Frame {X : Type 0} {A : Type 0} (v : Db → X) (m : Tx A) : Type 0 where
  pub at : (db : Db) (x : A) (db' : Db) → m db ≡ ok (x, db') → v db' ≡ v db

module _ {X : Type 0} {v : Db → X} where
  pub Frame-pure : {A : Type 0} (x : A) → Frame v (pure x)
  Frame-pure x = record { at = λ db y db' h. ap v (sym (pure_ok h).1) }

  pub Frame-throw_if : (b : Bool) (e : Error) → Frame v (throw_if b e)
  unfolding throw_if
  Frame-throw_if true e = record { at = λ db y db' h. cc }
  Frame-throw_if false e = record { at = λ db y db' h. cc }

  pub Frame-throw_if_found : (g : Db → Bool) (e : Error) → Frame v (throw_if_found g e)
  unfolding throw_if_found
  Frame-throw_if_found g e = record { at = λ db y db' h. (Frame-throw_if (g db) e).at db y db' h }

  pub Frame-or_throw : {A : Type 0} (o : Option A) (e : Error) → Frame v (or_throw o e)
  unfolding or_throw
  Frame-or_throw none e = record { at = λ db y db' h. cc }
  Frame-or_throw (some x) e = record { at = λ db y db' h. cc }

  pub Frame-find_row : {A : Type 0} (g : Db → Option A) (e : Error) → Frame v (find_row g e)
  unfolding find_row
  Frame-find_row g e = record { at = λ db y db' h. (Frame-or_throw (g db) e).at db y db' h }

  pub Frame-gets : {A : Type 0} (g : Db → A) → Frame v (gets g)
  unfolding gets
  Frame-gets g = record { at = λ db y db' h. cc }

  pub Frame-modify : (f : Db → Db) → ((db : Db) → v (f db) ≡ v db) → Frame v (modify f)
  unfolding modify
  Frame-modify f k = record { at = λ db y db' h. cc (k db) }

  pub Frame-read :
      {A : Type 0} (m : Tx A)
      → ((db : Db) (x : A) (db' : Db) → m db ≡ ok (x, db') → db ≡ db')
      → Frame v m
  Frame-read m reads = record { at = λ db x db' h. ap v (sym (reads db x db' h)) }

  pub Frame-bind :
      {A B : Type 0} (m : Tx A) (f : A → Tx B)
      → Frame v m
      → ((x : A) → Frame v (f x))
      → Frame v (m >>= f)
  Frame-bind m f km kf = record {
    at = λ db y db' h. let (x, d, e, k) = bind_ok m f h in (kf x).at d y db' k ∙ km.at db x d e;
  }

  pub Frame-then : {A B : Type 0} (m : Tx A) (k : Tx B) → Frame v m → Frame v k → Frame v (m >> k)
  Frame-then m k km kk = record {
    at = λ db y db' h. let (x, d, e, r) = then_ok m k h in kk.at d y db' r ∙ km.at db x d e;
  }

pub ruleset frame_rules = (
  Frame-pure, Frame-throw_if, Frame-throw_if_found, Frame-or_throw, Frame-find_row, Frame-gets,
  Frame-bind, Frame-then,
)
