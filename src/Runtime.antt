-- ===== src/Runtime.antt =====
-- What the services take from the outside at a call: the clock, the ids that the database generates,
-- and the runtime's dates (`Date` and `Intl.DateTimeFormat`), whose code is not in this repository.
use church_management.Base.{ℕ, String, Option}

pub record Runtime : Type 0 where
  -- `Date.now()` in milliseconds
  pub now : ℕ
  -- the id of the n-th row that the call inserts
  pub new_id : ℕ → ℕ
  -- `new Date(s + 'T00:00:00Z')`; none is an invalid date
  pub parse_date : String → Option ℕ
  -- `d.toISOString().slice(0, 10)`
  pub iso_date : ℕ → String
  -- today's date in a time zone, as `YYYY-MM-DD`
  pub today : String → String
