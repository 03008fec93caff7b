-- ===== src/System/Steps.antt =====
-- The finance routes together, as steps from one state of the database to the next.
use church_management.Base.{ℕ, String, ◌≢◌, All}
use church_management.Runtime.{Runtime}
use church_management.Store.{Db}
use church_management.Store.Spending.{ExpenseRequest}
use church_management.Store.Giving.{Offering}
use church_management.Identity.{Actor}
use church_management.Finance.Routes.{
  FinanceOp, BudgetOp, OfferingOp, finance_permission, budget_permission, offering_permission,
  perform_finance, perform_budget, perform_offering,
}

pub data Op : Type 0 where
  finance : FinanceOp → Op
  budget : BudgetOp → Op
  offering : OfferingOp → Op

-- The permission of the route.
abbrev pub permission : Op → String
permission (Op.finance o) = finance_permission o
permission (Op.budget o) = budget_permission o
permission (Op.offering o) = offering_permission o

unfoldable pub perform : Runtime → Actor → ℕ → Op → Db → Db
perform rt a c (Op.finance o) db = perform_finance rt a c o db
perform rt a c (Op.budget o) db = perform_budget rt a c o db
perform rt a c (Op.offering o) db = perform_offering rt a c o db

-- The id that the database will give to a new request or offering is not in use.
pub record Fresh (rt : Runtime) (db : Db) : Type 0 where
  pub expense : All (λ (r : ExpenseRequest). r.id ≢ rt.new_id 0) db.expenses
  pub offering : All (λ (o : Offering). o.id ≢ rt.new_id 0) db.offerings

-- One call by any caller at any time.
pub data Step : Db → Db → Type 0 where
  call :
      (rt : Runtime) (a : Actor) (c : ℕ) (op : Op) (db : Db)
      → Fresh rt db
      → Step db (perform rt a c op db)

-- The states that a sequence of calls leads to.
pub data Reach (start : Db) : Db → Type 0 where
  here : Reach start start
  next : {db db' : Db} → Reach start db → Step db db' → Reach start db'
