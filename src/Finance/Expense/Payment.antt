-- ===== src/Finance/Expense/Payment.antt =====
-- expense.service.ts: pay.
pub mod Laws
use text.Mathlib.Text.{◌==◌ as str_eq}
use church_management.Base.{
  ℕ, ◌+◌, String, List, [], ◌∷◌, ◌++◌, Bool, true, false, not, ◌&&◌, ◌||◌, Option, none, some, ◌==◌,
  any, trim, leading_number,
}
use church_management.Runtime.{Runtime}
use church_management.Store.{Db}
use church_management.Store.Spending.{
  approved, paid, state_eq, ExpenseRequest, accepted, verdict_eq, ExpenseApproval,
  ExpenseSubmission, ExpensePayment,
}
use church_management.Store.Budgeting.{CheckAction}
use church_management.Tx.{
  Error, Result, Tx, pure, throw_if, find_row, throw_if_found, modify, ◌>>=◌, ◌>>◌,
}
use church_management.Identity.{Actor}
use church_management.Finance.Policy.{write, date, can_pay}
use church_management.Finance.Ledger.{ExpensePosting, post_expense}
use church_management.Finance.Budget.Control.{ExpenseBudgetStatus, enforce}
use church_management.Finance.Expense.Request.{get, check_version, event, replace}
use church_management.Finance.Expense.Review.{submission_of}

pub record PaymentDto : Type 0 where
  pub version : ℕ
  pub paid_on : String
  pub account_id : ℕ
  pub method : String
  pub reference : String

-- `!s.approvals.length || s.approvals.some((x) => x.decision !== 'APPROVED')`
abbrev pub is_incomplete : List ExpenseApproval → Bool
is_incomplete [] = true
is_incomplete (x ∷ xs) =
    any (λ (y : ExpenseApproval). not (verdict_eq y.decision accepted)) (x ∷ xs)

-- The budget year of a request, where it has one, is the year in which it is paid.
abbrev pub is_other_year : Option ℕ → String → Bool
is_other_year none paid_on = false
is_other_year (some year) paid_on = not (leading_number 4 0 paid_on == year)

abbrev pub is_used : ℕ → String → Db → Bool
is_used c ref db = any (λ x. x.church_id == c && str_eq x.reference ref) db.payments

abbrev pub posting : ℕ → PaymentDto → ExpenseSubmission → ExpensePosting
posting id d s = record {
  paid_on = d.paid_on;
  amount = s.amount;
  expense_account = s.account_id;
  asset_account = d.account_id;
  fund_id = s.fund_id;
  request_id = id;
}

abbrev pub new_payment : Actor → ℕ → ℕ → PaymentDto → ExpenseSubmission → ℕ → ℕ → ExpensePayment
new_payment a c id d s journal day = record {
  church_id = c;
  request_id = id;
  paid_by = a.user_id;
  paid_on = day;
  method = d.method;
  reference = trim d.reference;
  amount = s.amount;
  journal_id = journal;
}

abbrev pub add_payment : ExpensePayment → Db → Db
add_payment p db = record db { payments = db.payments ++ p ∷ [] }

abbrev pub paid_row : ExpenseRequest → ExpenseRequest
paid_row r = record r { state = paid; version = r.version + 1 }

unfoldable pub pay_tx : Runtime → Actor → ℕ → ℕ → PaymentDto → Tx (ℕ × ℕ × ExpenseBudgetStatus)
pay_tx rt a c id d = do
  row ← get a id
  check_version row d.version
  throw_if (not (state_eq row.state approved)) Error.bad
  throw_if (not (can_pay row.requester_id row.approver_ids a.user_id)) Error.denied
  s ← find_row (submission_of id row.round) Error.fault
  throw_if (is_incomplete s.approvals) Error.bad
  day ← date rt d.paid_on
  throw_if (is_other_year row.budget_year d.paid_on) Error.bad
  budget_check ← enforce rt a row CheckAction.pay
  throw_if_found (is_used c (trim d.reference)) Error.bad
  journal ← post_expense rt a c (posting id d s)
  paid_on ← date rt d.paid_on
  modify (add_payment (new_payment a c id d s journal paid_on))
  modify (replace id paid_row)
  event a (paid_row row) "pay" ""
  pure (journal, row.version + 1, budget_check)

-- ExpenseService.pay
unfoldable pub pay :
    Runtime → Actor → ℕ → ℕ → PaymentDto → Db → Result (ℕ × ℕ × ExpenseBudgetStatus) × Db
unfolding pay_tx
pay rt a c id d = write rt a c "expense.pay" (pay_tx rt a c id d) true
