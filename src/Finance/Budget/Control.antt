-- ===== src/Finance/Budget/Control.antt =====
-- finance/application/budget-control.service.ts: the church's budget control mode, and the check of
-- an expense request against the budget line that it would use.
pub mod Laws
use church_management.Base.{
  ℕ, ◌+◌, String, join, ◌++◌, List, [], ◌∷◌, Bool, true, false, not, ◌&&◌, ◌||◌, Option, none, some,
  leb, ◌==◌, if◌then◌else◌, is_none, is_id, latest, key_or_zero, select, any, sum_of, trim, decimal,
  ℤ, pos, sub_ℕ, ◌+ℤ◌, ltb_ℤ,
}
use church_management.Runtime.{Runtime}
use church_management.Store.{Db}
use church_management.Store.People.{ResourceId}
use church_management.Store.Books.{JournalLine, JournalEntry}
use church_management.Store.Spending.{ExpenseRequest, state_eq, in_review, approved}
use church_management.Store.Budgeting.{
  BudgetLine, Mode, warn, block, mode_eq, BudgetPolicyRevision, BudgetRevision, BudgetStatus,
  legacy_year, unbudgeted, exceeded, within, is_within, CheckAction, ExpenseBudgetCheck,
}
use church_management.Tx.{Error, Result, Tx, pure, throw_if, gets, modify, ◌>>=◌, ◌>>◌}
use church_management.Identity.{Actor, record_audit}
use church_management.Finance.Policy.{write, date}

-- BudgetControlPolicy of packages/contracts/src/budgets.ts.
pub record BudgetControlPolicy : Type 0 where
  pub mode : Mode
  pub version : ℕ
  pub legacy_pending : ℕ

-- ExpenseBudgetStatus of packages/contracts/src/budgets.ts.
pub record ExpenseBudgetStatus : Type 0 where
  pub year : Option ℕ
  pub mode : Mode
  pub policy_version : ℕ
  pub budget_version : ℕ
  pub status : BudgetStatus

pub record BudgetPolicyDto : Type 0 where
  pub mode : Mode
  pub version : ℕ
  pub reason : String

-- `state: { in: ['IN_REVIEW', 'APPROVED'] }`
abbrev pub is_committed : ExpenseRequest → Bool
is_committed r = state_eq r.state in_review || state_eq r.state approved

abbrev pub latest_policy : ℕ → Db → Option BudgetPolicyRevision
latest_policy c db = latest (λ p. p.version) (select (λ p. p.church_id == c) db.budget_policies)

abbrev pub is_legacy_pending : ℕ → ExpenseRequest → Bool
is_legacy_pending c r = r.church_id == c && is_none r.budget_year && is_committed r

-- BudgetControlService.policy
unfoldable pub policy : ℕ → Db → BudgetControlPolicy
policy c db = record {
  mode = elim (latest_policy c db) [
    | none ↦ warn
    | some p ↦ if mode_eq p.mode block then block else warn
  ];
  version = key_or_zero (λ p. p.version) (latest_policy c db);
  legacy_pending = sum_of (λ r. if is_legacy_pending c r then 1 else 0) db.expenses;
}

-- BudgetControlService.readPolicy
unfoldable pub read_policy : Runtime → Actor → ℕ → Db → Result BudgetControlPolicy × Db
read_policy rt a c =
    write rt a c "finance.manage"
      (do
        record_audit a "budget.policy.read" "budget-policy" (ResourceId.row c) []
        gets (policy c))
      false

abbrev pub add_policy : BudgetPolicyRevision → Db → Db
add_policy p db = record db { budget_policies = db.budget_policies ++ p ∷ [] }

abbrev pub new_policy : Actor → ℕ → BudgetPolicyDto → BudgetPolicyRevision
new_policy a c d = record {
  church_id = c;
  version = d.version + 1;
  mode = d.mode;
  reason = trim d.reason;
  created_by = a.user_id;
}

unfoldable pub save_policy_tx : Actor → ℕ → BudgetPolicyDto → Tx BudgetControlPolicy
save_policy_tx a c d = do
  current ← gets (policy c)
  throw_if (not (current.version == d.version)) Error.conflict
  throw_if (mode_eq current.mode d.mode) Error.bad
  throw_if (mode_eq d.mode block && not (current.legacy_pending == 0)) Error.bad
  modify (add_policy (new_policy a c d))
  record_audit a "budget.policy.change" "budget-policy" (ResourceId.row c) ("mode" ∷ "reason" ∷ [])
  gets (policy c)

-- BudgetControlService.savePolicy
unfoldable pub save_policy :
    Runtime → Actor → ℕ → BudgetPolicyDto → Db → Result BudgetControlPolicy × Db
unfolding save_policy_tx
save_policy rt a c d = write rt a c "finance.manage" (save_policy_tx a c d) true

abbrev pub line_eq : BudgetLine → BudgetLine → Bool
line_eq l m =
    l.church_id == m.church_id
    && l.year == m.year
    && l.account_id == m.account_id
    && l.fund_id == m.fund_id

abbrev pub latest_revision : BudgetLine → Db → Option BudgetRevision
latest_revision l db = latest (λ r. r.version) (select (λ r. line_eq r.line l) db.budget_revisions)

-- The rows of the sum over journal lines: the church's, of the account and fund, of a day in range.
abbrev pub books_on : (JournalLine → ℕ) → ℕ → ℕ → ℕ → ℕ → ℕ → List JournalEntry → ℕ
books_on side c acc fund from to = sum_of λ j.
    if j.church_id == c && leb from j.posted_on && leb j.posted_on to
    then sum_of (λ l. if l.account_id == acc && l.fund_id == fund then side l else 0) j.lines
    else 0

-- `COALESCE(sum(l.debit-l.credit),0)`
abbrev pub actual : BudgetLine → ℕ → ℕ → Db → ℤ
actual l from to db =
    sub_ℕ (books_on (λ x. x.debit) l.church_id l.account_id l.fund_id from to db.journals)
      (books_on (λ x. x.credit) l.church_id l.account_id l.fund_id from to db.journals)

-- The other requests that hold the same budget line.
abbrev pub holds_line : BudgetLine → ℕ → ExpenseRequest → Bool
holds_line l id r =
    r.church_id == l.church_id
    && is_id r.budget_year l.year
    && r.account_id == l.account_id
    && r.fund_id == l.fund_id
    && not (r.id == id)
    && is_committed r

abbrev pub pending : BudgetLine → ℕ → Db → ℕ
pending l id db = sum_of (λ r. if holds_line l id r then r.amount else 0) db.expenses

abbrev pub line_of : ExpenseRequest → ℕ → BudgetLine
line_of row year = record {
  church_id = row.church_id;
  year = year;
  account_id = row.account_id;
  fund_id = row.fund_id;
}

-- What the line would carry with the request: booked, reserved by others, and its own amount.
abbrev pub total : ExpenseRequest → ℕ → ℕ → ℕ → Db → ℤ
total row year from to db =
    actual (line_of row year) from to db
    +ℤ pos (pending (line_of row year) row.id db)
    +ℤ pos row.amount

abbrev pub status_with : BudgetControlPolicy → Option ℕ → ℕ → BudgetStatus → ExpenseBudgetStatus
status_with p year budget_version status = record {
  year = year;
  mode = p.mode;
  policy_version = p.version;
  budget_version = budget_version;
  status = status;
}

-- The part of `evaluate` that has found the latest revision of the line.
pub evaluate_line :
    Runtime → BudgetControlPolicy → ExpenseRequest → ℕ → BudgetRevision → Tx ExpenseBudgetStatus
evaluate_line rt p row year revision = do
  from ← date rt (join (decimal year) "-01-01")
  to ← date rt (join (decimal year) "-12-31")
  sum ← gets (total row year from to)
  pure (
      status_with p (some year) revision.version
        (if ltb_ℤ (pos revision.amount) sum then exceeded else within))

evaluate_year : Runtime → BudgetControlPolicy → ExpenseRequest → ℕ → Tx ExpenseBudgetStatus
evaluate_year rt p row year db = elim (latest_revision (line_of row year) db) [
  | none ↦ pure (status_with p (some year) 0 unbudgeted) db
  | some revision ↦ evaluate_line rt p row year revision db
]

-- BudgetControlService.evaluate
unfoldable pub evaluate : Runtime → ExpenseRequest → Tx ExpenseBudgetStatus
unfolding evaluate_line evaluate_year
evaluate rt row db = elim row.budget_year [
  | none ↦ pure (status_with (policy row.church_id db) none 0 legacy_year) db
  | some year ↦ evaluate_year rt (policy row.church_id db) row year db
]

abbrev pub add_check : ExpenseBudgetCheck → Db → Db
add_check x db = record db { budget_checks = db.budget_checks ++ x ∷ [] }

abbrev pub new_check :
    Actor → ExpenseRequest → CheckAction → ExpenseBudgetStatus → ExpenseBudgetCheck
new_check a row action result = record {
  church_id = row.church_id;
  request_id = row.id;
  request_version = row.version;
  actor_id = a.user_id;
  action = action;
  year = result.year;
  mode = result.mode;
  status = result.status;
  budget_version = result.budget_version;
  policy_version = result.policy_version;
}

-- BudgetControlService.enforce
unfoldable pub enforce : Runtime → Actor → ExpenseRequest → CheckAction → Tx ExpenseBudgetStatus
enforce rt a row action = do
  result ← evaluate rt row
  throw_if (mode_eq result.mode block && not (is_within result.status)) Error.budget_blocked
  modify (add_check (new_check a row action result))
  record_audit a
      (if is_within result.status then "expense.budget.check" else "expense.budget.warning")
      "expense" (ResourceId.row row.id) []
  pure result
