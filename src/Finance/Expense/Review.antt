-- ===== src/Finance/Expense/Review.antt =====
-- expense.service.ts: submit and decide.
pub mod Laws
pub mod Submission
pub mod Decision
use church_management.Base.{
  ℕ, suc, ◌+◌, String, List, [], ◌∷◌, ◌++◌, map, Bool, true, false, not, ◌&&◌, ◌||◌, Option, none,
  some, ltb, ◌==◌, if◌then◌else◌, is_none, is_some, is_id, is_empty, trim, find_first, any, every,
  update_where,
}
use church_management.Runtime.{Runtime}
use church_management.Store.{Db}
use church_management.Store.People.{User}
use church_management.Store.Spending.{
  ExpenseState, in_review, returned, approved, state_eq, ExpenseRequest, Verdict, pending, accepted,
  rejected, verdict_eq, ExpenseApproval, ExpenseSubmission, ExpenseAttachment, SubmissionAttachment,
}
use church_management.Store.Budgeting.{CheckAction}
use church_management.Tx.{
  Error, Result, Tx, pure, throw_if, or_throw, gets, find_row, modify, ◌>>=◌, ◌>>◌,
}
use church_management.Identity.{Actor}
use church_management.Finance.Policy.{write}
use church_management.Finance.Budget.Control.{ExpenseBudgetStatus, enforce}
use church_management.Finance.Expense.Request.{
  get, own, check_version, editable, approvers, current_files, event, replace,
}

abbrev pub username_of : List User → ℕ → String
username_of users id = elim (find_first (λ (u : User). u.id == id) users) [
  | none ↦ ""
  | some u ↦ u.username
]

-- `users.find((u) => u.id === userId)!`: every approver is among the users.
abbrev pub all_known : List User → List ℕ → Bool
all_known users = every (λ id. any (λ (u : User). u.id == id) users)

-- One pending approval for each approver, in order; positions count from 1.
abbrev pub new_approvals : Runtime → List User → ℕ → List ℕ → List ExpenseApproval
new_approvals rt users i [] = []
new_approvals rt users i (id ∷ ids) =
    record {
      id = rt.new_id (i + 1);
      position = i + 1;
      user_id = id;
      username = username_of users id;
      decision = pending;
      reason = "";
      decided_at = none;
    }
    ∷ new_approvals rt users (i + 1) ids

abbrev pub new_submission : Runtime → ℕ → List User → ExpenseRequest → ExpenseSubmission
new_submission rt c users row = record {
  id = rt.new_id 0;
  church_id = c;
  request_id = row.id;
  round = row.round + 1;
  budget_year = row.budget_year;
  title = row.title;
  purpose = row.purpose;
  payee = row.payee;
  amount = row.amount;
  account_id = row.account_id;
  fund_id = row.fund_id;
  evidence_reference = row.evidence_reference;
  approvals = new_approvals rt users 0 row.approver_ids;
}

abbrev pub add_submission : ExpenseSubmission → Db → Db
add_submission s db = record db { submissions = db.submissions ++ s ∷ [] }

abbrev pub link : ℕ → ℕ → ExpenseAttachment → SubmissionAttachment
link c submission f = record { church_id = c; submission_id = submission; attachment_id = f.id }

abbrev pub add_links : List SubmissionAttachment → Db → Db
add_links ls db = record db { submission_attachments = db.submission_attachments ++ ls }

-- `currentApproverId: row.approverIds[0]!`; an undefined value leaves the column.
abbrev pub first_approver : ExpenseRequest → List ℕ → Option ℕ
first_approver r [] = r.current_approver_id
first_approver r (id ∷ ids) = some id

abbrev pub submitted : ExpenseRequest → ExpenseRequest → ExpenseRequest
submitted row r = record r {
  round = row.round + 1;
  state = in_review;
  current_approver_id = first_approver r row.approver_ids;
  version = r.version + 1;
}

abbrev is_nil : List ExpenseAttachment → Bool
is_nil [] = true
is_nil (_ ∷ _) = false

unfoldable pub submit_tx : Runtime → Actor → ℕ → ℕ → ℕ → Tx (ℕ × ExpenseBudgetStatus)
submit_tx rt a c id v = do
  row ← get a id
  own a row v
  editable row
  users ← approvers c row.approver_ids a.user_id
  files ← gets (current_files id)
  throw_if (is_empty (trim row.evidence_reference) && is_nil files) Error.bad
  throw_if (is_none row.budget_year) Error.bad
  budget_check ← enforce rt a row CheckAction.submit
  throw_if (not (all_known users row.approver_ids)) Error.fault
  modify (add_submission (new_submission rt c users row))
  modify (add_links (map (link c (rt.new_id 0)) files))
  modify (replace id (submitted row))
  event a (submitted row row) "submit" ""
  pure (row.version + 1, budget_check)

-- ExpenseService.submit
unfoldable pub submit : Runtime → Actor → ℕ → ℕ → ℕ → Db → Result (ℕ × ExpenseBudgetStatus) × Db
unfolding submit_tx
submit rt a c id v = write rt a c "expense.write" (submit_tx rt a c id v) false

pub record DecisionDto : Type 0 where
  pub approve : Bool
  pub reason : String
  pub version : ℕ

abbrev pub verdict_of : DecisionDto → Verdict
verdict_of d = if d.approve then accepted else rejected

-- The submission of the request's round.
abbrev pub submission_of : ℕ → ℕ → Db → Option ExpenseSubmission
submission_of id round db = find_first (λ s. s.request_id == id && s.round == round) db.submissions

abbrev pub first_pending : ExpenseSubmission → Option ExpenseApproval
first_pending s = find_first (λ x. verdict_eq x.decision pending) s.approvals

-- `s.approvals.find((x) => x.position > current.position)`
abbrev pub following : ExpenseApproval → ExpenseSubmission → Option ExpenseApproval
following current s = find_first (λ x. ltb current.position x.position) s.approvals

abbrev pub decided : DecisionDto → ℕ → ExpenseApproval → ExpenseApproval
decided d now x = record x { decision = verdict_of d; reason = d.reason; decided_at = some now }

abbrev pub decide_in : ℕ → DecisionDto → ℕ → ExpenseSubmission → ExpenseSubmission
decide_in id d now s = record s {
  approvals = update_where (λ x. x.id == id) (decided d now) s.approvals;
}

-- `expenseApproval.update({ where: { id }, … })`
abbrev pub set_approval : ℕ → DecisionDto → ℕ → Db → Db
set_approval id d now db = record db { submissions = map (decide_in id d now) db.submissions }

abbrev pub next_state : DecisionDto → Option ExpenseApproval → ExpenseState
next_state d next = if d.approve then (if is_some next then in_review else approved) else returned

abbrev pub next_approver : DecisionDto → Option ExpenseApproval → Option ℕ
next_approver d none = none
next_approver d (some x) = if d.approve then some x.user_id else none

abbrev pub reviewed : DecisionDto → Option ExpenseApproval → ExpenseRequest → ExpenseRequest
reviewed d next r = record r {
  state = next_state d next;
  current_approver_id = next_approver d next;
  version = r.version + 1;
}

-- A rejection is not checked against the budget.
unfoldable pub check_approval :
    Runtime → Actor → ExpenseRequest → Bool → Tx (Option ExpenseBudgetStatus)
check_approval rt a row true = enforce rt a row CheckAction.approve >>= λ x. pure (some x)
check_approval rt a row false = pure none

unfoldable pub decide_tx : Runtime → Actor → ℕ → DecisionDto → Tx (ℕ × Option ExpenseBudgetStatus)
decide_tx rt a id d = do
  row ← get a id
  check_version row d.version
  throw_if
      (not (state_eq row.state in_review)
        || not (is_id row.current_approver_id a.user_id)
        || row.requester_id == a.user_id)
      Error.denied
  s ← find_row (submission_of id row.round) Error.fault
  current ← or_throw (first_pending s) Error.denied
  throw_if (not (current.user_id == a.user_id)) Error.denied
  budget_check ← check_approval rt a row d.approve
  modify (set_approval current.id d rt.now)
  modify (replace id (reviewed d (following current s)))
  event a (reviewed d (following current s) row) (if d.approve then "approve" else "reject")
      d.reason
  pure (row.version + 1, budget_check)

-- ExpenseService.decide
unfoldable pub decide :
    Runtime → Actor → ℕ → ℕ → DecisionDto → Db → Result (ℕ × Option ExpenseBudgetStatus) × Db
unfolding decide_tx check_approval
decide rt a c id d = write rt a c "expense.approve" (decide_tx rt a id d) true
