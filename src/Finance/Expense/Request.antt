-- ===== src/Finance/Expense/Request.antt =====
-- expense.service.ts: who sees a request, and the checks that its operations share.
pub mod Laws
use church_management.Base.{
  ℕ, String, List, [], ◌∷◌, ◌++◌, Bool, true, false, not, ◌&&◌, ◌||◌, Option, none, some, ◌==◌,
  is_none, find_first, any, every, select, update_where, length, join,
}
use church_management.Store.{Db}
use church_management.Store.People.{User, ResourceId}
use church_management.Store.Books.{AccountKind}
use church_management.Store.Spending.{
  ExpenseState, draft, returned, approved, paid, state_eq, ExpenseRequest, ExpenseApproval,
  ExpenseSubmission, ExpenseAttachment, ExpenseEvent,
}
use church_management.Tx.{
  Error, Tx, pure, throw_if, gets, find_row, throw_if_found, modify, ◌>>=◌, ◌>>◌,
}
use church_management.Identity.{Actor, has, record_audit}
use church_management.Finance.Policy.{includes, valid_approval_line, integer_won, account}
use church_management.Base.{includes_text}

pub record ExpenseDto : Type 0 where
  pub budget_year : ℕ
  pub title : String
  pub purpose : String
  pub payee : String
  pub amount : ℕ
  pub account_id : ℕ
  pub fund_id : ℕ
  pub evidence_reference : String
  pub approver_ids : List ℕ

-- A submission of the request that asks the user for an approval.
abbrev pub asks : ExpenseRequest → ℕ → ExpenseSubmission → Bool
asks r user s = s.request_id == r.id && any (λ (x : ExpenseApproval). x.user_id == user) s.approvals

-- ExpenseService.visible
unfoldable pub visible : Actor → Db → ExpenseRequest → Bool
visible a db r =
    r.church_id == a.church_id
    && (has a "finance.readall"
        || r.requester_id == a.user_id
        || any (asks r a.user_id) db.submissions
        || (has a "expense.pay" && (state_eq r.state approved || state_eq r.state paid)))

abbrev pub visible_row : Actor → ℕ → Db → Option ExpenseRequest
visible_row a id db = find_first (λ r. visible a db r && r.id == id) db.expenses

-- ExpenseService.get
unfoldable pub get : Actor → ℕ → Tx ExpenseRequest
get a id = find_row (visible_row a id) Error.missing

-- ExpenseService.version
unfoldable pub check_version : ExpenseRequest → ℕ → Tx (Unit {0})
check_version row v = throw_if (not (row.version == v)) Error.conflict

-- ExpenseService.own
unfoldable pub own : Actor → ExpenseRequest → ℕ → Tx (Unit {0})
unfolding check_version
own a row v = do throw_if (not (row.requester_id == a.user_id)) Error.denied; check_version row v

abbrev pub is_editable : ExpenseState → Bool
is_editable s = state_eq s draft || state_eq s returned

-- ExpenseService.editable
unfoldable pub editable : ExpenseRequest → Tx (Unit {0})
editable row = throw_if (not (is_editable row.state)) Error.bad

-- An active user of the church, named in the line, whose roles let him approve expenses.
abbrev pub is_approver : ℕ → List ℕ → User → Bool
is_approver c ids u =
    u.church_id == c
    && includes ids u.id
    && u.active
    && includes_text u.permissions "expense.approve"

-- ExpenseService.approvers
unfoldable pub approvers : ℕ → List ℕ → ℕ → Tx (List User)
approvers c ids requester = do
  throw_if (not (valid_approval_line ids requester)) Error.bad
  users ← gets (λ db. select (is_approver c ids) db.users)
  throw_if (not (length users == length ids)) Error.bad
  pure users

-- `if (d.approverIds.length) await this.approvers(…)`
unfoldable pub check_line : ℕ → List ℕ → ℕ → Tx (Unit {0})
check_line c [] requester = pure tt
check_line c (x ∷ xs) requester = do users ← approvers c (x ∷ xs) requester; pure tt

-- ExpenseService.checkData
unfoldable pub check_data : ℕ → ExpenseDto → ℕ → Tx (Unit {0})
check_data c d requester = do
  throw_if (not (integer_won d.amount)) Error.bad
  account c d.account_id AccountKind.expense
  throw_if_found (λ db. not (any (λ f. f.id == d.fund_id && f.church_id == c) db.funds)) Error.bad
  check_line c d.approver_ids requester

abbrev pub new_event : Actor → ExpenseRequest → String → String → ExpenseEvent
new_event a row action reason = record {
  church_id = row.church_id;
  request_id = row.id;
  actor_id = a.user_id;
  action = action;
  reason = reason;
  version = row.version;
  round = row.round;
}

abbrev pub add_event : ExpenseEvent → Db → Db
add_event e db = record db { expense_events = db.expense_events ++ e ∷ [] }

-- ExpenseService.event
unfoldable pub event : Actor → ExpenseRequest → String → String → Tx (Unit {0})
event a row action reason = do
  modify (add_event (new_event a row action reason))
  record_audit a (join "expense." action) "expense" (ResourceId.row row.id) []

-- `expenseRequest.update({ where: { id }, … })`
abbrev pub replace : ℕ → (ExpenseRequest → ExpenseRequest) → Db → Db
replace id f db = record db { expenses = update_where (λ r. r.id == id) f db.expenses }

-- The attachments of a request that have not been removed.
abbrev pub current_files : ℕ → Db → List ExpenseAttachment
current_files id db = select (λ f. f.request_id == id && is_none f.removed_at) db.attachments
