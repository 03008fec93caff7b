-- ===== src/Finance/Budget/Approval.antt =====
-- finance/application/budget.service.ts (save) and budget-approval.service.ts (decide): a budget line
-- changes by a request of one person and the decision of another.
pub mod Laws
pub mod Versions
use church_management.Base.{
  ℕ, ◌+◌, String, List, [], ◌∷◌, ◌++◌, Bool, true, false, not, ◌&&◌, Option, none, some, ◌==◌,
  if◌then◌else◌, is_none, is_some, find_first, any, update_where, key_or_zero, trim,
}
use church_management.Runtime.{Runtime}
use church_management.Store.{Db}
use church_management.Store.People.{ResourceId}
use church_management.Store.Books.{AccountKind}
use church_management.Store.Budgeting.{
  BudgetLine, BudgetRevision, Decision, BudgetDecision, BudgetChange,
}
use church_management.Tx.{
  Error, Result, Tx, pure, throw_if, gets, find_row, throw_if_found, modify, ◌>>=◌, ◌>>◌,
}
use church_management.Identity.{Actor, check, record_audit}
use church_management.Finance.Policy.{write, account_of}
use church_management.Finance.Budget.Control.{line_eq, latest_revision}

pub record BudgetRevisionDto : Type 0 where
  pub year : ℕ
  pub account_id : ℕ
  pub fund_id : ℕ
  pub version : ℕ
  pub amount : ℕ
  pub reason : String

abbrev pub dto_line : ℕ → BudgetRevisionDto → BudgetLine
dto_line c d = record {
  church_id = c;
  year = d.year;
  account_id = d.account_id;
  fund_id = d.fund_id;
}

-- BudgetService.line: the account must be one for expenses, and the fund must exist.
unfoldable pub line : ℕ → BudgetRevisionDto → Tx BudgetLine
line c d = do
  throw_if_found
      (λ db. not (
        any (account_of c d.account_id AccountKind.expense) db.accounts
        && any (λ f. f.church_id == c && f.id == d.fund_id) db.funds))
      Error.missing
  pure (dto_line c d)

-- `latest?.amount.toFixed(0) === d.amount`; both are canonical decimal numerals.
abbrev pub same_amount : Option BudgetRevision → ℕ → Bool
same_amount none n = false
same_amount (some r) n = r.amount == n

abbrev pub is_undecided : BudgetLine → BudgetChange → Bool
is_undecided l x = line_eq x.line l && is_none x.decision

abbrev pub add_change : BudgetChange → Db → Db
add_change x db = record db { budget_changes = db.budget_changes ++ x ∷ [] }

abbrev pub new_change : Runtime → Actor → BudgetLine → BudgetRevisionDto → BudgetChange
new_change rt a l d = record {
  id = rt.new_id 0;
  line = l;
  base_version = d.version;
  amount = d.amount;
  reason = trim d.reason;
  requested_by = a.user_id;
  decision = none;
}

abbrev pub version_of : Option BudgetRevision → ℕ
version_of = key_or_zero (λ r. r.version)

unfoldable pub save_tx : Runtime → Actor → ℕ → BudgetRevisionDto → Tx ℕ
save_tx rt a c d = do
  check a c "budget.read"
  l ← line c d
  current ← gets (latest_revision l)
  throw_if (not (version_of current == d.version)) Error.conflict
  throw_if (same_amount current d.amount) Error.bad
  throw_if_found (λ db. any (is_undecided l) db.budget_changes) Error.conflict
  modify (add_change (new_change rt a l d))
  record_audit a "budget.request" "budget-change" (ResourceId.row (rt.new_id 0))
      ("year" ∷ "accountId" ∷ "fundId" ∷ "amount" ∷ "reason" ∷ [])
  pure (rt.new_id 0)

-- BudgetService.save
unfoldable pub save : Runtime → Actor → ℕ → BudgetRevisionDto → Db → Result ℕ × Db
unfolding save_tx
save rt a c d = write rt a c "budget.write" (save_tx rt a c d) true

-- BudgetDecisionDto or BudgetCancelDto: `cancels` is the parameter `cancel` of `decide`.
pub data DecisionDto : Type 0 where
  approves rejects cancels : String → DecisionDto

abbrev pub decision_of : DecisionDto → Decision
decision_of (approves _) = Decision.approved
decision_of (rejects _) = Decision.rejected
decision_of (cancels _) = Decision.cancelled

abbrev pub reason_of : DecisionDto → String
reason_of (approves s) = s
reason_of (rejects s) = s
reason_of (cancels s) = s

abbrev pub is_cancel : DecisionDto → Bool
is_cancel (cancels _) = true
is_cancel _ = false

abbrev pub is_approval : DecisionDto → Bool
is_approval (approves _) = true
is_approval _ = false

abbrev pub change_of : ℕ → ℕ → Db → Option BudgetChange
change_of c id db = find_first (λ x. x.id == id && x.line.church_id == c) db.budget_changes

-- Who asks for a change may cancel it, and no one else may; who decides is someone else.
abbrev pub wrong_person : DecisionDto → BudgetChange → Actor → Bool
wrong_person d x a =
    if is_cancel d then not (x.requested_by == a.user_id) else x.requested_by == a.user_id

abbrev pub set_decision : ℕ → BudgetDecision → Db → Db
set_decision id v db = record db {
  budget_changes =
      update_where (λ x. x.id == id) (λ x. record x { decision = some v }) db.budget_changes;
}

abbrev pub new_decision : Actor → DecisionDto → BudgetDecision
new_decision a d = record {
  decision = decision_of d;
  reason = trim (reason_of d);
  decided_by = a.user_id;
}

abbrev pub new_revision : Runtime → BudgetChange → BudgetRevision
new_revision rt x = record {
  id = rt.new_id 0;
  line = x.line;
  change_id = some x.id;
  version = x.base_version + 1;
  amount = x.amount;
  reason = x.reason;
  created_by = x.requested_by;
}

abbrev pub add_revision : BudgetRevision → Db → Db
add_revision r db = record db { budget_revisions = db.budget_revisions ++ r ∷ [] }

abbrev pub audit_name : DecisionDto → String
audit_name (approves _) = "budget.approved"
audit_name (rejects _) = "budget.rejected"
audit_name (cancels _) = "budget.cancelled"

-- The answer of `decide`, less the change's id.
pub record DecisionResult : Type 0 where
  pub decision : Decision
  pub revision_id : Option ℕ
  pub version : Option ℕ

abbrev pub result_of : Runtime → DecisionDto → BudgetChange → DecisionResult
result_of rt d x = record {
  decision = decision_of d;
  revision_id = if is_approval d then some (rt.new_id 0) else none;
  version = if is_approval d then some (x.base_version + 1) else none;
}

unfoldable pub decide_tx : Runtime → Actor → ℕ → ℕ → DecisionDto → Tx DecisionResult
decide_tx rt a c id d = do
  check a c "budget.read"
  x ← find_row (change_of c id) Error.missing
  throw_if (wrong_person d x a) Error.denied
  throw_if (is_some x.decision) Error.conflict
  current ← gets (latest_revision x.line)
  throw_if (is_approval d && not (version_of current == x.base_version)) Error.conflict
  modify (set_decision id (new_decision a d))
  modify (λ db. if is_approval d then add_revision (new_revision rt x) db else db)
  record_audit a (audit_name d) "budget-change" (ResourceId.row id) []
  pure (result_of rt d x)

-- BudgetApprovalService.decide
unfoldable pub decide : Runtime → Actor → ℕ → ℕ → DecisionDto → Db → Result DecisionResult × Db
unfolding decide_tx
decide rt a c id d =
    write rt a c (if is_cancel d then "budget.write" else "budget.approve") (decide_tx rt a c id d)
      true
