-- ===== src/Examples/Church.antt =====
-- A church with three accounts, a fund, a half-year period and a budget, and the people who use it.
use text.Mathlib.Text.{◌==◌ as str_eq}
use church_management.Base.{
  trim, decimal, leading_number, ◌+ℤ◌, ℕ, ◌+◌, String, List, [], ◌∷◌, true, Option, none, some,
  if◌then◌else◌, ◌==◌,
}
use church_management.Runtime.{Runtime}
use church_management.Tx.{tx}
use church_management.Identity.{Actor, check, record_audit}
use church_management.Finance.Policy.{
  write, date, open_period, account, valid_approval_line, can_pay, integer_won, is_recent,
}
use church_management.Finance.Ledger.{post_expense}
use church_management.Finance.Budget.Control.{policy, evaluate, enforce}
use church_management.Finance.Budget.Approval.{line}
use church_management.Finance.Expense.Request.{
  get, check_version, own, editable, approvers, check_line, check_data, event, visible,
}
use church_management.Store.{Db}
use church_management.Store.Books.{asset, expense, revenue}
use church_management.Store.Budgeting.{BudgetLine, block}

-- What the runs unfold beside the operation itself.
unfoldable pub run : Unit {0}
unfolding tx write check record_audit date open_period account get check_version own editable
    approvers check_line check_data event evaluate enforce post_expense line valid_approval_line
    can_pay integer_won is_recent visible policy trim decimal leading_number ◌+ℤ◌
run = tt

abbrev parse : String → Option ℕ
parse s =
    if str_eq s "2025-03-01"
    then some 60
    else (if str_eq s "2025-01-01"
        then some 1
        else (if str_eq s "2025-12-31"
            then some 365
            else (if str_eq s "2025-07-01" then some 182 else none)))

abbrev print : ℕ → String
print d =
    if d == 60
    then "2025-03-01"
    else (if d == 1
        then "2025-01-01"
        else (if d == 365 then "2025-12-31" else (if d == 182 then "2025-07-01" else "1970-01-01")))

abbrev pub rt : Runtime
rt = record {
  now = 1000000;
  new_id = λ n. 100 + n;
  parse_date = parse;
  iso_date = print;
  today = λ zone. "2025-06-30";
}

abbrev pub person : ℕ → List String → Actor
person id permissions = record {
  authenticated_at = some 900000;
  mfa_verified = true;
  user_id = id;
  church_id = 9;
  roles = [];
  permissions = permissions;
  correlation_id = "c-1";
}

abbrev pub member : Actor
member = person 1 ("expense.read" ∷ "expense.write" ∷ "budget.read" ∷ "budget.write" ∷ [])

abbrev pub approver : Actor
approver = person 2 ("expense.read" ∷ "expense.approve" ∷ "budget.read" ∷ "budget.approve" ∷ [])

abbrev pub treasurer : Actor
treasurer = person 4 (
    "finance.manage" ∷ "finance.close" ∷ "finance.reverse" ∷ "expense.pay" ∷ "finance.readall" ∷ [])

abbrev pub budget_line : BudgetLine
budget_line = record { church_id = 9; year = 2025; account_id = 12; fund_id = 21 }

abbrev pub start : Db
start = record {
  churches = record { id = 9; timezone = "Asia/Seoul" } ∷ [];
  users =
      record {
        id = 2;
        church_id = 9;
        username = "kim";
        password_hash = some "scrypt$salt$2a";
        auth_version = 3;
        active = true;
        scope_mode = "ALL";
        totp_secret = some "sealed";
        totp_enabled = true;
        totp_last_counter = some 30;
        role_names = "elder" ∷ [];
        permissions = "expense.approve" ∷ [];
      }
      ∷ [];
  roles = [];
  sessions = [];
  login_attempts = [];
  members = record { id = 7; church_id = 9; name = "Lee" } ∷ [];
  audit_events = [];
  accounts =
      record { id = 11; church_id = 9; code = "101"; name = "Bank"; kind = asset }
      ∷ record { id = 12; church_id = 9; code = "501"; name = "Supplies"; kind = expense }
      ∷ record { id = 13; church_id = 9; code = "401"; name = "Offerings"; kind = revenue }
      ∷ [];
  funds = record { id = 21; church_id = 9; name = "General" } ∷ [];
  periods =
      record {
        id = 31;
        church_id = 9;
        name = "2025 H1";
        starts_on = 1;
        ends_on = 181;
        closed_at = none;
      }
      ∷ [];
  journals = [];
  expenses = [];
  submissions = [];
  attachments = [];
  submission_attachments = [];
  expense_events = [];
  payments = [];
  budget_policies =
      record { church_id = 9; version = 1; mode = block; reason = "agreed"; created_by = 4 } ∷ [];
  budget_revisions =
      record {
        id = 51;
        line = budget_line;
        change_id = none;
        version = 1;
        amount = 10000;
        reason = "first";
        created_by = 4;
      }
      ∷ [];
  budget_changes = [];
  budget_checks = [];
  offering_types = [];
  donors = [];
  offerings = [];
  offering_reversals = [];
  offering_events = [];
  issuers = [];
  receipts = [];
  claims = [];
  receipt_cancellations = [];
}
