-- ===== src/Store/Budgeting.antt =====
-- Rows of apps/api/prisma/schema.prisma about annual budgets and the budget control.
use church_management.Base.{ℕ, String, Option, Bool, true, false}

-- One budget line: a church's account and fund in a year.
pub record BudgetLine : Type 0 where
  pub church_id : ℕ
  pub year : ℕ
  pub account_id : ℕ
  pub fund_id : ℕ

pub data Mode : Type 0 where
  warn block : Mode

abbrev pub mode_eq : Mode → Mode → Bool
mode_eq warn warn = true
mode_eq block block = true
mode_eq _ _ = false

pub record BudgetPolicyRevision : Type 0 where
  pub church_id : ℕ
  pub version : ℕ
  pub mode : Mode
  pub reason : String
  pub created_by : ℕ

pub record BudgetRevision : Type 0 where
  pub id : ℕ
  pub line : BudgetLine
  pub change_id : Option ℕ
  pub version : ℕ
  pub amount : ℕ
  pub reason : String
  pub created_by : ℕ

pub data Decision : Type 0 where
  approved rejected cancelled : Decision

pub record BudgetDecision : Type 0 where
  pub decision : Decision
  pub reason : String
  pub decided_by : ℕ

-- The decision of a change is its only related row, so it stands inside the change.
pub record BudgetChange : Type 0 where
  pub id : ℕ
  pub line : BudgetLine
  pub base_version : ℕ
  pub amount : ℕ
  pub reason : String
  pub requested_by : ℕ
  pub decision : Option BudgetDecision

pub data BudgetStatus : Type 0 where
  legacy_year unbudgeted exceeded within : BudgetStatus

abbrev pub is_within : BudgetStatus → Bool
is_within within = true
is_within _ = false

pub data CheckAction : Type 0 where
  submit approve pay : CheckAction

pub record ExpenseBudgetCheck : Type 0 where
  pub church_id : ℕ
  pub request_id : ℕ
  pub request_version : ℕ
  pub actor_id : ℕ
  pub action : CheckAction
  pub year : Option ℕ
  pub mode : Mode
  pub status : BudgetStatus
  pub budget_version : ℕ
  pub policy_version : ℕ
