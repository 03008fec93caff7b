-- ===== src/Store/Spending.antt =====
-- Rows of apps/api/prisma/schema.prisma about expense requests and their approval.
use church_management.Base.{ℕ, String, List, Option, Bool, true, false}

pub data ExpenseState : Type 0 where
  draft in_review returned approved paid cancelled : ExpenseState

abbrev pub state_eq : ExpenseState → ExpenseState → Bool
state_eq draft draft = true
state_eq in_review in_review = true
state_eq returned returned = true
state_eq approved approved = true
state_eq paid paid = true
state_eq cancelled cancelled = true
state_eq _ _ = false

pub record ExpenseRequest : Type 0 where
  pub id : ℕ
  pub church_id : ℕ
  pub requester_id : ℕ
  pub budget_year : Option ℕ
  pub title : String
  pub purpose : String
  pub payee : String
  pub amount : ℕ
  pub account_id : ℕ
  pub fund_id : ℕ
  pub evidence_reference : String
  pub approver_ids : List ℕ
  pub current_approver_id : Option ℕ
  pub state : ExpenseState
  pub round : ℕ
  pub version : ℕ

pub data Verdict : Type 0 where
  pending accepted rejected : Verdict

abbrev pub verdict_eq : Verdict → Verdict → Bool
verdict_eq pending pending = true
verdict_eq accepted accepted = true
verdict_eq rejected rejected = true
verdict_eq _ _ = false

pub record ExpenseApproval : Type 0 where
  pub id : ℕ
  pub position : ℕ
  pub user_id : ℕ
  pub username : String
  pub decision : Verdict
  pub reason : String
  pub decided_at : Option ℕ

-- The approvals stand inside the submission that they belong to.
pub record ExpenseSubmission : Type 0 where
  pub id : ℕ
  pub church_id : ℕ
  pub request_id : ℕ
  pub round : ℕ
  pub budget_year : Option ℕ
  pub title : String
  pub purpose : String
  pub payee : String
  pub amount : ℕ
  pub account_id : ℕ
  pub fund_id : ℕ
  pub evidence_reference : String
  pub approvals : List ExpenseApproval

pub record ExpenseAttachment : Type 0 where
  pub id : ℕ
  pub church_id : ℕ
  pub request_id : ℕ
  pub uploaded_by : ℕ
  pub filename : String
  pub mime : String
  pub size : ℕ
  pub sha256 : String
  pub removed_at : Option ℕ

pub record SubmissionAttachment : Type 0 where
  pub church_id : ℕ
  pub submission_id : ℕ
  pub attachment_id : ℕ

pub record ExpenseEvent : Type 0 where
  pub church_id : ℕ
  pub request_id : ℕ
  pub actor_id : ℕ
  pub action : String
  pub reason : String
  pub version : ℕ
  pub round : ℕ

pub record ExpensePayment : Type 0 where
  pub church_id : ℕ
  pub request_id : ℕ
  pub paid_by : ℕ
  pub paid_on : ℕ
  pub method : String
  pub reference : String
  pub amount : ℕ
  pub journal_id : ℕ
