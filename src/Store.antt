-- ===== src/Store.antt =====
-- The database that the services share: one list of rows for each table, in the order in which the
-- rows were written. The columns are those of apps/api/prisma/schema.prisma that the services read.
pub mod People
pub mod Books
pub mod Spending
pub mod Budgeting
pub mod Giving
use church_management.Base.{List}
use People.{Church, User, Role, Session, LoginAttempt, Member, AuditEvent}
use Books.{FinanceAccount, FinanceFund, FinancePeriod, JournalEntry}
use Spending.{
  ExpenseRequest, ExpenseSubmission, ExpenseAttachment, SubmissionAttachment, ExpenseEvent,
  ExpensePayment,
}
use Budgeting.{BudgetPolicyRevision, BudgetRevision, BudgetChange, ExpenseBudgetCheck}
use Giving.{
  OfferingType, OfferingDonor, Offering, OfferingReversal, OfferingEvent, ReceiptIssuer,
  DonationReceipt, ReceiptClaim, ReceiptCancellation,
}

pub record Db : Type 0 where
  pub churches : List Church
  pub users : List User
  pub roles : List Role
  pub sessions : List Session
  pub login_attempts : List LoginAttempt
  pub members : List Member
  pub audit_events : List AuditEvent
  pub accounts : List FinanceAccount
  pub funds : List FinanceFund
  pub periods : List FinancePeriod
  pub journals : List JournalEntry
  pub expenses : List ExpenseRequest
  pub submissions : List ExpenseSubmission
  pub attachments : List ExpenseAttachment
  pub submission_attachments : List SubmissionAttachment
  pub expense_events : List ExpenseEvent
  pub payments : List ExpensePayment
  pub budget_policies : List BudgetPolicyRevision
  pub budget_revisions : List BudgetRevision
  pub budget_changes : List BudgetChange
  pub budget_checks : List ExpenseBudgetCheck
  pub offering_types : List OfferingType
  pub donors : List OfferingDonor
  pub offerings : List Offering
  pub offering_reversals : List OfferingReversal
  pub offering_events : List OfferingEvent
  pub issuers : List ReceiptIssuer
  pub receipts : List DonationReceipt
  pub claims : List ReceiptClaim
  pub receipt_cancellations : List ReceiptCancellation
