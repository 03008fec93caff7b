-- ===== src/Finance/Routes.antt =====
-- finance/interface/finance.controller.ts, budget.controller.ts and offering.controller.ts: the routes that
-- write, the permission that each declares, and the operation that it calls.
use church_management.Base.{ℕ, String, if◌then◌else◌}
use church_management.Runtime.{Runtime}
use church_management.Store.{Db}
use church_management.Identity.{Actor}
use church_management.Finance.Ledger
use church_management.Finance.Ledger.{ReverseDto}
use church_management.Finance.Ledger.Calendar
use church_management.Finance.Ledger.Calendar.{AccountDto, PeriodDto}
use church_management.Finance.Budget.Control
use church_management.Finance.Budget.Control.{BudgetPolicyDto}
use church_management.Finance.Budget.Approval
use church_management.Finance.Budget.Approval.{BudgetRevisionDto, DecisionDto as ChangeDecisionDto}
use church_management.Finance.Expense.Drafts
use church_management.Finance.Expense.Request.{ExpenseDto}
use church_management.Finance.Expense.Review
use church_management.Finance.Expense.Review.{DecisionDto}
use church_management.Finance.Expense.Payment
use church_management.Finance.Expense.Payment.{PaymentDto}
use church_management.Finance.Offering.{OfferingDto}
use church_management.Finance.Offering.Donors
use church_management.Finance.Offering.Donors.{OfferingTypeDto, DonorDto, DonorUpdateDto}
use church_management.Finance.Offering.Entry
use church_management.Finance.Offering.Posting
use church_management.Finance.Receipt
use church_management.Finance.Receipt.{ReceiptIssuerDto}
use church_management.Finance.Receipt.Issue
use church_management.Finance.Receipt.Issue.{ReceiptIssueDto}
use church_management.Finance.Receipt.Cancel

-- The routes of FinanceController that write, with the ids of their paths and what a client sends.
pub data FinanceOp : Type 0 where
  account_create : AccountDto → FinanceOp
  fund_create : String → FinanceOp
  period_create : PeriodDto → FinanceOp
  period_close : ℕ → FinanceOp
  journal_reverse : ℕ → ReverseDto → FinanceOp
  expense_create : ExpenseDto → FinanceOp
  expense_update : ℕ → ℕ → ExpenseDto → FinanceOp
  expense_submit : ℕ → ℕ → FinanceOp
  expense_decide : ℕ → DecisionDto → FinanceOp
  expense_cancel : ℕ → ℕ → String → FinanceOp
  expense_pay : ℕ → PaymentDto → FinanceOp
  attachment_remove : ℕ → ℕ → ℕ → FinanceOp

-- `@Permission`
abbrev pub finance_permission : FinanceOp → String
finance_permission (FinanceOp.account_create _) = "finance.manage"
finance_permission (FinanceOp.fund_create _) = "finance.manage"
finance_permission (FinanceOp.period_create _) = "finance.manage"
finance_permission (FinanceOp.period_close _) = "finance.close"
finance_permission (FinanceOp.journal_reverse _ _) = "finance.reverse"
finance_permission (FinanceOp.expense_create _) = "expense.write"
finance_permission (FinanceOp.expense_update _ _ _) = "expense.write"
finance_permission (FinanceOp.expense_submit _ _) = "expense.write"
finance_permission (FinanceOp.expense_decide _ _) = "expense.approve"
finance_permission (FinanceOp.expense_cancel _ _ _) = "expense.write"
finance_permission (FinanceOp.expense_pay _ _) = "expense.pay"
finance_permission (FinanceOp.attachment_remove _ _ _) = "expense.write"

-- The state after a call of FinanceController, which may have been refused.
unfoldable pub perform_finance : Runtime → Actor → ℕ → FinanceOp → Db → Db
perform_finance rt a c (FinanceOp.account_create d) db = (Calendar.create_account rt a c d db).1
perform_finance rt a c (FinanceOp.fund_create name) db = (Calendar.create_fund rt a c name db).1
perform_finance rt a c (FinanceOp.period_create d) db = (Calendar.create_period rt a c d db).1
perform_finance rt a c (FinanceOp.period_close id) db = (Calendar.close rt a c id db).1
perform_finance rt a c (FinanceOp.journal_reverse id d) db = (Ledger.reverse rt a c id d db).1
perform_finance rt a c (FinanceOp.expense_create d) db = (Drafts.create rt a c d db).1
perform_finance rt a c (FinanceOp.expense_update id v d) db = (Drafts.update rt a c id v d db).1
perform_finance rt a c (FinanceOp.expense_submit id v) db = (Review.submit rt a c id v db).1
perform_finance rt a c (FinanceOp.expense_decide id d) db = (Review.decide rt a c id d db).1
perform_finance rt a c (FinanceOp.expense_cancel id v reason) db =
    (Drafts.cancel rt a c id v reason db).1
perform_finance rt a c (FinanceOp.expense_pay id d) db = (Payment.pay rt a c id d db).1
perform_finance rt a c (FinanceOp.attachment_remove id file v) db =
    (Drafts.remove_attachment rt a c id file v db).1

-- The routes of BudgetController that write, with the ids of their paths and what a client sends.
pub data BudgetOp : Type 0 where
  budget_save : BudgetRevisionDto → BudgetOp
  budget_decide : ℕ → ChangeDecisionDto → BudgetOp
  policy_read : BudgetOp
  policy_save : BudgetPolicyDto → BudgetOp

-- `@Permission`
abbrev pub budget_permission : BudgetOp → String
budget_permission (BudgetOp.budget_save _) = "budget.write"
budget_permission (BudgetOp.budget_decide _ d) =
    if Approval.is_cancel d then "budget.write" else "budget.approve"
budget_permission BudgetOp.policy_read = "finance.manage"
budget_permission (BudgetOp.policy_save _) = "finance.manage"

-- The state after a call of BudgetController, which may have been refused.
unfoldable pub perform_budget : Runtime → Actor → ℕ → BudgetOp → Db → Db
perform_budget rt a c (BudgetOp.budget_save d) db = (Approval.save rt a c d db).1
perform_budget rt a c (BudgetOp.budget_decide id d) db = (Approval.decide rt a c id d db).1
perform_budget rt a c BudgetOp.policy_read db = (Control.read_policy rt a c db).1
perform_budget rt a c (BudgetOp.policy_save d) db = (Control.save_policy rt a c d db).1

-- The routes of OfferingController that write, with the ids of their paths and what a client sends.
pub data OfferingOp : Type 0 where
  type_create : OfferingTypeDto → OfferingOp
  donor_create : DonorDto → OfferingOp
  donor_update : ℕ → DonorUpdateDto → OfferingOp
  offering_create : OfferingDto → OfferingOp
  offering_update : ℕ → ℕ → OfferingDto → OfferingOp
  offering_review : ℕ → ℕ → OfferingOp
  offering_post : ℕ → ℕ → OfferingOp
  offering_cancel : ℕ → ℕ → String → OfferingOp
  offering_reverse : ℕ → ReverseDto → OfferingOp
  issuer_save : ReceiptIssuerDto → OfferingOp
  receipt_issue : ReceiptIssueDto → OfferingOp
  receipt_print : ℕ → OfferingOp
  receipt_cancel : ℕ → String → OfferingOp

-- `@Permission`
abbrev pub offering_permission : OfferingOp → String
offering_permission (OfferingOp.type_create _) = "finance.manage"
offering_permission (OfferingOp.donor_create _) = "offering.write"
offering_permission (OfferingOp.donor_update _ _) = "offering.write"
offering_permission (OfferingOp.offering_create _) = "offering.write"
offering_permission (OfferingOp.offering_update _ _ _) = "offering.write"
offering_permission (OfferingOp.offering_review _ _) = "offering.review"
offering_permission (OfferingOp.offering_post _ _) = "offering.post"
offering_permission (OfferingOp.offering_cancel _ _ _) = "offering.write"
offering_permission (OfferingOp.offering_reverse _ _) = "offering.reverse"
offering_permission (OfferingOp.issuer_save _) = "finance.manage"
offering_permission (OfferingOp.receipt_issue _) = "receipt.issue"
offering_permission (OfferingOp.receipt_print _) = "receipt.print"
offering_permission (OfferingOp.receipt_cancel _ _) = "receipt.cancel"

-- The state after a call of OfferingController, which may have been refused.
unfoldable pub perform_offering : Runtime → Actor → ℕ → OfferingOp → Db → Db
perform_offering rt a c (OfferingOp.type_create d) db = (Donors.create_type rt a c d db).1
perform_offering rt a c (OfferingOp.donor_create d) db = (Donors.create_donor rt a c d db).1
perform_offering rt a c (OfferingOp.donor_update id d) db = (Donors.update_donor rt a c id d db).1
perform_offering rt a c (OfferingOp.offering_create d) db = (Entry.create rt a c d db).1
perform_offering rt a c (OfferingOp.offering_update id v d) db = (Entry.update rt a c id v d db).1
perform_offering rt a c (OfferingOp.offering_review id v) db = (Entry.review rt a c id v db).1
perform_offering rt a c (OfferingOp.offering_post id v) db = (Posting.post rt a c id v db).1
perform_offering rt a c (OfferingOp.offering_cancel id v reason) db =
    (Entry.cancel rt a c id v reason db).1
perform_offering rt a c (OfferingOp.offering_reverse id d) db = (Posting.reverse rt a c id d db).1
perform_offering rt a c (OfferingOp.issuer_save d) db = (Receipt.save_issuer rt a c d db).1
perform_offering rt a c (OfferingOp.receipt_issue d) db = (Issue.issue rt a c d db).1
perform_offering rt a c (OfferingOp.receipt_print id) db = (Cancel.print rt a c id db).1
perform_offering rt a c (OfferingOp.receipt_cancel id reason) db =
    (Cancel.cancel rt a c id reason db).1
