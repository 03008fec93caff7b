-- ===== src/System/Authority.antt =====
-- finance/interface: the permission that a route declares is one that its service tests itself, so that no
-- other way to the service changes anything without it.
use church_management.Base.{ℕ, ◌≡◌, refl, false, ◌&&◌, ◌==◌}
use church_management.Runtime.{Runtime}
use church_management.Store.{Db}
use church_management.Identity.{Actor}
use church_management.Finance.Ledger
use church_management.Finance.Ledger.{ReverseDto}
use church_management.Finance.Ledger.Calendar
use church_management.Finance.Ledger.Calendar.{AccountDto, PeriodDto}
use church_management.Finance.Budget.Control
use church_management.Finance.Budget.Control.{BudgetPolicyDto}
use church_management.Finance.Budget.Approval
use church_management.Finance.Budget.Approval.{BudgetRevisionDto, DecisionDto as ChangeDecisionDto}
use church_management.Finance.Expense.Drafts
use church_management.Finance.Expense.Review
use church_management.Finance.Expense.Review.{DecisionDto}
use church_management.Finance.Expense.Payment
use church_management.Finance.Expense.Payment.{PaymentDto}
use church_management.Finance.Offering.Donors
use church_management.Finance.Offering.Donors.{OfferingTypeDto, DonorDto, DonorUpdateDto}
use church_management.Finance.Offering.Entry
use church_management.Finance.Offering.Posting
use church_management.Finance.Receipt
use church_management.Finance.Receipt.{ReceiptIssuerDto}
use church_management.Finance.Receipt.Issue
use church_management.Finance.Receipt.Issue.{ReceiptIssueDto}
use church_management.Finance.Receipt.Cancel
use church_management.Identity.{has}
use church_management.Finance.Policy.Laws.{write_refused, after_check_keeps}
use church_management.Finance.Routes.{
  FinanceOp, BudgetOp, OfferingOp, perform_finance, perform_budget, perform_offering,
  finance_permission, budget_permission, offering_permission,
}
use church_management.System.Steps.{Op, permission, perform}

perform_finance_refused :
    (rt : Runtime) (a : Actor) (c : ℕ) (o : FinanceOp) (db : Db)
    → (a.church_id == c && has a (finance_permission o)) ≡ false
    → perform_finance rt a c o db ≡ db
unfolding perform_finance Calendar.create_account Calendar.create_fund Calendar.create_period
    Calendar.close Ledger.reverse Drafts.create Drafts.update Review.submit Review.decide
    Drafts.cancel Payment.pay Drafts.remove_attachment
perform_finance_refused rt a c (FinanceOp.account_create d) db h = write_refused rt a c _ _ _ db h
perform_finance_refused rt a c (FinanceOp.fund_create name) db h = write_refused rt a c _ _ _ db h
perform_finance_refused rt a c (FinanceOp.period_create d) db h = write_refused rt a c _ _ _ db h
perform_finance_refused rt a c (FinanceOp.period_close id) db h = write_refused rt a c _ _ _ db h
perform_finance_refused rt a c (FinanceOp.journal_reverse id d) db h =
    write_refused rt a c _ _ _ db h
perform_finance_refused rt a c (FinanceOp.expense_create d) db h = write_refused rt a c _ _ _ db h
perform_finance_refused rt a c (FinanceOp.expense_update id v d) db h =
    write_refused rt a c _ _ _ db h
perform_finance_refused rt a c (FinanceOp.expense_submit id v) db h =
    write_refused rt a c _ _ _ db h
perform_finance_refused rt a c (FinanceOp.expense_decide id d) db h =
    write_refused rt a c _ _ _ db h
perform_finance_refused rt a c (FinanceOp.expense_cancel id v reason) db h =
    write_refused rt a c _ _ _ db h
perform_finance_refused rt a c (FinanceOp.expense_pay id d) db h = write_refused rt a c _ _ _ db h
perform_finance_refused rt a c (FinanceOp.attachment_remove id file v) db h =
    write_refused rt a c _ _ _ db h

perform_budget_refused :
    (rt : Runtime) (a : Actor) (c : ℕ) (o : BudgetOp) (db : Db)
    → (a.church_id == c && has a (budget_permission o)) ≡ false
    → perform_budget rt a c o db ≡ db
unfolding perform_budget Approval.save Approval.decide Control.read_policy Control.save_policy
perform_budget_refused rt a c (BudgetOp.budget_save d) db h = write_refused rt a c _ _ _ db h
perform_budget_refused rt a c (BudgetOp.budget_decide id d) db h = write_refused rt a c _ _ _ db h
perform_budget_refused rt a c BudgetOp.policy_read db h = write_refused rt a c _ _ _ db h
perform_budget_refused rt a c (BudgetOp.policy_save d) db h = write_refused rt a c _ _ _ db h

perform_offering_refused :
    (rt : Runtime) (a : Actor) (c : ℕ) (o : OfferingOp) (db : Db)
    → (a.church_id == c && has a (offering_permission o)) ≡ false
    → perform_offering rt a c o db ≡ db
unfolding perform_offering Donors.create_type Donors.create_donor Donors.update_donor Entry.create
    Entry.update Entry.review Posting.post Entry.cancel Posting.reverse Receipt.save_issuer
    Issue.issue Cancel.print Cancel.cancel
perform_offering_refused rt a c (OfferingOp.type_create d) db h = write_refused rt a c _ _ _ db h
perform_offering_refused rt a c (OfferingOp.donor_create d) db h = write_refused rt a c _ _ _ db h
perform_offering_refused rt a c (OfferingOp.donor_update id d) db h =
    write_refused rt a c _ _ _ db h
perform_offering_refused rt a c (OfferingOp.offering_create d) db h =
    after_check_keeps a c _ _ db (λ y. y ≡ db) refl (write_refused rt a c _ _ _ db h)
perform_offering_refused rt a c (OfferingOp.offering_update id v d) db h =
    after_check_keeps a c _ _ db (λ y. y ≡ db) refl (write_refused rt a c _ _ _ db h)
perform_offering_refused rt a c (OfferingOp.offering_review id v) db h =
    after_check_keeps a c _ _ db (λ y. y ≡ db) refl (write_refused rt a c _ _ _ db h)
perform_offering_refused rt a c (OfferingOp.offering_post id v) db h =
    after_check_keeps a c _ _ db (λ y. y ≡ db) refl (write_refused rt a c _ _ _ db h)
perform_offering_refused rt a c (OfferingOp.offering_cancel id v reason) db h =
    after_check_keeps a c _ _ db (λ y. y ≡ db) refl (write_refused rt a c _ _ _ db h)
perform_offering_refused rt a c (OfferingOp.offering_reverse id d) db h =
    after_check_keeps a c _ _ db (λ y. y ≡ db) refl (write_refused rt a c _ _ _ db h)
perform_offering_refused rt a c (OfferingOp.issuer_save d) db h = write_refused rt a c _ _ _ db h
perform_offering_refused rt a c (OfferingOp.receipt_issue d) db h =
    after_check_keeps a c _ _ db (λ y. y ≡ db) refl (write_refused rt a c _ _ _ db h)
perform_offering_refused rt a c (OfferingOp.receipt_print id) db h =
    after_check_keeps a c _ _ db (λ y. y ≡ db) refl (write_refused rt a c _ _ _ db h)
perform_offering_refused rt a c (OfferingOp.receipt_cancel id reason) db h =
    after_check_keeps a c _ _ db (λ y. y ≡ db) refl (write_refused rt a c _ _ _ db h)

-- A call by someone who is not of the church or does not hold the permission of the route changes nothing
-- at all, whichever operation it is, also where the guard of the routes is passed by.
pub perform_refused :
    (rt : Runtime) (a : Actor) (c : ℕ) (op : Op) (db : Db)
    → (a.church_id == c && has a (permission op)) ≡ false
    → perform rt a c op db ≡ db
unfolding perform
perform_refused rt a c (Op.finance o) db h = perform_finance_refused rt a c o db h
perform_refused rt a c (Op.budget o) db h = perform_budget_refused rt a c o db h
perform_refused rt a c (Op.offering o) db h = perform_offering_refused rt a c o db h
