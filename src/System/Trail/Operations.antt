-- ===== src/System/Trail/Operations.antt =====
-- finance/application: each operation only adds to the tables that record what was done.
use church_management.Base.{ℕ, refl, ap}
use church_management.Runtime.{Runtime}
use church_management.Store.{Db}
use church_management.Identity.{Actor}
use church_management.System.Frames.Spending.{
  period_create-same, period_close-same, journal_reverse-same, budget_save-same, budget_decide-same,
  expense_create-same, expense_update-same, expense_cancel-same, attachment_remove-same,
  expense_submit-same, expense_decide-same, expense_pay-same,
}
use church_management.System.Frames.Giving.{
  offering_create-same, offering_update-same, offering_review-same, offering_cancel-same,
  offering_post-same, offering_reverse-same, receipt_issue-same, receipt_cancel-same,
}
use church_management.System.Frames.Settings.{
  create_account-same, read_policy-same, create_fund-same, create_type-same, create_donor-same,
  update_donor-same, save_issuer-same, save_policy-same, print-same,
}
use church_management.System.Trail.{
  Extends-trans, Grown, trail, Grown-same, Grown-journals, Grown-postings, Grown-payments,
  Grown-receipts, Grown-budgets,
}
use church_management.System.Steps.{Op, perform, Step, call, Reach, here, next}
use church_management.System.Trail.Tables.{
  journal_reverse_grows, expense_pay_grows, budget_decide_grows, offering_post_grows,
  offering_reverse_grows, receipt_issue_grows,
}
use church_management.Finance.Routes.{
  FinanceOp, BudgetOp, OfferingOp, perform_finance, perform_budget, perform_offering,
}

perform_finance-Grown :
    (rt : Runtime) (a : Actor) (c : ℕ) (o : FinanceOp) (db : Db)
    → Grown db (perform_finance rt a c o db)
unfolding perform_finance
perform_finance-Grown rt a c (FinanceOp.account_create d) db =
    Grown-same db (perform_finance rt a c (FinanceOp.account_create d) db)
      (ap trail (create_account-same rt a c db d))
perform_finance-Grown rt a c (FinanceOp.fund_create name) db =
    Grown-same db (perform_finance rt a c (FinanceOp.fund_create name) db)
      (ap trail (create_fund-same rt a c db name))
perform_finance-Grown rt a c (FinanceOp.period_create d) db =
    Grown-same db (perform_finance rt a c (FinanceOp.period_create d) db)
      (ap trail (period_create-same rt a c db d))
perform_finance-Grown rt a c (FinanceOp.period_close id) db =
    Grown-same db (perform_finance rt a c (FinanceOp.period_close id) db)
      (ap trail (period_close-same rt a c db id))
perform_finance-Grown rt a c (FinanceOp.journal_reverse id d) db =
    Grown-journals db (perform_finance rt a c (FinanceOp.journal_reverse id d) db)
      (journal_reverse-same rt a c db id d) (journal_reverse_grows rt a c db id d)
perform_finance-Grown rt a c (FinanceOp.expense_create d) db =
    Grown-same db (perform_finance rt a c (FinanceOp.expense_create d) db)
      (ap trail (expense_create-same rt a c db d))
perform_finance-Grown rt a c (FinanceOp.expense_update id v d) db =
    Grown-same db (perform_finance rt a c (FinanceOp.expense_update id v d) db)
      (ap trail (expense_update-same rt a c db id v d))
perform_finance-Grown rt a c (FinanceOp.expense_submit id v) db =
    Grown-same db (perform_finance rt a c (FinanceOp.expense_submit id v) db)
      (ap trail (expense_submit-same rt a c db id v))
perform_finance-Grown rt a c (FinanceOp.expense_decide id d) db =
    Grown-same db (perform_finance rt a c (FinanceOp.expense_decide id d) db)
      (ap trail (expense_decide-same rt a c db id d))
perform_finance-Grown rt a c (FinanceOp.expense_cancel id v reason) db =
    Grown-same db (perform_finance rt a c (FinanceOp.expense_cancel id v reason) db)
      (ap trail (expense_cancel-same rt a c db id v reason))
perform_finance-Grown rt a c (FinanceOp.expense_pay id d) db =
    Grown-payments db (perform_finance rt a c (FinanceOp.expense_pay id d) db)
      (expense_pay-same rt a c db id d) (expense_pay_grows rt a c db id d)
perform_finance-Grown rt a c (FinanceOp.attachment_remove id file v) db =
    Grown-same db (perform_finance rt a c (FinanceOp.attachment_remove id file v) db)
      (ap trail (attachment_remove-same rt a c db id file v))

perform_budget-Grown :
    (rt : Runtime) (a : Actor) (c : ℕ) (o : BudgetOp) (db : Db)
    → Grown db (perform_budget rt a c o db)
unfolding perform_budget
perform_budget-Grown rt a c (BudgetOp.budget_save d) db =
    Grown-same db (perform_budget rt a c (BudgetOp.budget_save d) db)
      (ap trail (budget_save-same rt a c db d))
perform_budget-Grown rt a c (BudgetOp.budget_decide id d) db =
    Grown-budgets db (perform_budget rt a c (BudgetOp.budget_decide id d) db)
      (budget_decide-same rt a c db id d) (budget_decide_grows rt a c db id d)
perform_budget-Grown rt a c BudgetOp.policy_read db =
    Grown-same db (perform_budget rt a c BudgetOp.policy_read db)
      (ap trail (read_policy-same rt a c db))
perform_budget-Grown rt a c (BudgetOp.policy_save d) db =
    Grown-same db (perform_budget rt a c (BudgetOp.policy_save d) db)
      (ap trail (save_policy-same rt a c db d))

perform_offering-Grown :
    (rt : Runtime) (a : Actor) (c : ℕ) (o : OfferingOp) (db : Db)
    → Grown db (perform_offering rt a c o db)
unfolding perform_offering
perform_offering-Grown rt a c (OfferingOp.type_create d) db =
    Grown-same db (perform_offering rt a c (OfferingOp.type_create d) db)
      (ap trail (create_type-same rt a c db d))
perform_offering-Grown rt a c (OfferingOp.donor_create d) db =
    Grown-same db (perform_offering rt a c (OfferingOp.donor_create d) db)
      (ap trail (create_donor-same rt a c db d))
perform_offering-Grown rt a c (OfferingOp.donor_update id d) db =
    Grown-same db (perform_offering rt a c (OfferingOp.donor_update id d) db)
      (ap trail (update_donor-same rt a c db id d))
perform_offering-Grown rt a c (OfferingOp.offering_create d) db =
    Grown-same db (perform_offering rt a c (OfferingOp.offering_create d) db)
      (ap trail (offering_create-same rt a c db d))
perform_offering-Grown rt a c (OfferingOp.offering_update id v d) db =
    Grown-same db (perform_offering rt a c (OfferingOp.offering_update id v d) db)
      (ap trail (offering_update-same rt a c db id v d))
perform_offering-Grown rt a c (OfferingOp.offering_review id v) db =
    Grown-same db (perform_offering rt a c (OfferingOp.offering_review id v) db)
      (ap trail (offering_review-same rt a c db id v))
perform_offering-Grown rt a c (OfferingOp.offering_post id v) db =
    Grown-postings db (perform_offering rt a c (OfferingOp.offering_post id v) db)
      (offering_post-same rt a c db id v) (offering_post_grows rt a c db id v)
perform_offering-Grown rt a c (OfferingOp.offering_cancel id v reason) db =
    Grown-same db (perform_offering rt a c (OfferingOp.offering_cancel id v reason) db)
      (ap trail (offering_cancel-same rt a c db id v reason))
perform_offering-Grown rt a c (OfferingOp.offering_reverse id d) db =
    Grown-journals db (perform_offering rt a c (OfferingOp.offering_reverse id d) db)
      (offering_reverse-same rt a c db id d) (offering_reverse_grows rt a c db id d)
perform_offering-Grown rt a c (OfferingOp.issuer_save d) db =
    Grown-same db (perform_offering rt a c (OfferingOp.issuer_save d) db)
      (ap trail (save_issuer-same rt a c db d))
perform_offering-Grown rt a c (OfferingOp.receipt_issue d) db =
    Grown-receipts db (perform_offering rt a c (OfferingOp.receipt_issue d) db)
      (receipt_issue-same rt a c db d) (receipt_issue_grows rt a c db d)
perform_offering-Grown rt a c (OfferingOp.receipt_print id) db =
    Grown-same db (perform_offering rt a c (OfferingOp.receipt_print id) db)
      (ap trail (print-same rt a c db id))
perform_offering-Grown rt a c (OfferingOp.receipt_cancel id reason) db =
    Grown-same db (perform_offering rt a c (OfferingOp.receipt_cancel id reason) db)
      (ap trail (receipt_cancel-same rt a c db id reason))

Step-Grown : {db db' : Db} → Step db db' → Grown db db'
unfolding perform
Step-Grown (call rt a c (Op.finance o) db _) = perform_finance-Grown rt a c o db
Step-Grown (call rt a c (Op.budget o) db _) = perform_budget-Grown rt a c o db
Step-Grown (call rt a c (Op.offering o) db _) = perform_offering-Grown rt a c o db

-- Whatever calls of these routes are made, the journals, the payments, the receipts and the budget revisions of an earlier
-- state stand unchanged and in the same order at the start of those tables in every later state.
pub Reach-Grown : {start db : Db} → Reach start db → Grown start db
Reach-Grown {start} here = Grown-same start start refl
Reach-Grown (next r s) =
    let g = Reach-Grown r in
    let k = Step-Grown s in
    record {
      journals = Extends-trans g.journals k.journals;
      payments = Extends-trans g.payments k.payments;
      receipts = Extends-trans g.receipts k.receipts;
      budget_revisions = Extends-trans g.budget_revisions k.budget_revisions;
    }
