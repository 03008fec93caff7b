-- ===== src/System/Safety.antt =====
-- finance/application: what holds in every state that the routes of Finance/Routes reach, in any order of
-- calls.
use church_management.Base.{ℕ}
use church_management.Runtime.{Runtime}
use church_management.Store.{Db}
use church_management.Identity.{Actor}
use church_management.Finance.Ledger.Balance.{reverse-IsSound}
use church_management.Finance.Ledger.Periods.{create_period-Disjoint, close-Disjoint}
use church_management.Finance.Budget.Approval.Versions.{
  decide-Rising, save-OnePending, decide-OnePending,
}
use church_management.Finance.Expense.Custody.Operations.{
  create-IsAccounted, update-IsAccounted, cancel-IsAccounted, remove_attachment-IsAccounted,
  submit-IsAccounted, decide-IsAccounted, pay-IsAccounted,
}
use church_management.Finance.Expense.Payment.Laws.{pay-IsSound}
use church_management.Finance.Offering.Custody.{
  create-IsOrderly, update-IsOrderly, review-IsOrderly, cancel-IsOrderly, post-IsOrderly,
}
use church_management.Finance.Offering.Posting.Laws.{post-IsSound}
use church_management.Finance.Offering.Posting.Correction.{reverse_offering-IsSound}
use church_management.Finance.Receipt.Claims.{issue-ClaimedOnce, issue-Numbered, cancel-ClaimedOnce}
use church_management.System.Invariant.{
  core, AllSound, AllSound-none, AllSound-journals, AllSound-periods, AllSound-changes,
  AllSound-budgets, AllSound-requests, AllSound-payments, AllSound-offerings, AllSound-postings,
  AllSound-claims, AllSound-receipts,
}
use church_management.System.Frames.Spending.{
  period_create-same, period_close-same, journal_reverse-same, budget_save-same, budget_decide-same,
  expense_create-same, expense_update-same, expense_cancel-same, attachment_remove-same,
  expense_submit-same, expense_decide-same, expense_pay-same,
}
use church_management.System.Frames.Giving.{
  offering_create-same, offering_update-same, offering_review-same, offering_cancel-same,
  offering_post-same, offering_reverse-same, receipt_issue-same, receipt_cancel-same,
}
use church_management.System.Frames.Settings.{
  create_account-same, read_policy-same, create_fund-same, create_type-same, create_donor-same,
  update_donor-same, save_issuer-same, save_policy-same, print-same,
}
use church_management.Finance.Routes.{
  FinanceOp, BudgetOp, OfferingOp, perform_finance, perform_budget, perform_offering,
}
use church_management.System.Steps.{Op, perform, Fresh, Step, call, Reach, here, next}

-- Every operation keeps the invariant, whether it succeeds or is refused.
perform_finance-AllSound :
    (rt : Runtime) (a : Actor) (c : ℕ) (o : FinanceOp) (db : Db)
    → Fresh rt db
    → AllSound (core db)
    → AllSound (core (perform_finance rt a c o db))
unfolding perform_finance
perform_finance-AllSound rt a c (FinanceOp.account_create d) db f h =
    AllSound-none db (perform_finance rt a c (FinanceOp.account_create d) db)
      (create_account-same rt a c db d) h
perform_finance-AllSound rt a c (FinanceOp.fund_create name) db f h =
    AllSound-none db (perform_finance rt a c (FinanceOp.fund_create name) db)
      (create_fund-same rt a c db name) h
perform_finance-AllSound rt a c (FinanceOp.period_create d) db f h =
    AllSound-periods db (perform_finance rt a c (FinanceOp.period_create d) db)
      (period_create-same rt a c db d) (create_period-Disjoint rt a c d db h.1) h
perform_finance-AllSound rt a c (FinanceOp.period_close id) db f h =
    AllSound-periods db (perform_finance rt a c (FinanceOp.period_close id) db)
      (period_close-same rt a c db id) (close-Disjoint rt a c id db h.1) h
perform_finance-AllSound rt a c (FinanceOp.journal_reverse id d) db f h =
    AllSound-journals db (perform_finance rt a c (FinanceOp.journal_reverse id d) db)
      (journal_reverse-same rt a c db id d) (reverse-IsSound rt a c id d db h.0) h
perform_finance-AllSound rt a c (FinanceOp.expense_create d) db f h =
    AllSound-requests db (perform_finance rt a c (FinanceOp.expense_create d) db)
      (expense_create-same rt a c db d) (create-IsAccounted rt a c db h.4 d f.expense) h
perform_finance-AllSound rt a c (FinanceOp.expense_update id v d) db f h =
    AllSound-requests db (perform_finance rt a c (FinanceOp.expense_update id v d) db)
      (expense_update-same rt a c db id v d) (update-IsAccounted rt a c db h.4 id v d) h
perform_finance-AllSound rt a c (FinanceOp.expense_submit id v) db f h =
    AllSound-requests db (perform_finance rt a c (FinanceOp.expense_submit id v) db)
      (expense_submit-same rt a c db id v) (submit-IsAccounted rt a c db h.4 id v) h
perform_finance-AllSound rt a c (FinanceOp.expense_decide id d) db f h =
    AllSound-requests db (perform_finance rt a c (FinanceOp.expense_decide id d) db)
      (expense_decide-same rt a c db id d) (decide-IsAccounted rt a c db h.4 id d) h
perform_finance-AllSound rt a c (FinanceOp.expense_cancel id v reason) db f h =
    AllSound-requests db (perform_finance rt a c (FinanceOp.expense_cancel id v reason) db)
      (expense_cancel-same rt a c db id v reason) (cancel-IsAccounted rt a c db h.4 id v reason) h
perform_finance-AllSound rt a c (FinanceOp.expense_pay id d) db f h =
    AllSound-payments db (perform_finance rt a c (FinanceOp.expense_pay id d) db)
      (expense_pay-same rt a c db id d) (pay-IsSound rt a c id d db h.0)
      (pay-IsAccounted rt a c db h.4 id d) h
perform_finance-AllSound rt a c (FinanceOp.attachment_remove id file v) db f h =
    AllSound-requests db (perform_finance rt a c (FinanceOp.attachment_remove id file v) db)
      (attachment_remove-same rt a c db id file v)
      (remove_attachment-IsAccounted rt a c db h.4 id file v) h

perform_budget-AllSound :
    (rt : Runtime) (a : Actor) (c : ℕ) (o : BudgetOp) (db : Db)
    → Fresh rt db
    → AllSound (core db)
    → AllSound (core (perform_budget rt a c o db))
unfolding perform_budget
perform_budget-AllSound rt a c (BudgetOp.budget_save d) db f h =
    AllSound-changes db (perform_budget rt a c (BudgetOp.budget_save d) db)
      (budget_save-same rt a c db d) (save-OnePending rt a c d db h.3) h
perform_budget-AllSound rt a c (BudgetOp.budget_decide id d) db f h =
    AllSound-budgets db (perform_budget rt a c (BudgetOp.budget_decide id d) db)
      (budget_decide-same rt a c db id d) (decide-Rising rt a c id d db h.2)
      (decide-OnePending rt a c id d db h.3) h
perform_budget-AllSound rt a c BudgetOp.policy_read db f h =
    AllSound-none db (perform_budget rt a c BudgetOp.policy_read db) (read_policy-same rt a c db) h
perform_budget-AllSound rt a c (BudgetOp.policy_save d) db f h =
    AllSound-none db (perform_budget rt a c (BudgetOp.policy_save d) db)
      (save_policy-same rt a c db d) h

perform_offering-AllSound :
    (rt : Runtime) (a : Actor) (c : ℕ) (o : OfferingOp) (db : Db)
    → Fresh rt db
    → AllSound (core db)
    → AllSound (core (perform_offering rt a c o db))
unfolding perform_offering
perform_offering-AllSound rt a c (OfferingOp.type_create d) db f h =
    AllSound-none db (perform_offering rt a c (OfferingOp.type_create d) db)
      (create_type-same rt a c db d) h
perform_offering-AllSound rt a c (OfferingOp.donor_create d) db f h =
    AllSound-none db (perform_offering rt a c (OfferingOp.donor_create d) db)
      (create_donor-same rt a c db d) h
perform_offering-AllSound rt a c (OfferingOp.donor_update id d) db f h =
    AllSound-none db (perform_offering rt a c (OfferingOp.donor_update id d) db)
      (update_donor-same rt a c db id d) h
perform_offering-AllSound rt a c (OfferingOp.offering_create d) db f h =
    AllSound-offerings db (perform_offering rt a c (OfferingOp.offering_create d) db)
      (offering_create-same rt a c db d) (create-IsOrderly rt a c d db f.offering h.5) h
perform_offering-AllSound rt a c (OfferingOp.offering_update id v d) db f h =
    AllSound-offerings db (perform_offering rt a c (OfferingOp.offering_update id v d) db)
      (offering_update-same rt a c db id v d) (update-IsOrderly rt a c id v d db h.5) h
perform_offering-AllSound rt a c (OfferingOp.offering_review id v) db f h =
    AllSound-offerings db (perform_offering rt a c (OfferingOp.offering_review id v) db)
      (offering_review-same rt a c db id v) (review-IsOrderly rt a c id v db h.5) h
perform_offering-AllSound rt a c (OfferingOp.offering_post id v) db f h =
    AllSound-postings db (perform_offering rt a c (OfferingOp.offering_post id v) db)
      (offering_post-same rt a c db id v) (post-IsSound rt a c id v db h.0)
      (post-IsOrderly rt a c id v db h.5) h
perform_offering-AllSound rt a c (OfferingOp.offering_cancel id v reason) db f h =
    AllSound-offerings db (perform_offering rt a c (OfferingOp.offering_cancel id v reason) db)
      (offering_cancel-same rt a c db id v reason) (cancel-IsOrderly rt a c id v reason db h.5) h
perform_offering-AllSound rt a c (OfferingOp.offering_reverse id d) db f h =
    AllSound-journals db (perform_offering rt a c (OfferingOp.offering_reverse id d) db)
      (offering_reverse-same rt a c db id d) (reverse_offering-IsSound rt a c id d db h.0) h
perform_offering-AllSound rt a c (OfferingOp.issuer_save d) db f h =
    AllSound-none db (perform_offering rt a c (OfferingOp.issuer_save d) db)
      (save_issuer-same rt a c db d) h
perform_offering-AllSound rt a c (OfferingOp.receipt_issue d) db f h =
    AllSound-receipts db (perform_offering rt a c (OfferingOp.receipt_issue d) db)
      (receipt_issue-same rt a c db d) (issue-ClaimedOnce rt a c d db h.5.unique h.6)
      (issue-Numbered rt a c d db h.7) h
perform_offering-AllSound rt a c (OfferingOp.receipt_print id) db f h =
    AllSound-none db (perform_offering rt a c (OfferingOp.receipt_print id) db)
      (print-same rt a c db id) h
perform_offering-AllSound rt a c (OfferingOp.receipt_cancel id reason) db f h =
    AllSound-claims db (perform_offering rt a c (OfferingOp.receipt_cancel id reason) db)
      (receipt_cancel-same rt a c db id reason) (cancel-ClaimedOnce rt a c id reason db h.6) h

Step-AllSound : {db db' : Db} → Step db db' → AllSound (core db) → AllSound (core db')
unfolding perform
Step-AllSound (call rt a c (Op.finance o) db f) h = perform_finance-AllSound rt a c o db f h
Step-AllSound (call rt a c (Op.budget o) db f) h = perform_budget-AllSound rt a c o db f h
Step-AllSound (call rt a c (Op.offering o) db f) h = perform_offering-AllSound rt a c o db f h

-- From a sound state every sequence of calls of these routes, by anyone and in any order, refused ones included, leads to
-- a sound state: the books balance and no journal is reversed twice, periods of a church are disjoint, the
-- revisions of a budget line rise and it has one undecided change at most, each paid request has a payment
-- by someone who is neither its requester nor one of its approvers, what is posted was reviewed by someone
-- other than the two who entered and last edited it, no offering is claimed by two receipts, and serials rise. The ids that the database gives are new.
pub Reach-AllSound : {start db : Db} → AllSound (core start) → Reach start db → AllSound (core db)
Reach-AllSound h here = h
Reach-AllSound h (next r s) = Step-AllSound s (Reach-AllSound h r)
