-- ===== src/System/Frames/Spending.antt =====
-- finance/application: the tables that the ledger, the budgets and the expense requests write.
use church_management.Base.{ℕ, String, Bool, true, false, ◌≡◌, refl}
use church_management.Runtime.{Runtime}
use church_management.Store.{Db}
use church_management.Store.Spending.{ExpenseRequest}
use church_management.Identity.{Actor, check, record_audit}
use church_management.Tx.Frame.{Frame, Frame-modify, Frame-read, frame_rules}
use church_management.Finance.Policy.{date, open_period, account}
use church_management.Finance.Ledger.{
  ReverseDto, reverse_tx, post_expense, post_offering, reverse_offering,
}
use church_management.Finance.Ledger.Calendar.{PeriodDto, close_tx, period_tx}
use church_management.Finance.Budget.Control.{evaluate, enforce}
use church_management.Finance.Budget.Control.Laws.{evaluate_reads}
use church_management.Finance.Budget.Approval.{BudgetRevisionDto, DecisionDto, line, save_tx}
use church_management.Finance.Budget.Approval.{decide_tx as decide_change_tx}
use church_management.Finance.Expense.Request.{
  get, own, editable, check_version, event, ExpenseDto, check_data, approvers,
}
use church_management.Finance.Expense.Request.Laws.{check_data_reads}
use church_management.Finance.Expense.Drafts.{create_tx, update_tx, cancel_tx, remove_attachment_tx}
use church_management.Finance.Expense.Review.{submit_tx, decide_tx, check_approval}
use church_management.Finance.Expense.Review.{DecisionDto as VerdictDto}
use church_management.Finance.Expense.Payment.{PaymentDto, pay_tx}
use church_management.System.Invariant.{
  but_journals, but_periods, but_changes, but_budgets, but_requests, but_payments,
}
use church_management.Finance.Ledger
use church_management.Finance.Ledger.Calendar
use church_management.Finance.Budget.Approval
use church_management.Finance.Expense.Drafts
use church_management.Finance.Expense.Review
use church_management.Finance.Expense.Payment
use church_management.System.Frames.{write_same}

module _ {X : Type 0} {v : Db → X} (rt : Runtime) where
  Frame-evaluate : (r : ExpenseRequest) → Frame v (evaluate rt r)
  Frame-evaluate r = Frame-read _ λ db x db' h. (evaluate_reads rt r db h).0

  Frame-check_data : (c : ℕ) (d : ExpenseDto) (requester : ℕ) → Frame v (check_data c d requester)
  Frame-check_data c d requester =
      Frame-read _ λ db x db' h. check_data_reads db c d requester x db' h

Frame-check_approval :
    (rt : Runtime) (a : Actor) (r : ExpenseRequest) (b : Bool)
    → Frame but_requests (check_approval rt a r b)
unfolding check_approval enforce record_audit
Frame-check_approval rt a r true = search (frame_rules, Frame-modify, Frame-evaluate) depth 40
Frame-check_approval rt a r false = search (frame_rules)

module _ (rt : Runtime) (a : Actor) (c : ℕ) where
  pub reverse_tx-Frame : (id : ℕ) (d : ReverseDto) → Frame but_journals (reverse_tx rt a c id d)
  unfolding reverse_tx record_audit open_period date
  reverse_tx-Frame id d = search (frame_rules, Frame-modify) depth 40

  pub period_tx-Frame : (d : PeriodDto) → Frame but_periods (period_tx rt a c d)
  unfolding period_tx record_audit date
  period_tx-Frame d = search (frame_rules, Frame-modify) depth 40

  pub close_tx-Frame : (id : ℕ) → Frame but_periods (close_tx rt a c id)
  unfolding close_tx record_audit
  close_tx-Frame id = search (frame_rules, Frame-modify) depth 40

  pub save_tx-Frame : (d : BudgetRevisionDto) → Frame but_changes (save_tx rt a c d)
  unfolding save_tx record_audit check line
  save_tx-Frame d = search (frame_rules, Frame-modify) depth 40

  pub decide_change_tx-Frame :
      (id : ℕ) (d : DecisionDto) → Frame but_budgets (decide_change_tx rt a c id d)
  unfolding decide_change_tx record_audit check
  decide_change_tx-Frame id (DecisionDto.approves r) = search (frame_rules, Frame-modify) depth 40
  decide_change_tx-Frame id (DecisionDto.rejects r) = search (frame_rules, Frame-modify) depth 40
  decide_change_tx-Frame id (DecisionDto.cancels r) = search (frame_rules, Frame-modify) depth 40

  pub pay_tx-Frame : (id : ℕ) (d : PaymentDto) → Frame but_payments (pay_tx rt a c id d)
  unfolding pay_tx record_audit date open_period account enforce post_expense get check_version
      event
  pay_tx-Frame id d = search (frame_rules, Frame-modify, Frame-evaluate) depth 40

  pub create_tx-Frame : (d : ExpenseDto) → Frame but_requests (create_tx rt a c d)
  unfolding create_tx record_audit check event
  create_tx-Frame d = search (frame_rules, Frame-modify, Frame-check_data) depth 40

  pub update_tx-Frame : (id v : ℕ) (d : ExpenseDto) → Frame but_requests (update_tx a c id v d)
  unfolding update_tx record_audit event get own editable check_version
  update_tx-Frame id v d = search (frame_rules, Frame-modify, Frame-check_data) depth 40

  pub submit_tx-Frame : (id v : ℕ) → Frame but_requests (submit_tx rt a c id v)
  unfolding submit_tx record_audit event get own editable check_version approvers enforce
  submit_tx-Frame id v = search (frame_rules, Frame-modify, Frame-evaluate) depth 40

  pub decide_tx-Frame : (id : ℕ) (d : VerdictDto) → Frame but_requests (decide_tx rt a id d)
  unfolding decide_tx record_audit event get check_version
  decide_tx-Frame id d = search (frame_rules, Frame-modify, Frame-check_approval rt a) depth 40

  pub cancel_tx-Frame : (id v : ℕ) (reason : String) → Frame but_requests (cancel_tx a id v reason)
  unfolding cancel_tx record_audit event get own check_version
  cancel_tx-Frame id v reason = search (frame_rules, Frame-modify) depth 40

  pub remove_attachment_tx-Frame :
      (id file v : ℕ) → Frame but_requests (remove_attachment_tx rt a id file v)
  unfolding remove_attachment_tx record_audit event get own editable check_version
  remove_attachment_tx-Frame id file v = search (frame_rules, Frame-modify) depth 40

module _ (rt : Runtime) (a : Actor) (c : ℕ) (db : Db) where
  pub period_create-same :
      (d : PeriodDto) → but_periods (Calendar.create_period rt a c d db).1 ≡ but_periods db
  unfolding Calendar.create_period
  period_create-same d =
      write_same but_periods rt a c _ _ _ db (period_tx-Frame rt a c d) (λ _. refl)

  pub period_close-same : (id : ℕ) → but_periods (Calendar.close rt a c id db).1 ≡ but_periods db
  unfolding Calendar.close
  period_close-same id =
      write_same but_periods rt a c _ _ _ db (close_tx-Frame rt a c id) (λ _. refl)

  pub journal_reverse-same :
      (id : ℕ) (d : ReverseDto) → but_journals (Ledger.reverse rt a c id d db).1 ≡ but_journals db
  unfolding Ledger.reverse
  journal_reverse-same id d =
      write_same but_journals rt a c _ _ _ db (reverse_tx-Frame rt a c id d) (λ _. refl)

  pub budget_save-same :
      (d : BudgetRevisionDto) → but_changes (Approval.save rt a c d db).1 ≡ but_changes db
  unfolding Approval.save
  budget_save-same d = write_same but_changes rt a c _ _ _ db (save_tx-Frame rt a c d) (λ _. refl)

  pub budget_decide-same :
      (id : ℕ) (d : DecisionDto) → but_budgets (Approval.decide rt a c id d db).1 ≡ but_budgets db
  unfolding Approval.decide
  budget_decide-same id d =
      write_same but_budgets rt a c _ _ _ db (decide_change_tx-Frame rt a c id d) (λ _. refl)

  pub expense_create-same :
      (d : ExpenseDto) → but_requests (Drafts.create rt a c d db).1 ≡ but_requests db
  unfolding Drafts.create
  expense_create-same d =
      write_same but_requests rt a c _ _ _ db (create_tx-Frame rt a c d) (λ _. refl)

  pub expense_update-same :
      (id : ℕ) (v : ℕ) (d : ExpenseDto)
      → but_requests (Drafts.update rt a c id v d db).1 ≡ but_requests db
  unfolding Drafts.update
  expense_update-same id v d =
      write_same but_requests rt a c _ _ _ db (update_tx-Frame rt a c id v d) (λ _. refl)

  pub expense_cancel-same :
      (id : ℕ) (v : ℕ) (reason : String)
      → but_requests (Drafts.cancel rt a c id v reason db).1 ≡ but_requests db
  unfolding Drafts.cancel
  expense_cancel-same id v reason =
      write_same but_requests rt a c _ _ _ db (cancel_tx-Frame rt a c id v reason) (λ _. refl)

  pub attachment_remove-same :
      (id : ℕ) (file : ℕ) (v : ℕ)
      → but_requests (Drafts.remove_attachment rt a c id file v db).1 ≡ but_requests db
  unfolding Drafts.remove_attachment
  attachment_remove-same id file v =
      write_same but_requests rt a c _ _ _ db (remove_attachment_tx-Frame rt a c id file v)
        (λ _. refl)

  pub expense_submit-same :
      (id : ℕ) (v : ℕ) → but_requests (Review.submit rt a c id v db).1 ≡ but_requests db
  unfolding Review.submit
  expense_submit-same id v =
      write_same but_requests rt a c _ _ _ db (submit_tx-Frame rt a c id v) (λ _. refl)

  pub expense_decide-same :
      (id : ℕ) (d : VerdictDto) → but_requests (Review.decide rt a c id d db).1 ≡ but_requests db
  unfolding Review.decide
  expense_decide-same id d =
      write_same but_requests rt a c _ _ _ db (decide_tx-Frame rt a c id d) (λ _. refl)

  pub expense_pay-same :
      (id : ℕ) (d : PaymentDto) → but_payments (Payment.pay rt a c id d db).1 ≡ but_payments db
  unfolding Payment.pay
  expense_pay-same id d =
      write_same but_payments rt a c _ _ _ db (pay_tx-Frame rt a c id d) (λ _. refl)
