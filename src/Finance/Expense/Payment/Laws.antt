-- ===== src/Finance/Expense/Payment/Laws.antt =====
-- expense.service.ts (pay): what a payment has checked and written.
use church_management.Base.{
  ℕ, ◌≡◌, refl, ap, sym, ◌∙◌, [], ◌∷◌, ◌++◌, Bool, true, false, not, some, none, ◌+◌, ◌==◌,
  update_where, trim, arith, same_some,
}
use church_management.Runtime.{Runtime}
use church_management.Store.{Db}
use church_management.Store.Books.{FinancePeriod, Description}
use church_management.Store.Spending.{approved, paid, state_eq, ExpenseRequest, ExpenseSubmission}
use church_management.Store.Budgeting.{CheckAction}
use church_management.Tx.{Result, ok}
use church_management.Tx.Laws.{find_row_ok, throw_if_ok, throw_if_found_ok, modify_ok, pure_ok}
use church_management.Identity.{Actor, has}
use church_management.Finance.Policy.{can_pay}
use church_management.Finance.Policy.Laws.{write_ok, write_keeps, date_ok}
use church_management.Finance.Ledger.Laws.{Opened, post_expense_ok}
use church_management.Finance.Ledger.Balance.{IsSound, IsSound-original, expense_journal-IsBalanced}
use church_management.Finance.Budget.Control.{ExpenseBudgetStatus}
use church_management.Finance.Budget.Control.Laws.{Controlled, evaluate-Controlled, enforce_ok}
use church_management.Finance.Expense.Request.{visible_row}
use church_management.Finance.Expense.Request.Laws.{get_ok, check_version_ok, event_ok}
use church_management.Finance.Expense.Review.{submission_of}
use church_management.Finance.Expense.Payment.{
  PaymentDto, is_incomplete, is_other_year, is_used, posting, new_payment, paid_row, pay_tx, pay,
}

-- What a payment that succeeds has found, and the rows that it has written.
pub record Settled (rt : Runtime) (a : Actor) (c id : ℕ) (d : PaymentDto) (db db' : Db)
    : Type 0 where
  pub row : ExpenseRequest
  pub submission : ExpenseSubmission
  pub opened : FinancePeriod × ℕ
  pub found : visible_row a id db ≡ some row
  pub current : row.version ≡ d.version
  pub was_approved : state_eq row.state approved ≡ true
  pub may_pay : can_pay row.requester_id row.approver_ids a.user_id ≡ true
  pub round : submission_of id row.round db ≡ some submission
  pub complete : is_incomplete submission.approvals ≡ false
  pub in_year : is_other_year row.budget_year d.paid_on ≡ false
  pub unused : is_used c (trim d.reference) db ≡ false
  pub period_open : Opened c db opened
  pub day : rt.parse_date d.paid_on ≡ some opened.1
  pub budget : Controlled rt row db
  pub journals :
      db'.journals
      ≡ db.journals
        ++ record {
          id = rt.new_id 0;
          church_id = c;
          period_id = opened.0.id;
          posted_on = opened.1;
          posted_by = a.user_id;
          description = Description.expense_payment id;
          reversal_of = none;
          lines =
              record {
                account_id = submission.account_id;
                fund_id = submission.fund_id;
                debit = submission.amount;
                credit = 0;
              }
              ∷ record {
                account_id = d.account_id;
                fund_id = submission.fund_id;
                debit = 0;
                credit = submission.amount;
              }
              ∷ [];
        }
          ∷ []
  pub payments :
      db'.payments
      ≡ db.payments
        ++ record {
          church_id = c;
          request_id = id;
          paid_by = a.user_id;
          paid_on = opened.1;
          method = d.method;
          reference = trim d.reference;
          amount = submission.amount;
          journal_id = rt.new_id 0;
        }
          ∷ []
  pub expenses :
      db'.expenses
      ≡ update_where
          (λ r. r.id == id)
          (λ r. record r { state = paid; version = r.version + 1 })
          db.expenses
  pub submissions : db'.submissions ≡ db.submissions

true_of_not : (b : Bool) → not b ≡ false → b ≡ true
true_of_not b h = ground arith

pub pay_tx-Settled :
    (rt : Runtime) (a : Actor) (c id : ℕ) (d : PaymentDto) (db : Db)
    {x : ℕ × ℕ × ExpenseBudgetStatus} {db' : Db}
    → pay_tx rt a c id d db ≡ ok (x, db')
    → Settled rt a c id d db db'
unfolding pay_tx
pay_tx-Settled rt a c id d db h =
    let (row, found, e₁) = get_ok db a id _ h in
    let (current, e₂) = check_version_ok db row d.version _ e₁ in
    let (state, e₃) = throw_if_ok _ _ _ e₂ in
    let (other, e₄) = throw_if_ok _ _ _ e₃ in
    let (s, round, e₅) = find_row_ok _ _ _ e₄ in
    let (complete, e₆) = throw_if_ok _ _ _ e₅ in
    let (day, parsed, _, e₇) = date_ok db rt _ _ e₆ in
    let (in_year, e₈) = throw_if_ok _ _ _ e₇ in
    let (result, _, evaluated, passed, e₉) = enforce_ok db rt a row CheckAction.pay _ e₈ in
    let (unused, e₁₀) = throw_if_found_ok _ _ _ e₉ in
    let (opened, period_open, posted_on, e₁₁) = post_expense_ok _ rt a c _ _ e₁₀ in
    let (again, parsed', _, e₁₂) = date_ok _ rt _ _ e₁₁ in
    let (_, e₁₃) = event_ok _ a (paid_row row) "pay" "" _ (modify_ok _ _ (modify_ok _ _ e₁₂)) in
    let (_, same) = pure_ok e₁₃ in
    let same_day : again ≡ opened.1 = same_some (rt.parse_date d.paid_on) parsed' posted_on in
    record {
      row = row;
      submission = s;
      opened = opened;
      found = found;
      current = current;
      was_approved = true_of_not _ state;
      may_pay = true_of_not _ other;
      round = round;
      complete = complete;
      in_year = in_year;
      unused = unused;
      period_open = period_open;
      day = posted_on;
      budget = evaluate-Controlled rt row db evaluated passed;
      journals = ap (λ (y : Db). y.journals) (sym same);
      payments =
          ap (λ (y : Db). y.payments) (sym same)
          ∙ ap (λ t. db.payments ++ new_payment a c id d s (rt.new_id 0) t ∷ []) same_day;
      expenses = ap (λ (y : Db). y.expenses) (sym same);
      submissions = ap (λ (y : Db). y.submissions) (sym same);
    }

-- Paying keeps the books sound, whether the call succeeds or is refused.
pub pay-IsSound :
    (rt : Runtime) (a : Actor) (c id : ℕ) (d : PaymentDto) (db : Db)
    → IsSound db.journals
    → IsSound (pay rt a c id d db).1.journals
unfolding pay
pay-IsSound rt a c id d db s =
    write_keeps rt a c _ (pay_tx rt a c id d) true (λ y. IsSound y.journals) db (λ _ k. k) kept s
  where
    kept :
        (x : ℕ × ℕ × ExpenseBudgetStatus) (db' : Db)
        → pay_tx rt a c id d db ≡ ok (x, db')
        → IsSound db'.journals
    kept x db' h =
        let p = pay_tx-Settled rt a c id d db h in
        rw p.journals (
          IsSound-original db.journals _ s
            (expense_journal-IsBalanced rt a c (posting id d p.submission) p.opened) refl)

-- A payment that succeeds comes from a member with the permission to pay, on a request that the caller
-- sees, at the version named, approved, of which he is neither the requester nor an approver. All the
-- approvals of its round are accepted, the day lies in an open period and in the request's budget year,
-- the reference is new, and the church only warns or the budget line has room. It adds one journal that
-- debits the submitted account and credits the account named, both with the submitted amount and fund,
-- adds the payment of that amount by the caller on that day with the journal's id, and marks the request
-- paid.
pub pay-Settled :
    (rt : Runtime) (a : Actor) (c id : ℕ) (d : PaymentDto) (db : Db)
    {x : ℕ × ℕ × ExpenseBudgetStatus} {db' : Db}
    → pay rt a c id d db ≡ (Result.ok x, db')
    → (a.church_id ≡ c) × (has a "expense.pay" ≡ true) × Settled rt a c id d db db'
unfolding pay
pay-Settled rt a c id d db h =
    let (member, permission, _, done) = write_ok rt a c _ (pay_tx rt a c id d) true db h in
    (member, permission, pay_tx-Settled rt a c id d db done)
