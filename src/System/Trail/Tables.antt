-- ===== src/System/Trail/Tables.antt =====
-- finance/application: what each operation adds to the tables that record what was done.
use church_management.Tx.{ok}
use church_management.Base.{ℕ, ◌≡◌, refl, ap, true}
use church_management.Runtime.{Runtime}
use church_management.Store.{Db}
use church_management.Identity.{Actor}
use church_management.Finance.Policy.Laws.{write_keeps, after_check_keeps}
use church_management.Finance.Ledger.{ReverseDto, reverse, reverse_tx}
use church_management.Finance.Ledger.Laws.{reverse_tx_ok}
use church_management.Finance.Budget.Approval.{DecisionDto, DecisionResult, decide, decide_tx}
use church_management.Finance.Budget.Approval.Laws.{decide_tx_ok}
use church_management.Finance.Expense.Payment.{PaymentDto, pay, pay_tx}
use church_management.Finance.Expense.Payment.Laws.{pay_tx-Settled}
use church_management.Finance.Offering.Posting.{
  post, post_tx, reverse as correct, reverse_tx as correct_tx,
}
use church_management.Finance.Offering.Posting.Laws.{post_tx-Posted}
use church_management.Finance.Offering.Posting.Correction.{reverse_tx-Corrected}
use church_management.Finance.Receipt.Issue.{ReceiptIssueDto, issue, issue_tx}
use church_management.Finance.Receipt.Issued.{issue_tx-Issued}
use church_management.System.Trail.{Extends, Extends-same, Extends-one}

module _ (rt : Runtime) (a : Actor) (c : ℕ) (db : Db) where
  pub journal_reverse_grows :
      (id : ℕ) (d : ReverseDto) → Extends db.journals (reverse rt a c id d db).1.journals
  unfolding reverse
  journal_reverse_grows id d =
      write_keeps rt a c _ (reverse_tx rt a c id d) true (λ y. Extends db.journals y.journals) db
        (λ _ k. k)
        (λ x y h.
          let (_, _, _, _, _, _, _, _, _, same) = reverse_tx_ok db rt a c id d h in
          Extends-one _ (ap (λ (z : Db). z.journals) same))
        (Extends-same refl)

  pub expense_pay_grows :
      (id : ℕ) (d : PaymentDto)
      → Extends db.journals (pay rt a c id d db).1.journals
        × Extends db.payments (pay rt a c id d db).1.payments
  unfolding pay
  expense_pay_grows id d =
      write_keeps rt a c _ (pay_tx rt a c id d) true
        (λ y. Extends db.journals y.journals × Extends db.payments y.payments) db (λ _ k. k)
        (λ x y h.
          let p = pay_tx-Settled rt a c id d db h in
          (Extends-one _ p.journals, Extends-one _ p.payments))
        (Extends-same refl, Extends-same refl)

  pub budget_decide_grows :
      (id : ℕ) (d : DecisionDto)
      → Extends db.budget_revisions (decide rt a c id d db).1.budget_revisions
  unfolding decide
  budget_decide_grows id d =
      write_keeps rt a c _ (decide_tx rt a c id d) true
        (λ y. Extends db.budget_revisions y.budget_revisions) db (λ _ k. k) (kept d)
        (Extends-same refl)
    where
      kept :
          (d : DecisionDto) (x : DecisionResult) (db' : Db)
          → decide_tx rt a c id d db ≡ ok (x, db')
          → Extends db.budget_revisions db'.budget_revisions
      kept (DecisionDto.approves r) x db' h =
          let (_, _, _, _, _, _, same) = decide_tx_ok rt a c db id (DecisionDto.approves r) h in
          Extends-one _ (ap (λ (z : Db). z.budget_revisions) same)
      kept (DecisionDto.rejects r) x db' h =
          let (_, _, _, _, _, _, same) = decide_tx_ok rt a c db id (DecisionDto.rejects r) h in
          Extends-same (ap (λ (z : Db). z.budget_revisions) same)
      kept (DecisionDto.cancels r) x db' h =
          let (_, _, _, _, _, _, same) = decide_tx_ok rt a c db id (DecisionDto.cancels r) h in
          Extends-same (ap (λ (z : Db). z.budget_revisions) same)

  pub offering_post_grows : (id v : ℕ) → Extends db.journals (post rt a c id v db).1.journals
  unfolding post
  offering_post_grows id v =
      after_check_keeps a c _ _ db (λ y. Extends db.journals y.journals) (Extends-same refl)
        (write_keeps rt a c _ (post_tx rt a c id v) true (λ y. Extends db.journals y.journals) db
          (λ _ k. k) (λ x y h. Extends-one _ (post_tx-Posted rt a c id v db h).journals)
          (Extends-same refl))

  pub offering_reverse_grows :
      (id : ℕ) (d : ReverseDto) → Extends db.journals (correct rt a c id d db).1.journals
  unfolding correct
  offering_reverse_grows id d =
      after_check_keeps a c _ _ db (λ y. Extends db.journals y.journals) (Extends-same refl)
        (write_keeps rt a c _ (correct_tx rt a c id d) true (λ y. Extends db.journals y.journals) db
          (λ _ k. k) (λ x y h. Extends-one _ (reverse_tx-Corrected rt a c id d db h).journals)
          (Extends-same refl))

  pub receipt_issue_grows :
      (d : ReceiptIssueDto) → Extends db.receipts (issue rt a c d db).1.receipts
  unfolding issue
  receipt_issue_grows d =
      after_check_keeps a c _ _ db (λ y. Extends db.receipts y.receipts) (Extends-same refl)
        (write_keeps rt a c _ (issue_tx rt a c d) true (λ y. Extends db.receipts y.receipts) db
          (λ _ k. k) (λ x y h. Extends-one _ (issue_tx-Issued rt a c d db h).written)
          (Extends-same refl))
