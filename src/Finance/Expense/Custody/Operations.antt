-- ===== src/Finance/Expense/Custody/Operations.antt =====
-- expense.service.ts: each operation keeps every paid request with a proper payment.
use church_management.Base.{
  ℕ, ◌≡◌, ◌≢◌, refl, String, List, [], ◌∷◌, ◌++◌, true, false, Option, ==-self, All, All-weaken,
  All-concat, Pairwise-concat, arith,
}
use church_management.Runtime.{Runtime}
use church_management.Store.{Db}
use church_management.Store.Spending.{ExpenseRequest}
use church_management.Tx.{ok}
use church_management.Identity.{Actor}
use church_management.Finance.Policy.Laws.{write_keeps}
use church_management.Finance.Budget.Control.{ExpenseBudgetStatus}
use church_management.Finance.Expense.Request.{ExpenseDto}
use church_management.Finance.Expense.Request.Laws.{visible_row-facts}
use church_management.Finance.Expense.Drafts.{
  new_request, create, create_tx, edit, update, update_tx, cancelled_row, cancel, cancel_tx,
  touched, remove_attachment, remove_attachment_tx,
}
use church_management.Finance.Expense.Drafts.Laws.{
  create_tx_ok, update_tx_ok, cancel_tx_ok, remove_attachment_tx_ok,
}
use church_management.Finance.Expense.Review.{
  DecisionDto, submitted, submit, submit_tx, reviewed, following, decide, decide_tx,
}
use church_management.Finance.Expense.Review.Laws.{submit_tx-Submitted, decide_tx-Reviewed}
use church_management.Finance.Expense.Payment.{PaymentDto, paid_row, new_payment, pay, pay_tx}
use church_management.Finance.Expense.Payment.Laws.{pay_tx-Settled}
use church_management.Finance.Expense.Custody.{
  pays, IsProper, IsAccounted, changed-IsAccounted, unpaid-IsProper, editable_unpaid,
  decided_unpaid, any-last, append-IsProper,
}

module _ (rt : Runtime) (a : Actor) (c : ℕ) (db : Db)
    (h : IsAccounted db.expenses db.payments) where
  moved :
      (db' : Db) (rows : List ExpenseRequest)
      → db'.expenses ≡ rows
      → db'.payments ≡ db.payments
      → IsAccounted rows db.payments
      → IsAccounted db'.expenses db'.payments
  moved db' rows e p k = rw (e, p) k

  -- Creating a request keeps the invariant that a paid request has a proper payment; the id of the new row is not in use.
  pub create-IsAccounted :
      (d : ExpenseDto)
      → All (λ (r : ExpenseRequest). r.id ≢ rt.new_id 0) db.expenses
      → IsAccounted (create rt a c d db).1.expenses (create rt a c d db).1.payments
  unfolding create
  create-IsAccounted d fresh =
      write_keeps rt a c _ (create_tx rt a c d) false (λ y. IsAccounted y.expenses y.payments) db
        (λ _ k. k) kept h
    where
      kept :
          (x : ℕ × ℕ) (db' : Db)
          → create_tx rt a c d db ≡ ok (x, db')
          → IsAccounted db'.expenses db'.payments
      kept x db' done =
          let w = create_tx_ok db rt a c d done in
          moved db' _ w.expenses w.payments (record {
            unique =
                Pairwise-concat (λ x y. x.id ≢ y.id) db.expenses (new_request rt a c d) h.unique
                  fresh;
            proper =
                All-concat (IsProper db.payments) db.expenses {x = new_request rt a c d} h.proper
                  refl;
          })

  -- Editing a request keeps the invariant that a paid request has a proper payment.
  pub update-IsAccounted :
      (id v : ℕ) (d : ExpenseDto)
      → IsAccounted (update rt a c id v d db).1.expenses (update rt a c id v d db).1.payments
  unfolding update
  update-IsAccounted id v d =
      write_keeps rt a c _ (update_tx a c id v d) false (λ y. IsAccounted y.expenses y.payments) db
        (λ _ k. k) kept h
    where
      kept :
          (x : ℕ) (db' : Db)
          → update_tx a c id v d db ≡ ok (x, db')
          → IsAccounted db'.expenses db'.payments
      kept x db' done =
          let (row, o, editable, w) = update_tx_ok db rt a c id v d done in
          moved db' _ w.expenses w.payments (
            changed-IsAccounted a id (edit d v) db row db.payments o.found (λ _. refl)
              (unpaid-IsProper db.payments (edit d v row) (editable_unpaid row.state editable)) h)

  -- Cancelling a request keeps the invariant that a paid request has a proper payment.
  pub cancel-IsAccounted :
      (id v : ℕ) (reason : String)
      → IsAccounted
          (cancel rt a c id v reason db).1.expenses
          (cancel rt a c id v reason db).1.payments
  unfolding cancel
  cancel-IsAccounted id v reason =
      write_keeps rt a c _ (cancel_tx a id v reason) false (λ y. IsAccounted y.expenses y.payments)
        db (λ _ k. k) kept h
    where
      kept :
          (x : Unit {0}) (db' : Db)
          → cancel_tx a id v reason db ≡ ok (x, db')
          → IsAccounted db'.expenses db'.payments
      kept x db' done =
          let (row, o, _, w) = cancel_tx_ok db rt a id v reason done in
          moved db' _ w.expenses w.payments
            (changed-IsAccounted a id cancelled_row db row db.payments o.found (λ _. refl) refl h)

  -- Removing an attachment keeps the invariant that a paid request has a proper payment.
  pub remove_attachment-IsAccounted :
      (id file v : ℕ)
      → IsAccounted
          (remove_attachment rt a c id file v db).1.expenses
          (remove_attachment rt a c id file v db).1.payments
  unfolding remove_attachment
  remove_attachment-IsAccounted id file v =
      write_keeps rt a c _ (remove_attachment_tx rt a id file v) false
        (λ y. IsAccounted y.expenses y.payments) db (λ _ k. k) kept h
    where
      kept :
          (x : Unit {0}) (db' : Db)
          → remove_attachment_tx rt a id file v db ≡ ok (x, db')
          → IsAccounted db'.expenses db'.payments
      kept x db' done =
          let (row, o, editable, w) = remove_attachment_tx_ok db rt a id file v done in
          moved db' _ w.expenses w.payments (
            changed-IsAccounted a id touched db row db.payments o.found (λ _. refl)
              (unpaid-IsProper db.payments (touched row) (editable_unpaid row.state editable)) h)

  -- Submitting a request keeps the invariant that a paid request has a proper payment.
  pub submit-IsAccounted :
      (id v : ℕ) → IsAccounted (submit rt a c id v db).1.expenses (submit rt a c id v db).1.payments
  unfolding submit
  submit-IsAccounted id v =
      write_keeps rt a c _ (submit_tx rt a c id v) false (λ y. IsAccounted y.expenses y.payments) db
        (λ _ k. k) kept h
    where
      kept :
          (x : ℕ × ExpenseBudgetStatus) (db' : Db)
          → submit_tx rt a c id v db ≡ ok (x, db')
          → IsAccounted db'.expenses db'.payments
      kept x db' done =
          let s = submit_tx-Submitted rt a c id v db done in
          moved db' _ s.expenses s.payments (
            changed-IsAccounted a id (submitted s.row) db s.row db.payments s.owned.found
              (λ _. refl) refl h)

  -- A decision keeps the invariant that a paid request has a proper payment.
  pub decide-IsAccounted :
      (id : ℕ) (d : DecisionDto)
      → IsAccounted (decide rt a c id d db).1.expenses (decide rt a c id d db).1.payments
  unfolding decide
  decide-IsAccounted id d =
      write_keeps rt a c _ (decide_tx rt a id d) true (λ y. IsAccounted y.expenses y.payments) db
        (λ _ k. k) kept h
    where
      kept :
          (x : ℕ × Option ExpenseBudgetStatus) (db' : Db)
          → decide_tx rt a id d db ≡ ok (x, db')
          → IsAccounted db'.expenses db'.payments
      kept x db' done =
          let s = decide_tx-Reviewed rt a id d db done in
          moved db' _ s.expenses s.payments (
            changed-IsAccounted a id (reviewed d (following s.current s.submission)) db s.row
              db.payments s.found (λ _. refl)
              (unpaid-IsProper db.payments (reviewed d (following s.current s.submission) s.row)
                (decided_unpaid d (following s.current s.submission)))
              h)

  -- Paying keeps the invariant: ids are unique, and each paid request has a payment by someone who is
  -- neither its requester nor one of its approvers.
  pub pay-IsAccounted :
      (id : ℕ) (d : PaymentDto)
      → IsAccounted (pay rt a c id d db).1.expenses (pay rt a c id d db).1.payments
  unfolding pay
  pay-IsAccounted id d =
      write_keeps rt a c _ (pay_tx rt a c id d) true (λ y. IsAccounted y.expenses y.payments) db
        (λ _ k. k) kept h
    where
      kept :
          (x : ℕ × ℕ × ExpenseBudgetStatus) (db' : Db)
          → pay_tx rt a c id d db ≡ ok (x, db')
          → IsAccounted db'.expenses db'.payments
      kept x db' done =
          let s = pay_tx-Settled rt a c id d db done in
          let p = new_payment a c id d s.submission (rt.new_id 0) s.opened.1 in
          let same : s.row.id ≡ id = (visible_row-facts a id db s.row s.found).1 in
          let proper : pays (paid_row s.row) p ≡ true =
            ground (arith, same, s.may_pay, ==-self id) in
          rw (s.expenses, s.payments)
            (changed-IsAccounted a id paid_row db s.row (db.payments ++ p ∷ []) s.found (λ _. refl)
              (any-last (pays (paid_row s.row)) db.payments p proper)
              (record {
                unique = h.unique;
                proper =
                    All-weaken (λ r k. append-IsProper db.payments (p ∷ []) r k) db.expenses
                      h.proper;
              }))
