-- ===== src/Finance/Expense/Review/Laws.antt =====
-- expense.service.ts (submit, decide): what a submission and a decision have found and written.
use church_management.Base.{
  ℕ, ◌≡◌, ◌⊎◌, inl, inr, refl, ap, sym, ◌∙◌, [], ◌∷◌, ◌++◌, map, Bool, true, false, not, ◌||◌,
  Option, some, ◌==◌, is_none, eq_of_is_id, update_where, select, arith,
}
use church_management.Runtime.{Runtime}
use church_management.Store.{Db}
use church_management.Store.Spending.{
  in_review, state_eq, ExpenseRequest, ExpenseApproval, ExpenseSubmission,
}
use church_management.Store.Budgeting.{CheckAction}
use church_management.Tx.{ok}
use church_management.Tx.Laws.{
  bind_ok, find_row_ok, throw_if_ok, or_throw_ok, gets_ok, modify_ok, pure_ok,
}
use church_management.Identity.{Actor}
use church_management.Finance.Policy.{valid_approval_line}
use church_management.Finance.Budget.Control.{ExpenseBudgetStatus}
use church_management.Finance.Budget.Control.Laws.{Controlled, evaluate-Controlled, enforce_ok}
use church_management.Finance.Expense.Request.{visible_row, is_editable, is_approver}
use church_management.Finance.Expense.Request.Laws.{
  get_ok, own_ok, check_version_ok, editable_ok, event_ok, approvers_ok,
}
use church_management.Finance.Expense.Drafts.Laws.{Owned, replaced}
use church_management.Finance.Expense.Review.{
  DecisionDto, new_submission, submitted, submit_tx, submission_of, first_pending, following,
  decide_in, reviewed, check_approval, decide_tx,
}

-- What a submission that succeeds has found and written.
pub record Submitted (rt : Runtime) (a : Actor) (c id v : ℕ) (db db' : Db) : Type 0 where
  pub row : ExpenseRequest
  pub owned : Owned a id v db row
  pub was_editable : is_editable row.state ≡ true
  pub line : valid_approval_line row.approver_ids a.user_id ≡ true
  pub has_year : is_none row.budget_year ≡ false
  pub budget : Controlled rt row db
  pub submissions :
      db'.submissions
      ≡ db.submissions
        ++ new_submission rt c (select (is_approver c row.approver_ids) db.users) row ∷ []
  pub expenses : db'.expenses ≡ replaced id (submitted row) db
  pub payments : db'.payments ≡ db.payments
  pub journals : db'.journals ≡ db.journals

pub submit_tx-Submitted :
    (rt : Runtime) (a : Actor) (c id v : ℕ) (db : Db) {x : ℕ × ExpenseBudgetStatus} {db' : Db}
    → submit_tx rt a c id v db ≡ ok (x, db')
    → Submitted rt a c id v db db'
unfolding submit_tx
submit_tx-Submitted rt a c id v db h =
    let (row, found, e₁) = get_ok db a id _ h in
    let (owner, current, e₂) = own_ok db a row v _ e₁ in
    let (editable, e₃) = editable_ok db row _ e₂ in
    let (line, _, e₄) = approvers_ok db c row.approver_ids a.user_id _ e₃ in
    let (_, e₅) = throw_if_ok _ _ _ (gets_ok _ _ e₄) in
    let (has_year, e₆) = throw_if_ok _ _ _ e₅ in
    let (result, _, evaluated, passed, e₇) = enforce_ok db rt a row CheckAction.submit _ e₆ in
    let (_, e₈) = throw_if_ok _ _ _ e₇ in
    let (_, e₉) =
      event_ok _ a (submitted row row) "submit" "" _
        (modify_ok _ _ (modify_ok _ _ (modify_ok _ _ e₈))) in
    let (_, same) = pure_ok e₉ in
    record {
      row = row;
      owned = record { found = found; owner = owner; current = current };
      was_editable = editable;
      line = line;
      has_year = has_year;
      budget = evaluate-Controlled rt row db evaluated passed;
      submissions = ap (λ (y : Db). y.submissions) (sym same);
      expenses = ap (λ (y : Db). y.expenses) (sym same);
      payments = ap (λ (y : Db). y.payments) (sym same);
      journals = ap (λ (y : Db). y.journals) (sym same);
    }

-- The tables that the budget check of an approval leaves alone.
pub record Checked (db db' : Db) : Type 0 where
  pub submissions : db'.submissions ≡ db.submissions
  pub expenses : db'.expenses ≡ db.expenses
  pub payments : db'.payments ≡ db.payments
  pub journals : db'.journals ≡ db.journals

check_approval-Checked :
    (db : Db) (rt : Runtime) (a : Actor) (row : ExpenseRequest) (approve : Bool)
    {x : Option ExpenseBudgetStatus} {db' : Db}
    → check_approval rt a row approve db ≡ ok (x, db')
    → Checked db db' × ((approve ≡ false) ⊎ Controlled rt row db)
unfolding check_approval
check_approval-Checked db rt a row true h =
    let (_, _, evaluated, passed, e) = enforce_ok db rt a row CheckAction.approve _ h in
    let (_, same) = pure_ok e in
    (
      record {
        submissions = ap (λ (y : Db). y.submissions) (sym same);
        expenses = ap (λ (y : Db). y.expenses) (sym same);
        payments = ap (λ (y : Db). y.payments) (sym same);
        journals = ap (λ (y : Db). y.journals) (sym same);
      },
      inr (evaluate-Controlled rt row db evaluated passed),
    )
check_approval-Checked db rt a row false h =
    let (_, same) = pure_ok h in
    (
      record {
        submissions = ap (λ (y : Db). y.submissions) (sym same);
        expenses = ap (λ (y : Db). y.expenses) (sym same);
        payments = ap (λ (y : Db). y.payments) (sym same);
        journals = ap (λ (y : Db). y.journals) (sym same);
      },
      inl refl,
    )

-- What a decision that succeeds has found and written.
pub record Reviewed (rt : Runtime) (a : Actor) (id : ℕ) (d : DecisionDto) (db db' : Db)
    : Type 0 where
  pub row : ExpenseRequest
  pub submission : ExpenseSubmission
  pub current : ExpenseApproval
  pub found : visible_row a id db ≡ some row
  pub at_version : row.version ≡ d.version
  pub in_review : state_eq row.state in_review ≡ true
  pub my_turn : row.current_approver_id ≡ some a.user_id
  pub not_mine : (row.requester_id == a.user_id) ≡ false
  pub round : submission_of id row.round db ≡ some submission
  pub pending : first_pending submission ≡ some current
  pub asked : (current.user_id == a.user_id) ≡ true
  pub budget : (d.approve ≡ false) ⊎ Controlled rt row db
  pub submissions : db'.submissions ≡ map (decide_in current.id d rt.now) db.submissions
  pub expenses : db'.expenses ≡ replaced id (reviewed d (following current submission)) db
  pub payments : db'.payments ≡ db.payments
  pub journals : db'.journals ≡ db.journals

turn_facts : (s m t : Bool) → (not s || not m || t) ≡ false → (s ≡ true) × (m ≡ true) × (t ≡ false)
turn_facts s m t h = ground arith

true_of_not : (b : Bool) → not b ≡ false → b ≡ true
true_of_not b h = ground arith

pub decide_tx-Reviewed :
    (rt : Runtime) (a : Actor) (id : ℕ) (d : DecisionDto) (db : Db)
    {x : ℕ × Option ExpenseBudgetStatus} {db' : Db}
    → decide_tx rt a id d db ≡ ok (x, db')
    → Reviewed rt a id d db db'
unfolding decide_tx
decide_tx-Reviewed rt a id d db h =
    let (row, found, e₁) = get_ok db a id _ h in
    let (at_version, e₂) = check_version_ok db row d.version _ e₁ in
    let (turn, e₃) = throw_if_ok _ _ _ e₂ in
    let (state, mine, other) = turn_facts _ _ _ turn in
    let (s, round, e₄) = find_row_ok _ _ _ e₃ in
    let (current, first, e₅) = or_throw_ok _ _ _ e₄ in
    let (asked, e₆) = throw_if_ok _ _ _ e₅ in
    let (_, db₁, checked, e₇) = bind_ok (check_approval rt a row d.approve) _ e₆ in
    let (kept, fits) = check_approval-Checked db rt a row d.approve checked in
    let (_, e₈) =
      event_ok _ a (reviewed d (following current s) row) _ d.reason _
        (modify_ok _ _ (modify_ok _ _ e₇)) in
    let (_, same) = pure_ok e₈ in
    record {
      row = row;
      submission = s;
      current = current;
      found = found;
      at_version = at_version;
      in_review = state;
      my_turn = eq_of_is_id _ _ mine;
      not_mine = other;
      round = round;
      pending = first;
      asked = true_of_not _ asked;
      budget = fits;
      submissions =
          ap (λ (y : Db). y.submissions) (sym same)
          ∙ ap (map (decide_in current.id d rt.now)) kept.submissions;
      expenses =
          ap (λ (y : Db). y.expenses) (sym same)
          ∙ ap (update_where (λ r. r.id == id) (reviewed d (following current s))) kept.expenses;
      payments = ap (λ (y : Db). y.payments) (sym same) ∙ kept.payments;
      journals = ap (λ (y : Db). y.journals) (sym same) ∙ kept.journals;
    }
