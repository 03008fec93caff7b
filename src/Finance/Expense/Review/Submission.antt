-- ===== src/Finance/Expense/Review/Submission.antt =====
-- expense.service.ts (submit): the rows that a submission writes, in terms of the request.
use church_management.Base.{
  ℕ, ◌≡◌, refl, ap, ◌∙◌, [], ◌∷◌, ◌++◌, true, false, some, none, List, ◌+◌, ◌==◌, update_where,
  select,
}
use church_management.Runtime.{Runtime}
use church_management.Store.{Db}
use church_management.Store.People.{User}
use church_management.Store.Spending.{in_review, ExpenseRequest, pending, ExpenseApproval}
use church_management.Tx.{Result}
use church_management.Identity.{Actor, has}
use church_management.Finance.Policy.{valid_approval_line}
use church_management.Finance.Policy.Laws.{write_ok}
use church_management.Finance.Budget.Control.{ExpenseBudgetStatus}
use church_management.Finance.Expense.Request.{is_approver}
use church_management.Finance.Expense.Review.Laws.{Submitted, submit_tx-Submitted}
use church_management.Finance.Expense.Review.{new_approvals, first_approver, submit_tx, submit}

-- One pending approval for each approver, in order, at the positions after n.
abbrev pub Asked : ℕ → List ℕ → List ExpenseApproval → Type 0
Asked n [] [] = Unit
Asked n [] (x ∷ xs) = ⊥
Asked n (id ∷ ids) [] = ⊥
Asked n (id ∷ ids) (x ∷ xs) =
    ((x.user_id ≡ id) × (x.position ≡ n + 1) × (x.decision ≡ pending) × (x.decided_at ≡ none))
    × Asked (n + 1) ids xs

approvals_of :
    (rt : Runtime) (users : List User) (n : ℕ) (ids : List ℕ)
    → Asked n ids (new_approvals rt users n ids)
approvals_of rt users n [] = tt
approvals_of rt users n (id ∷ ids) = ((refl, refl, refl, refl), approvals_of rt users (n + 1) ids)

first_of :
    (ids : List ℕ) (a : ℕ)
    → valid_approval_line ids a ≡ true
    → (x : ℕ) × (xs : List ℕ) × (ids ≡ x ∷ xs)
unfolding valid_approval_line
first_of [] a h = cc
first_of (x ∷ xs) a h = (x, xs, refl)

-- The rows of a submission, in terms of the request.
pub record Copied (rt : Runtime) (c id : ℕ) (row : ExpenseRequest) (db db' : Db) : Type 0 where
  pub approvals : List ExpenseApproval
  pub asked : Asked 0 row.approver_ids approvals
  pub added :
      db'.submissions
      ≡ db.submissions
        ++ record {
          id = rt.new_id 0;
          church_id = c;
          request_id = row.id;
          round = row.round + 1;
          budget_year = row.budget_year;
          title = row.title;
          purpose = row.purpose;
          payee = row.payee;
          amount = row.amount;
          account_id = row.account_id;
          fund_id = row.fund_id;
          evidence_reference = row.evidence_reference;
          approvals = approvals;
        }
          ∷ []
  pub first : ℕ
  pub others : List ℕ
  pub line : row.approver_ids ≡ first ∷ others
  pub changed :
      db'.expenses
      ≡ update_where
          (λ r. r.id == id)
          (λ r. record r {
            round = row.round + 1;
            state = in_review;
            current_approver_id = some first;
            version = r.version + 1;
          })
          db.expenses

Submitted-Copied :
    (rt : Runtime) (a : Actor) (c id v : ℕ) (db db' : Db) (s : Submitted rt a c id v db db')
    → Copied rt c id s.row db db'
Submitted-Copied rt a c id v db db' s =
    let (first, others, line) = first_of s.row.approver_ids a.user_id s.line in
    record {
      approvals =
          new_approvals rt (select (is_approver c s.row.approver_ids) db.users) 0
            s.row.approver_ids;
      asked = approvals_of rt _ 0 s.row.approver_ids;
      added = s.submissions;
      first = first;
      others = others;
      line = line;
      changed =
          s.expenses
          ∙ ap
              (λ (ids : List ℕ).
                update_where (λ r. r.id == id)
                  (λ r. record r {
                    round = s.row.round + 1;
                    state = in_review;
                    current_approver_id = first_approver r ids;
                    version = r.version + 1;
                  })
                  db.expenses)
              line;
    }

-- A submission that succeeds comes from a member with the permission to write expenses, on an own draft
-- or returned request at the version named, with a valid line of approvers and a budget year; the church
-- only warns or the budget line has room. It adds the submission of the next round with a copy of the
-- request and, in their order, one pending approval for each approver, and puts the request into review
-- by the first of them, at the next round and version.
pub submit-Submitted :
    (rt : Runtime) (a : Actor) (c id v : ℕ) (db : Db) {x : ℕ × ExpenseBudgetStatus} {db' : Db}
    → submit rt a c id v db ≡ (Result.ok x, db')
    → (a.church_id ≡ c)
      × (has a "expense.write" ≡ true)
      × (s : Submitted rt a c id v db db') × Copied rt c id s.row db db'
unfolding submit
submit-Submitted rt a c id v db h =
    let (member, permission, _, done) = write_ok rt a c _ (submit_tx rt a c id v) false db h in
    let s = submit_tx-Submitted rt a c id v db done in
    (member, permission, s, Submitted-Copied rt a c id v db _ s)
