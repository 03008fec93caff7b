-- ===== src/Finance/Expense/Review/Decision.antt =====
-- expense.service.ts (decide): what a decision does to the approval and to the request.
use church_management.Base.{
  ℕ, ◌≡◌, ◌⊎◌, inl, inr, refl, map, true, false, Option, some, none, ltb, find_first, Bool-cases,
  ◌+◌, ◌==◌, update_where,
}
use church_management.Runtime.{Runtime}
use church_management.Store.{Db}
use church_management.Store.Spending.{
  in_review, approved, returned, ExpenseState, Verdict, accepted, rejected, ExpenseApproval,
  ExpenseSubmission,
}
use church_management.Tx.{Result}
use church_management.Identity.{Actor, has}
use church_management.Finance.Policy.Laws.{write_ok}
use church_management.Finance.Budget.Control.{ExpenseBudgetStatus}
use church_management.Finance.Expense.Review.Laws.{Reviewed, decide_tx-Reviewed}
use church_management.Finance.Expense.Review.{
  DecisionDto, verdict_of, next_state, next_approver, following, decide_tx, decide,
}

-- What a decision does, in terms of the approval that it decides and of those after it.
pub record Moved (rt : Runtime) (id : ℕ) (d : DecisionDto) (current : ExpenseApproval)
    (submission : ExpenseSubmission) (db db' : Db) : Type 0 where
  pub verdict : Verdict
  pub state : ExpenseState
  pub next : Option ℕ
  pub outcome :
      ((d.approve ≡ true)
        × (verdict ≡ accepted)
        × (x : ExpenseApproval) × (find_first
              (λ y. ltb current.position y.position)
              submission.approvals
            ≡ some x)
        × (state ≡ in_review)
        × (next ≡ some x.user_id))
      ⊎ ((d.approve ≡ true)
          × (verdict ≡ accepted)
          × (find_first (λ y. ltb current.position y.position) submission.approvals ≡ none)
          × (state ≡ approved)
          × (next ≡ none))
      ⊎ ((d.approve ≡ false) × (verdict ≡ rejected) × (state ≡ returned) × (next ≡ none))
  pub decided :
      db'.submissions
      ≡ map {A = ExpenseSubmission} {B = ExpenseSubmission}
          (λ s. record s {
            approvals =
                update_where
                  (λ x. x.id == current.id)
                  (λ x. record x {
                    decision = verdict;
                    reason = d.reason;
                    decided_at = some rt.now;
                  })
                  s.approvals;
          })
          db.submissions
  pub changed :
      db'.expenses
      ≡ update_where
          (λ r. r.id == id)
          (λ r. record r { state = state; current_approver_id = next; version = r.version + 1 })
          db.expenses

outcome_of :
    (d : DecisionDto) (o : Option ExpenseApproval)
    → ((d.approve ≡ true)
        × (verdict_of d ≡ accepted)
        × (x : ExpenseApproval) × (o ≡ some x)
        × (next_state d o ≡ in_review)
        × (next_approver d o ≡ some x.user_id))
      ⊎ ((d.approve ≡ true)
          × (verdict_of d ≡ accepted)
          × (o ≡ none)
          × (next_state d o ≡ approved)
          × (next_approver d o ≡ none))
      ⊎ ((d.approve ≡ false)
          × (verdict_of d ≡ rejected)
          × (next_state d o ≡ returned)
          × (next_approver d o ≡ none))
outcome_of d (some x) = elim (Bool-cases d.approve) [
  | inl e ↦ inl (e, rw e refl, x, refl, rw e refl, rw e refl)
  | inr e ↦ inr (inr (e, rw e refl, rw e refl, rw e refl))
]
outcome_of d none = elim (Bool-cases d.approve) [
  | inl e ↦ inr (inl (e, rw e refl, refl, rw e refl, refl))
  | inr e ↦ inr (inr (e, rw e refl, rw e refl, refl))
]

Reviewed-Moved :
    (rt : Runtime) (a : Actor) (id : ℕ) (d : DecisionDto) (db db' : Db)
    (r : Reviewed rt a id d db db')
    → Moved rt id d r.current r.submission db db'
Reviewed-Moved rt a id d db db' r = record {
  verdict = verdict_of d;
  state = next_state d (following r.current r.submission);
  next = next_approver d (following r.current r.submission);
  outcome = outcome_of d (following r.current r.submission);
  decided = r.submissions;
  changed = r.expenses;
}

-- A decision that succeeds comes from a member with the permission to approve expenses, on a request in
-- review at the version named that another has made, whose current approver he is, and whose first
-- pending approval of the round is his; for an approval the church only warns or the budget line has room.
-- It records that approval as accepted or rejected with the reason and the time; an acceptance hands the
-- request to the approver at a later position, if there is one, and otherwise makes it approved, and a
-- rejection returns it. It touches neither payments nor journals.
pub decide-Reviewed :
    (rt : Runtime) (a : Actor) (c id : ℕ) (d : DecisionDto) (db : Db)
    {x : ℕ × Option ExpenseBudgetStatus} {db' : Db}
    → decide rt a c id d db ≡ (Result.ok x, db')
    → (a.church_id ≡ c)
      × (has a "expense.approve" ≡ true)
      × (r : Reviewed rt a id d db db') × Moved rt id d r.current r.submission db db'
unfolding decide
decide-Reviewed rt a c id d db h =
    let (member, permission, _, done) = write_ok rt a c _ (decide_tx rt a id d) true db h in
    let r = decide_tx-Reviewed rt a id d db done in
    (member, permission, r, Reviewed-Moved rt a id d db _ r)
