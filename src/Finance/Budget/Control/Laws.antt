-- ===== src/Finance/Budget/Control/Laws.antt =====
-- budget-control.service.ts: what the check of a request against its budget line guarantees.
use church_management.Base.{
  ℕ, ◌≡◌, ◌∙◌, ◌⊎◌, refl, sym, ap, inl, inr, join, true, false, not, ◌&&◌, some, Option-cases,
  if◌then◌else◌, ℤ, pos, ◌≤ℤ◌, ltb_ℤ, decimal, arith,
}
use church_management.Runtime.{Runtime}
use church_management.Store.{Db}
use church_management.Store.People.{AuditEvent}
use church_management.Store.Spending.{ExpenseRequest}
use church_management.Store.Budgeting.{
  Mode, warn, block, mode_eq, BudgetRevision, BudgetStatus, within, exceeded, is_within,
  CheckAction,
}
use church_management.Tx.{ok, Tx, pure, ◌>>=◌}
use church_management.Tx.Laws.{
  bind_ok, gets_ok, throw_if_ok, modify_ok, pure_ok, pure_then, bind-pure, read_ok,
}
use church_management.Identity.{Actor, add_audit}
use church_management.Identity.Laws.{record_audit_ok}
use church_management.Finance.Policy.Laws.{date_ok}
use church_management.Finance.Budget.Control.{
  BudgetControlPolicy, ExpenseBudgetStatus, policy, latest_revision, line_of, total, status_with,
  evaluate_line, evaluate, enforce, add_check, new_check,
}

-- The request's line has a budget, and what is booked on it, what others hold of it and the request
-- together do not exceed the latest revision.
pub record FitsBudget (rt : Runtime) (row : ExpenseRequest) (db : Db) : Type 0 where
  pub year : ℕ
  pub revision : BudgetRevision
  pub from : ℕ
  pub to : ℕ
  pub for_year : row.budget_year ≡ some year
  pub budgeted : latest_revision (line_of row year) db ≡ some revision
  pub starts : rt.parse_date (join (decimal year) "-01-01") ≡ some from
  pub ends : rt.parse_date (join (decimal year) "-12-31") ≡ some to
  pub fits : total row year from to db ≤ℤ pos revision.amount

module _ (rt : Runtime) (row : ExpenseRequest) (db : Db) {x : ExpenseBudgetStatus} {db' : Db} where
  evaluate_line_ok :
      (p : BudgetControlPolicy) (year : ℕ) (revision : BudgetRevision)
      → evaluate_line rt p row year revision db ≡ ok (x, db')
      → (from : ℕ) × (to : ℕ) × (rt.parse_date (join (decimal year) "-01-01") ≡ some from)
        × (rt.parse_date (join (decimal year) "-12-31") ≡ some to)
        × (status_with p
              (some year)
              revision.version
              (if ltb_ℤ (pos revision.amount) (total row year from to db) then exceeded else within)
            ≡ x)
        × (db ≡ db')
  unfolding evaluate_line
  evaluate_line_ok p year revision h =
      let (from, starts, _, e₁) = date_ok db rt _ _ h in
      let (to, ends, _, e₂) = date_ok db rt _ _ e₁ in
      let (same, same_db) = pure_ok (gets_ok _ _ e₂) in (from, to, starts, ends, same, same_db)

  -- The evaluation reads only, and reports the mode of the church's policy.
  pub evaluate_reads :
      evaluate rt row db ≡ ok (x, db') → (db ≡ db') × (x.mode ≡ (policy row.church_id db).mode)
  unfolding evaluate pure
  evaluate_reads h = elim (Option-cases row.budget_year) [
    | inl no_year ↦ ground arith
    | inr (year, e) ↦ elim (Option-cases (latest_revision (line_of row year) db)) [
      | inl no_budget ↦ ground arith
      | inr (revision, found) ↦
          let (_, _, _, _, same, same_db) =
            evaluate_line_ok (policy row.church_id db) year revision (ground arith) in
          (same_db, sym (ap (λ (s : ExpenseBudgetStatus). s.mode) same))
    ]
  ]

  pub evaluate-within : evaluate rt row db ≡ ok (x, db') → x.status ≡ within → FitsBudget rt row db
  unfolding evaluate pure
  evaluate-within h w = elim (Option-cases row.budget_year) [
    | inl no_year ↦ absurd (ground arith)
    | inr (year, e) ↦ elim (Option-cases (latest_revision (line_of row year) db)) [
      | inl no_budget ↦ absurd (ground arith)
      | inr (revision, found) ↦
          let (from, to, starts, ends, same, same_db) =
            evaluate_line_ok (policy row.church_id db) year revision (ground arith) in
          record {
            year = year;
            revision = revision;
            from = from;
            to = to;
            for_year = e;
            budgeted = found;
            starts = starts;
            ends = ends;
            fits =
                fits_of (total row year from to db) (pos revision.amount)
                  (ap (λ (s : ExpenseBudgetStatus). s.status) same ∙ w);
          }
    ]
  ]
    where
      fits_of :
          (sum limit : ℤ) → (if ltb_ℤ limit sum then exceeded else within) ≡ within → sum ≤ℤ limit
      fits_of sum limit k = ground arith

is_within-within : (s : BudgetStatus) → is_within s ≡ true → s ≡ within
is_within-within s h = ground arith

module _ {B : Type 0} (db : Db) {r : B × Db} (rt : Runtime) (a : Actor) (row : ExpenseRequest) where
  -- A check that ends writes one check row and one audit event, and nothing else.
  pub enforce_ok :
      (action : CheckAction) (f : ExpenseBudgetStatus → Tx B)
      → (enforce rt a row action >>= f) db ≡ ok r
      → (result : ExpenseBudgetStatus) × (event : AuditEvent) × (evaluate rt row db
          ≡ ok (result, db))
        × ((mode_eq result.mode block && not (is_within result.status)) ≡ false)
        × (f result (add_audit event (add_check (new_check a row action result) db)) ≡ ok r)
  unfolding enforce
  enforce_ok action f h =
      let (x, db₁, e, k) = bind_ok (enforce rt a row action) f h in
      let (result, found, e₁) =
        read_ok (evaluate rt row) _ (λ _ _ g. (evaluate_reads rt row db g).0) e in
      let (passed, e₂) = throw_if_ok _ _ _ e₁ in
      (result, _, found, passed, pure_then f (record_audit_ok _ _ _ _ _ _ _ (modify_ok _ _ e₂)) k)

-- An evaluation that `enforce` lets pass in the blocking mode.
pub evaluate-FitsBudget :
    (rt : Runtime) (row : ExpenseRequest) (db : Db) {result : ExpenseBudgetStatus} {db' : Db}
    → (policy row.church_id db).mode ≡ block
    → evaluate rt row db ≡ ok (result, db')
    → (mode_eq result.mode block && not (is_within result.status)) ≡ false
    → FitsBudget rt row db
evaluate-FitsBudget rt row db {result} blocks found passed =
    let (_, mode) = evaluate_reads rt row db found in
    evaluate-within rt row db found (is_within-within result.status (ground arith))

-- The church only warns, or the request fits the budget line.
abbrev pub Controlled : Runtime → ExpenseRequest → Db → Type 0
Controlled rt row db = ((policy row.church_id db).mode ≡ warn) ⊎ FitsBudget rt row db

mode_cases : (m : Mode) → (m ≡ warn) ⊎ (m ≡ block)
mode_cases warn = inl refl
mode_cases block = inr refl

-- An evaluation that `enforce` lets pass.
pub evaluate-Controlled :
    (rt : Runtime) (row : ExpenseRequest) (db : Db) {result : ExpenseBudgetStatus} {db' : Db}
    → evaluate rt row db ≡ ok (result, db')
    → (mode_eq result.mode block && not (is_within result.status)) ≡ false
    → Controlled rt row db
evaluate-Controlled rt row db found passed = elim (mode_cases (policy row.church_id db).mode) [
  | inl warns ↦ inl warns
  | inr blocks ↦ inr (evaluate-FitsBudget rt row db blocks found passed)
]

-- While the church blocks overspending, a request passes the check only if its line has a budget and
-- the line's bookings, reservations and the request stay within it.
pub enforce-FitsBudget :
    (rt : Runtime) (a : Actor) (row : ExpenseRequest) (action : CheckAction) (db : Db)
    {result : ExpenseBudgetStatus} {db' : Db}
    → (policy row.church_id db).mode ≡ block
    → enforce rt a row action db ≡ ok (result, db')
    → FitsBudget rt row db
enforce-FitsBudget rt a row action db blocks h =
    let (result, _, found, passed, _) = enforce_ok db rt a row action pure (bind-pure _ h) in
    evaluate-FitsBudget rt row db blocks found passed
