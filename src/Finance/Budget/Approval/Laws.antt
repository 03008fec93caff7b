-- ===== src/Finance/Budget/Approval/Laws.antt =====
-- budget.service.ts (save) and budget-approval.service.ts (decide): what a request and a decision
-- have found and written, and who may decide.
use church_management.Base.{
  ℕ, ◌≡◌, ◌≢◌, ◌⊎◌, inl, inr, Bool-cases, sym, true, false, not, ◌&&◌, none, some, is_some, any,
  ◌==◌, if◌then◌else◌, arith, eq_of_==, ==-self,
}
use church_management.Runtime.{Runtime}
use church_management.Store.{Db}
use church_management.Store.People.{AuditEvent}
use church_management.Store.Budgeting.{BudgetLine, BudgetChange}
use church_management.Tx.{Result, ok, Tx, ◌>>=◌}
use church_management.Tx.Laws.{
  bind_ok, find_row_ok, throw_if_ok, throw_if_found_ok, gets_ok, modify_ok, pure_ok, pure_then,
}
use church_management.Identity.{Actor, has, add_audit}
use church_management.Identity.Laws.{check_ok, record_audit_ok}
use church_management.Finance.Policy.Laws.{write_ok}
use church_management.Finance.Budget.Control.{latest_revision}
use church_management.Finance.Budget.Approval.{
  BudgetRevisionDto, DecisionDto, DecisionResult, line, dto_line, same_amount, is_undecided,
  add_change, new_change, version_of, save_tx, is_cancel, is_approval, change_of, wrong_person,
  set_decision, new_decision, add_revision, new_revision, decide_tx, decide,
}

line_ok :
    {B : Type 0} (db : Db) {r : B × Db} (c : ℕ) (d : BudgetRevisionDto) (f : BudgetLine → Tx B)
    → (line c d >>= f) db ≡ ok r
    → f (dto_line c d) db ≡ ok r
unfolding line
line_ok db c d f h =
    let (l, db', e, k) = bind_ok (line c d) f h in
    let (_, e₁) = throw_if_found_ok _ _ _ e in pure_then f e₁ k

equal_of_not : (v w : ℕ) → not (v == w) ≡ false → v ≡ w
equal_of_not v w h = ground arith

module _ (rt : Runtime) (a : Actor) (c : ℕ) (db : Db) where
  pub save_tx_ok :
      (d : BudgetRevisionDto) {x : ℕ} {db' : Db}
      → save_tx rt a c d db ≡ ok (x, db')
      → (version_of (latest_revision (dto_line c d) db) ≡ d.version)
        × (same_amount (latest_revision (dto_line c d) db) d.amount ≡ false)
        × (any (is_undecided (dto_line c d)) db.budget_changes ≡ false)
        × (event : AuditEvent) × (db'
            ≡ add_audit event (add_change (new_change rt a (dto_line c d) d) db))
  unfolding save_tx
  save_tx_ok d h =
      let (_, _, e₁) = check_ok a c _ _ h in
      let (current, e₅) = throw_if_ok _ _ _ (gets_ok _ _ (line_ok db c d _ e₁)) in
      let (differs, e₆) = throw_if_ok _ _ _ e₅ in
      let (alone, e₇) = throw_if_found_ok _ _ _ e₆ in
      let (_, same) = pure_ok (record_audit_ok _ _ _ _ _ _ _ (modify_ok _ _ e₇)) in
      (equal_of_not _ _ current, differs, alone, _, sym same)

  pub decide_tx_ok :
      (id : ℕ) (d : DecisionDto) {x : DecisionResult} {db' : Db}
      → decide_tx rt a c id d db ≡ ok (x, db')
      → (y : BudgetChange) × (change_of c id db ≡ some y)
        × (wrong_person d y a ≡ false)
        × (is_some y.decision ≡ false)
        × ((is_approval d && not (version_of (latest_revision y.line db) == y.base_version))
            ≡ false)
        × (event : AuditEvent) × (db'
            ≡ add_audit event (
                if is_approval d
                then add_revision (new_revision rt y) (set_decision id (new_decision a d) db)
                else set_decision id (new_decision a d) db))
  unfolding decide_tx
  decide_tx_ok id d h =
      let (_, _, e₁) = check_ok a c _ _ h in
      let (y, found, e₂) = find_row_ok _ _ _ e₁ in
      let (person, e₃) = throw_if_ok _ _ _ e₂ in
      let (undecided, e₄) = throw_if_ok _ _ _ e₃ in
      let (current, e₅) = throw_if_ok _ _ _ (gets_ok _ _ e₄) in
      let (_, same) = pure_ok (record_audit_ok _ _ _ _ _ _ _ (modify_ok _ _ (modify_ok _ _ e₅))) in
      (y, found, person, undecided, current, _, sym same)

-- Who stands behind a decision that was accepted.
pub record DecidedBy (a : Actor) (c : ℕ) (d : DecisionDto) (x : BudgetChange) : Type 0 where
  pub member : a.church_id ≡ c
  pub permission : has a (if is_cancel d then "budget.write" else "budget.approve") ≡ true
  pub was_open : x.decision ≡ none
  pub right_person :
      ((is_cancel d ≡ true) × (x.requested_by ≡ a.user_id))
      ⊎ ((is_cancel d ≡ false) × (x.requested_by ≢ a.user_id))

right_person_of :
    (d : DecisionDto) (x : BudgetChange) (a : Actor)
    → wrong_person d x a ≡ false
    → ((is_cancel d ≡ true) × (x.requested_by ≡ a.user_id))
      ⊎ ((is_cancel d ≡ false) × (x.requested_by ≢ a.user_id))
right_person_of d x a h = elim (Bool-cases (is_cancel d)) [
  | inl k ↦ inl (k, eq_of_== _ _ (ground (arith, h)))
  | inr k ↦ inr (k, λ e. ground (arith, h, ==-self a.user_id))
]

-- A decision that is accepted is on an undecided change of the caller's church. A cancellation comes
-- from the one who asked for the change, with the permission to write budgets; an approval or a
-- rejection comes from someone else, with the permission to approve them.
pub decide-DecidedBy :
    (rt : Runtime) (a : Actor) (c id : ℕ) (d : DecisionDto) (db : Db) {x : DecisionResult}
    {db' : Db}
    → decide rt a c id d db ≡ (Result.ok x, db')
    → (y : BudgetChange) × (change_of c id db ≡ some y) × DecidedBy a c d y
unfolding decide
decide-DecidedBy rt a c id d db h =
    let (member, permission, _, done) = write_ok rt a c _ (decide_tx rt a c id d) true db h in
    let (y, found, person, undecided, _, _, _) = decide_tx_ok rt a c db id d done in
    (
      y,
      found,
      record {
        member = member;
        permission = permission;
        was_open = ground arith;
        right_person = right_person_of d y a person;
      },
    )
