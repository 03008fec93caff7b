-- ===== src/Finance/Budget/Approval/Versions.antt =====
-- budget.service.ts (save) and budget-approval.service.ts (decide): the revisions of a budget line are
-- numbered upwards, at most one change of a line is undecided, and an approval takes effect.
use church_management.Base.{
  ℕ, ◌+◌, ◌<◌, ◌≡◌, refl, inl, inr, String, true, false, not, ◌&&◌, some, is_none, ◌==◌, arith, All,
  All-weaken, All-any-false, Pairwise, Pairwise-concat, Pairwise-update_where, latest-select-All,
  latest-select_concat, Bool-cases,
}
use church_management.Runtime.{Runtime}
use church_management.Store.{Db}
use church_management.Store.Budgeting.{BudgetLine, BudgetRevision, BudgetDecision, BudgetChange}
use church_management.Tx.{Result, ok}
use church_management.Identity.{Actor}
use church_management.Finance.Policy.Laws.{write_ok, write_keeps}
use church_management.Finance.Budget.Control.{line_eq, latest_revision}
use church_management.Finance.Budget.Approval.{
  BudgetRevisionDto, DecisionDto, DecisionResult, dto_line, new_change, save_tx, save, is_undecided,
  version_of, is_approval, new_decision, new_revision, decide_tx, decide, change_of,
}
use church_management.Finance.Budget.Approval.Laws.{save_tx_ok, decide_tx_ok}

-- A later revision of the same line has a greater version.
abbrev pub Rising : BudgetRevision → BudgetRevision → Type 0
Rising r s = line_eq r.line s.line ≡ true → r.version < s.version

-- Two changes of the same line are not both undecided.
abbrev pub OnePending : BudgetChange → BudgetChange → Type 0
OnePending x y =
    line_eq x.line y.line ≡ true → is_none x.decision ≡ true → is_none y.decision ≡ false

pub line_eq_self : (l : BudgetLine) → line_eq l l ≡ true
line_eq_self l = ground arith

-- The revision of an approval is above every earlier one of its line.
new_revision-above :
    (rt : Runtime) (y : BudgetChange) (db : Db)
    → version_of (latest_revision y.line db) ≡ y.base_version
    → All (λ r. Rising r (new_revision rt y)) db.budget_revisions
new_revision-above rt y db current =
    All-weaken (λ r below same. ground (arith, below same)) db.budget_revisions
      (latest-select-All (λ r. r.version) (λ r. line_eq r.line y.line) db.budget_revisions)

current-version :
    (d : DecisionDto) (v w : ℕ)
    → (is_approval d && not (v == w)) ≡ false
    → is_approval d ≡ true
    → v ≡ w
current-version d v w h k = ground arith

-- A decision keeps the versions of every line rising, whether it is accepted or refused.
pub decide-Rising :
    (rt : Runtime) (a : Actor) (c id : ℕ) (d : DecisionDto) (db : Db)
    → Pairwise Rising db.budget_revisions
    → Pairwise Rising (decide rt a c id d db).1.budget_revisions
unfolding decide
decide-Rising rt a c id d db h =
    write_keeps rt a c _ (decide_tx rt a c id d) true (λ x. Pairwise Rising x.budget_revisions) db
      (λ _ k. k) kept h
  where
    kept :
        (x : DecisionResult) (db' : Db)
        → decide_tx rt a c id d db ≡ ok (x, db')
        → Pairwise Rising db'.budget_revisions
    kept x db' done =
        let (y, _, _, _, current, event, same) = decide_tx_ok rt a c db id d done in
        rw same (elim (Bool-cases (is_approval d)) [
          | inl yes_ ↦ rw yes_ (
              Pairwise-concat Rising db.budget_revisions (new_revision rt y) h
                (new_revision-above rt y db (current-version d _ _ current yes_)))
          | inr no_ ↦ rw no_ h
        ])

-- An approval that is accepted is the line's budget from then on: its latest revision has the amount and
-- the reason that were asked for, the request's id and author, and the version after the one that the
-- request was based on, which was the latest until then.
pub decide_takes_effect :
    (rt : Runtime) (a : Actor) (c id : ℕ) (reason : String) (db : Db) {x : DecisionResult}
    {db' : Db}
    → decide rt a c id (DecisionDto.approves reason) db ≡ (Result.ok x, db')
    → (y : BudgetChange) × (change_of c id db ≡ some y)
      × (version_of (latest_revision y.line db) ≡ y.base_version)
      × (latest_revision y.line db'
          ≡ some (record {
            id = rt.new_id 0;
            line = y.line;
            change_id = some y.id;
            version = y.base_version + 1;
            amount = y.amount;
            reason = y.reason;
            created_by = y.requested_by;
          }))
unfolding decide
decide_takes_effect rt a c id reason db h =
    let d = DecisionDto.approves reason in
    let (_, _, _, done) = write_ok rt a c _ (decide_tx rt a c id d) true db h in
    let (y, found, _, _, current, event, same) = decide_tx_ok rt a c db id d done in
    let based = current-version d _ _ current refl in
    (
      y,
      found,
      based,
      rw same (
          latest-select_concat (λ r. r.version) (λ r. line_eq r.line y.line) db.budget_revisions
            (new_revision rt y) (line_eq_self y.line) (new_revision-above rt y db based)),
    )

-- A request keeps at most one undecided change for each line.
pub save-OnePending :
    (rt : Runtime) (a : Actor) (c : ℕ) (d : BudgetRevisionDto) (db : Db)
    → Pairwise OnePending db.budget_changes
    → Pairwise OnePending (save rt a c d db).1.budget_changes
unfolding save
save-OnePending rt a c d db h =
    write_keeps rt a c _ (save_tx rt a c d) true (λ x. Pairwise OnePending x.budget_changes) db
      (λ _ k. k) kept h
  where
    kept :
        (x : ℕ) (db' : Db)
        → save_tx rt a c d db ≡ ok (x, db')
        → Pairwise OnePending db'.budget_changes
    kept x db' done =
        let (_, _, alone, event, same) = save_tx_ok rt a c db d done in
        rw same (
          Pairwise-concat OnePending db.budget_changes (new_change rt a (dto_line c d) d) h (
            All-weaken (λ y free e k. ground arith) db.budget_changes
              (All-any-false (is_undecided (dto_line c d)) db.budget_changes alone)))

-- A decision keeps at most one undecided change for each line.
pub decide-OnePending :
    (rt : Runtime) (a : Actor) (c id : ℕ) (d : DecisionDto) (db : Db)
    → Pairwise OnePending db.budget_changes
    → Pairwise OnePending (decide rt a c id d db).1.budget_changes
unfolding decide
decide-OnePending rt a c id d db h =
    write_keeps rt a c _ (decide_tx rt a c id d) true (λ x. Pairwise OnePending x.budget_changes) db
      (λ _ k. k) kept h
  where
    v : BudgetDecision
    v = new_decision a d

    kept :
        (x : DecisionResult) (db' : Db)
        → decide_tx rt a c id d db ≡ ok (x, db')
        → Pairwise OnePending db'.budget_changes
    kept x db' done =
        let (y, _, _, _, _, event, same) = decide_tx_ok rt a c db id d done in
        let updated =
          Pairwise-update_where OnePending (λ x. x.id == id) (λ x. record x { decision = some v })
            db.budget_changes (λ _ _ r _ k. cc) (λ _ _ r _ _. refl) h in
        rw same (elim (Bool-cases (is_approval d)) [
          | inl yes_ ↦ rw yes_ updated
          | inr no_ ↦ rw no_ updated
        ])
