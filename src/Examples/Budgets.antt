-- ===== src/Examples/Budgets.antt =====
-- Runs of budget.service.ts, budget-approval.service.ts and budget-control.service.ts.
use church_management.Base.{◌≡◌, refl, [], ◌∷◌, none, some, Pairwise}
use church_management.Store.{Db}
use church_management.Store.Spending.{in_review}
use church_management.Store.Budgeting.{BudgetChange, CheckAction}
use church_management.Finance.Budget.Control.{latest_revision}
use church_management.Finance.Budget.Control.Laws.{FitsBudget, enforce-FitsBudget}
use church_management.Finance.Budget.Approval.{
  BudgetRevisionDto, DecisionDto, save, decide, change_of, version_of, new_revision,
}
use church_management.Finance.Budget.Approval.Laws.{DecidedBy, decide-DecidedBy}
use church_management.Finance.Budget.Approval.Versions.{
  Rising, OnePending, decide-Rising, decide_takes_effect, save-OnePending,
}
use church_management.Examples.Church.{run, rt, member, approver, budget_line, start}
use church_management.Examples.Spending.{request}

abbrev wish : BudgetRevisionDto
wish = record {
  year = 2025;
  account_id = 12;
  fund_id = 21;
  version = 1;
  amount = 20000;
  reason = "more chairs";
}

abbrev change : BudgetChange
change = record {
  id = 91;
  line = budget_line;
  base_version = 1;
  amount = 20000;
  reason = "more chairs";
  requested_by = 1;
  decision = none;
}

abbrev asked : Db
asked = record start { budget_changes = change ∷ [] }

abbrev yes : DecisionDto
yes = DecisionDto.approves "agreed"

enforce-FitsBudget_example : FitsBudget rt (request in_review 1 2) start
unfolding run
enforce-FitsBudget_example =
    enforce-FitsBudget rt approver (request in_review 1 2) CheckAction.approve start refl refl

decide-DecidedBy_example :
    (y : BudgetChange) × (change_of 9 91 asked ≡ some y) × DecidedBy approver 9 yes y
unfolding run decide
decide-DecidedBy_example = decide-DecidedBy rt approver 9 91 yes asked refl

decide-Rising_example : Pairwise Rising (decide rt approver 9 91 yes asked).1.budget_revisions
decide-Rising_example = decide-Rising rt approver 9 91 yes asked (tt, tt)

decide_takes_effect_example :
    (y : BudgetChange) × (change_of 9 91 asked ≡ some y)
    × (version_of (latest_revision y.line asked) ≡ y.base_version)
    × (latest_revision y.line (decide rt approver 9 91 yes asked).1 ≡ some (new_revision rt y))
unfolding run decide
decide_takes_effect_example = decide_takes_effect rt approver 9 91 "agreed" asked refl

save-OnePending_example : Pairwise OnePending (save rt member 9 wish start).1.budget_changes
save-OnePending_example = save-OnePending rt member 9 wish start tt
