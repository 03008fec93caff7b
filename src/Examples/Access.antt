-- ===== src/Examples/Access.antt =====
-- Runs of access.guard.ts, domain/policy.ts and budget-amounts.ts.
use church_management.Base.{String, ◌≡◌, refl, true, false, some, pos}
use church_management.Base.{[], ◌∷◌, ◌↔◌}
use church_management.Finance.Policy.{valid_approval_line}
use church_management.Finance.Policy.Line.{IsLine, valid_approval_line-IsLine}
use church_management.Identity.Guard.{Env, Route, Admitted, can_activate, can_activate-Admitted}
use church_management.Finance.Budget.Amounts.{budget_amounts, IsRate, budget_amounts-IsRate}
use church_management.Examples.Church.{run, approver, start}

abbrev live : Env
live = record { production = true; test_header = false }

abbrev route : Route
route = record {
  is_public = false;
  permission = some "expense.approve";
  path = "/api/v1/expenses";
  route_path = some "/expenses";
  church_id = some 9;
}

can_activate-Admitted_example :
    Admitted live route (some approver) (some approver)
    × ((can_activate live route (some approver) start).1 ≡ start)
unfolding run can_activate
can_activate-Admitted_example = can_activate-Admitted live route (some approver) start refl refl

budget_amounts-IsRate_example :
    (text : String) × ((budget_amounts (some (pos 3)) (pos 2)).execution_rate ≡ some text)
    × IsRate 3 (pos 2) text
budget_amounts-IsRate_example = budget_amounts-IsRate 2 (pos 2)

-- Two of three are 66.66 percent.
two_of_three : (budget_amounts (some (pos 3)) (pos 2)).execution_rate ≡ some "66.66"
unfolding run budget_amounts
two_of_three = refl

valid_approval_line-IsLine_example :
    (valid_approval_line (2 ∷ 3 ∷ []) 1 ≡ true) ↔ IsLine (2 ∷ 3 ∷ []) 1
valid_approval_line-IsLine_example = valid_approval_line-IsLine (2 ∷ 3 ∷ []) 1
