-- ===== src/Examples/Spending.antt =====
-- Runs of expense.service.ts: a request is submitted, approved and paid.
use church_management.Base.{ℕ, ◌≡◌, refl, [], ◌∷◌, true, none, some}
use church_management.Identity.{has}
use church_management.Store.{Db}
use church_management.Store.Spending.{
  draft, in_review, approved, pending, accepted, ExpenseState, ExpenseRequest, Verdict,
  ExpenseSubmission,
}
use church_management.Finance.Expense.Review.{DecisionDto, submit, decide}
use church_management.Finance.Expense.Review.Submission.{Copied, submit-Submitted}
use church_management.Finance.Expense.Review.Decision.{Moved, decide-Reviewed}
use church_management.Finance.Expense.Review.Laws.{Submitted, Reviewed}
use church_management.Finance.Expense.Payment.{PaymentDto, pay}
use church_management.Finance.Expense.Payment.Laws.{Settled, pay-Settled}
use church_management.Base.{◌≢◌, arith}
use church_management.Finance.Expense.Request.{ExpenseDto}
use church_management.Finance.Expense.Custody.{IsProper, IsAccounted}
use church_management.Finance.Expense.Custody.Operations.{pay-IsAccounted}
use church_management.Examples.Church.{run, rt, member, approver, treasurer, start}

abbrev pub request : ExpenseState → ℕ → ℕ → ExpenseRequest
request state round version = record {
  id = 41;
  church_id = 9;
  requester_id = 1;
  budget_year = some 2025;
  title = "Chairs";
  purpose = "Hall";
  payee = "Shop";
  amount = 5000;
  account_id = 12;
  fund_id = 21;
  evidence_reference = "receipt 7";
  approver_ids = 2 ∷ [];
  current_approver_id = some 2;
  state = state;
  round = round;
  version = version;
}

abbrev submission : Verdict → ExpenseSubmission
submission verdict = record {
  id = 61;
  church_id = 9;
  request_id = 41;
  round = 1;
  budget_year = some 2025;
  title = "Chairs";
  purpose = "Hall";
  payee = "Shop";
  amount = 5000;
  account_id = 12;
  fund_id = 21;
  evidence_reference = "receipt 7";
  approvals =
      record {
        id = 71;
        position = 1;
        user_id = 2;
        username = "kim";
        decision = verdict;
        reason = "";
        decided_at = none;
      }
      ∷ [];
}

abbrev drafted : Db
drafted = record start { expenses = request draft 0 1 ∷ [] }

abbrev reviewing : Db
reviewing = record start {
  expenses = request in_review 1 2 ∷ [];
  submissions = submission pending ∷ [];
}

abbrev pub payable : Db
payable = record start {
  expenses = request approved 1 3 ∷ [];
  submissions = submission accepted ∷ [];
}

abbrev approval : DecisionDto
approval = record { approve = true; reason = "fine"; version = 2 }

abbrev pub payment : PaymentDto
payment = record {
  version = 3;
  paid_on = "2025-03-01";
  account_id = 11;
  method = "transfer";
  reference = " T-1 ";
}

submit-Submitted_example :
    (member.church_id ≡ 9)
    × (has member "expense.write" ≡ true)
    × (s : Submitted rt member 9 41 1 drafted (submit rt member 9 41 1 drafted).1) × Copied rt 9 41
        s.row drafted
        (submit rt member 9 41 1 drafted).1
unfolding run submit
submit-Submitted_example = submit-Submitted rt member 9 41 1 drafted refl

decide-Reviewed_example :
    (approver.church_id ≡ 9)
    × (has approver "expense.approve" ≡ true)
    × (r : Reviewed rt approver 41 approval reviewing
        (decide rt approver 9 41 approval reviewing).1)
    × Moved rt 41 approval r.current r.submission reviewing
        (decide rt approver 9 41 approval reviewing).1
unfolding run decide
decide-Reviewed_example = decide-Reviewed rt approver 9 41 approval reviewing refl

pay-Settled_example :
    (treasurer.church_id ≡ 9)
    × (has treasurer "expense.pay" ≡ true)
    × Settled rt treasurer 9 41 payment payable (pay rt treasurer 9 41 payment payable).1
unfolding run pay
pay-Settled_example = pay-Settled rt treasurer 9 41 payment payable refl

abbrev wish : ExpenseDto
wish = record {
  budget_year = 2025;
  title = "Tables";
  purpose = "Hall";
  payee = "Shop";
  amount = 4000;
  account_id = 12;
  fund_id = 21;
  evidence_reference = "";
  approver_ids = 2 ∷ [];
}

pub alone :
    (state : ExpenseState) (round version : ℕ)
    → IsProper [] (request state round version)
    → IsAccounted (request state round version ∷ []) []
alone state round version h = record { unique = (tt, tt); proper = (h, tt) }

free_id : ◌≢◌ {A = ℕ} 41 100
free_id e = omega (arith, e)

pay-IsAccounted_example :
    IsAccounted
      (pay rt treasurer 9 41 payment payable).1.expenses
      (pay rt treasurer 9 41 payment payable).1.payments
pay-IsAccounted_example =
    pay-IsAccounted rt treasurer 9 payable (alone approved 1 3 refl) 41 payment
