-- ===== src/Examples/Calls.antt =====
-- Runs of sequences of calls: a payment, and then the close of the period.
use church_management.Base.{ℕ, ◌≡◌, ◌≢◌, refl, [], ◌∷◌, true, arith}
use church_management.Identity.{Actor}
use church_management.Store.{Db}
use church_management.Store.Spending.{approved}
use church_management.Tx.{Error}
use church_management.Finance.Policy.Laws.{denial}
use church_management.Finance.Policy.Refusals.{Refused, write-Refused}
use church_management.Finance.Expense.Payment.{pay, pay_tx}
use church_management.Finance.Routes.{FinanceOp, perform_finance}
use church_management.System.Invariant.{core, AllSound}
use church_management.System.Steps.{Op, Fresh, perform, call, Reach, here, next}
use church_management.System.Safety.{Reach-AllSound}
use church_management.System.Trail.{Grown}
use church_management.System.Trail.Operations.{Reach-Grown}
use church_management.System.Authority.{perform_refused}
use church_management.Examples.Church.{run, rt, person, approver, treasurer}
use church_management.Examples.Spending.{payable, payment, alone}

payable-AllSound : AllSound (core payable)
payable-AllSound = (
  record { balanced = tt; once = tt },
  (tt, tt),
  (tt, tt),
  tt,
  alone approved 1 3 refl,
  record { unique = tt; honest = tt },
  tt,
  tt,
)

free_id : ◌≢◌ {A = ℕ} 41 100
free_id e = omega (arith, e)

abbrev payment_call : Op
payment_call = Op.finance (FinanceOp.expense_pay 41 payment)

abbrev close_call : Op
close_call = Op.finance (FinanceOp.period_close 31)

abbrev paid_state : Db
paid_state = perform rt treasurer 9 payment_call payable

abbrev closed_state : Db
closed_state = perform rt treasurer 9 close_call paid_state

paid_state-Fresh : Fresh rt paid_state
unfolding run perform perform_finance pay
paid_state-Fresh = record { expense = (free_id, tt); offering = tt }

closed_state-Reach : Reach payable closed_state
closed_state-Reach =
    next
      (next here (
        call rt treasurer 9 payment_call payable
          (record { expense = (free_id, tt); offering = tt })))
      (call rt treasurer 9 close_call paid_state paid_state-Fresh)

Reach-AllSound_example : AllSound (core closed_state)
Reach-AllSound_example = Reach-AllSound payable-AllSound closed_state-Reach

Reach-Grown_example : Grown payable closed_state
Reach-Grown_example = Reach-Grown closed_state-Reach

-- The approver may not pay.
perform_refused_example : perform rt approver 9 payment_call payable ≡ payable
perform_refused_example = perform_refused rt approver 9 payment_call payable refl

abbrev paying_approver : Actor
paying_approver = person 2 ("expense.pay" ∷ "finance.readall" ∷ [])

-- An approver of the request who may pay others asks for its payment.
write-Refused_example :
    Refused rt paying_approver 9 "expense.pay"
      (pay_tx rt paying_approver 9 41 payment)
      true
      payable
      Error.denied
      (denial paying_approver payable)
unfolding run pay_tx
write-Refused_example =
    write-Refused rt paying_approver 9 "expense.pay" (pay_tx rt paying_approver 9 41 payment) true
      payable {e = Error.denied} refl
