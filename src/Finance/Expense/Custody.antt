-- ===== src/Finance/Expense/Custody.antt =====
-- expense.service.ts: in every state that the operations reach, a request that is paid has a payment by
-- someone who is neither its requester nor one of its approvers.
pub mod Operations
use church_management.Base.{
  ℕ, ◌≡◌, ◌≢◌, refl, subst, sym, ap, String, List, [], ◌∷◌, ◌++◌, Bool, true, false, not, ◌&&◌,
  ◌||◌, Option, none, some, ◌==◌, ==-self, Bool-cases, inl, inr, any, update_where, All, All-weaken,
  All-concat, All-update_found, Pairwise-concat, Unique, Unique-update_where, arith,
}
use church_management.Runtime.{Runtime}
use church_management.Store.{Db}
use church_management.Store.Spending.{
  ExpenseState, draft, in_review, returned, approved, paid, cancelled, state_eq, ExpenseRequest,
  ExpensePayment, ExpenseApproval,
}
use church_management.Tx.{ok}
use church_management.Identity.{Actor}
use church_management.Finance.Policy.{can_pay}
use church_management.Finance.Policy.Laws.{write_keeps}
use church_management.Finance.Budget.Control.{ExpenseBudgetStatus}
use church_management.Finance.Expense.Request.{ExpenseDto, visible_row, is_editable}
use church_management.Finance.Expense.Request.Laws.{visible_row-facts}
use church_management.Finance.Expense.Drafts.{
  new_request, create, create_tx, edit, update, update_tx, cancelled_row, cancel, cancel_tx,
  touched, remove_attachment, remove_attachment_tx,
}
use church_management.Finance.Expense.Drafts.Laws.{
  Writes, replaced, create_tx_ok, update_tx_ok, cancel_tx_ok, remove_attachment_tx_ok,
}
use church_management.Finance.Expense.Review.{
  DecisionDto, submitted, submit, submit_tx, next_state, reviewed, following, decide, decide_tx,
}
use church_management.Finance.Expense.Review.Laws.{
  Submitted, submit_tx-Submitted, Reviewed, decide_tx-Reviewed,
}
use church_management.Finance.Expense.Payment.{PaymentDto, paid_row, new_payment, pay, pay_tx}
use church_management.Finance.Expense.Payment.Laws.{Settled, pay_tx-Settled}

-- A payment of the request by someone who may pay it.
abbrev pub pays : ExpenseRequest → ExpensePayment → Bool
pays r p = p.request_id == r.id && can_pay r.requester_id r.approver_ids p.paid_by

-- The request is not paid, or one of the payments is a proper one.
abbrev pub IsProper : List ExpensePayment → ExpenseRequest → Type 0
IsProper ps r = (not (state_eq r.state paid) || any (pays r) ps) ≡ true

-- The invariant of the requests and the payments.
pub record IsAccounted (rows : List ExpenseRequest) (ps : List ExpensePayment) : Type 0 where
  pub unique : Unique (λ (r : ExpenseRequest). r.id) rows
  pub proper : All (IsProper ps) rows

-- An operation that changes one request and keeps the payments keeps the invariant, if the new row is
-- proper.
pub changed-IsAccounted :
    (a : Actor) (id : ℕ) (f : ExpenseRequest → ExpenseRequest) (db : Db) (row : ExpenseRequest)
    (ps : List ExpensePayment)
    → visible_row a id db ≡ some row
    → ((r : ExpenseRequest) → (f r).id ≡ r.id)
    → IsProper ps (f row)
    → IsAccounted db.expenses ps
    → IsAccounted (replaced id f db) ps
changed-IsAccounted a id f db row ps found keep new h = record {
  unique = Unique-update_where (λ (r : ExpenseRequest). r.id) _ f db.expenses keep h.unique;
  proper =
      All-update_found (λ (r : ExpenseRequest). r.id) (IsProper ps) _ id f db.expenses h.unique
        found (visible_row-facts a id db row found).1 h.proper new;
}

pub unpaid-IsProper :
    (ps : List ExpensePayment) (r : ExpenseRequest) → state_eq r.state paid ≡ false → IsProper ps r
unpaid-IsProper ps r h = rw h refl

pub editable_unpaid : (s : ExpenseState) → is_editable s ≡ true → state_eq s paid ≡ false
editable_unpaid s h = ground arith

pub decided_unpaid :
    (d : DecisionDto) (x : Option ExpenseApproval) → state_eq (next_state d x) paid ≡ false
decided_unpaid d x = ground arith

any-append :
    (p : ExpensePayment → Bool) (xs ys : List ExpensePayment)
    → any p xs ≡ true
    → any p (xs ++ ys) ≡ true
any-append p [] ys h = cc
any-append p (x ∷ xs) ys h = elim (Bool-cases (p x)) [
  | inl e ↦ ground arith
  | inr e ↦ ground (arith, any-append p xs ys (ground arith))
]

pub any-last :
    (p : ExpensePayment → Bool) (xs : List ExpensePayment) (x : ExpensePayment)
    → p x ≡ true
    → any p (xs ++ x ∷ []) ≡ true
any-last p [] x h = ground arith
any-last p (y ∷ xs) x h = ground (arith, any-last p xs x h)

or_right : (b c : Bool) → c ≡ true → (b || c) ≡ true
or_right b c h = ground arith

-- A payment that is added leaves proper what was.
pub append-IsProper :
    (ps qs : List ExpensePayment) (r : ExpenseRequest) → IsProper ps r → IsProper (ps ++ qs) r
append-IsProper ps qs r h = elim (Bool-cases (state_eq r.state paid)) [
  | inl e ↦ or_right _ _ (any-append (pays r) ps qs (holds e))
  | inr e ↦ unpaid-IsProper (ps ++ qs) r e
]
  where
    holds : state_eq r.state paid ≡ true → any (pays r) ps ≡ true
    holds e = rw e at h
