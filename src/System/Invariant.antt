-- ===== src/System/Invariant.antt =====
-- finance/application as a whole: what holds of the tables in every state that the services reach.
use church_management.Base.{◌≡◌, sym, ap, subst, List, []}
use church_management.Store.{Db}
use church_management.Store.Books.{FinancePeriod, JournalEntry}
use church_management.Store.Budgeting.{BudgetRevision, BudgetChange}
use church_management.Store.Spending.{ExpenseRequest, ExpensePayment}
use church_management.Store.Giving.{Offering, ReceiptClaim, DonationReceipt}
use church_management.Base.{Pairwise}
use church_management.Finance.Ledger.Balance.{IsSound}
use church_management.Finance.Ledger.Periods.{Disjoint}
use church_management.Finance.Budget.Approval.Versions.{Rising, OnePending}
use church_management.Finance.Expense.Custody.{IsAccounted}
use church_management.Finance.Offering.Custody.{IsOrderly}
use church_management.Finance.Receipt.Claims.{ClaimedOnce, Numbered}

-- The tables that the invariants speak of.
pub record Core : Type 0 where
  pub journals : List JournalEntry
  pub periods : List FinancePeriod
  pub budget_revisions : List BudgetRevision
  pub budget_changes : List BudgetChange
  pub expenses : List ExpenseRequest
  pub payments : List ExpensePayment
  pub offerings : List Offering
  pub claims : List ReceiptClaim
  pub receipts : List DonationReceipt

abbrev pub core : Db → Core
core db = record {
  journals = db.journals;
  periods = db.periods;
  budget_revisions = db.budget_revisions;
  budget_changes = db.budget_changes;
  expenses = db.expenses;
  payments = db.payments;
  offerings = db.offerings;
  claims = db.claims;
  receipts = db.receipts;
}

-- The invariant of the finance services: the books are sound, the periods of a church are disjoint,
-- the revisions of a budget line rise and it has one undecided change at most, each paid request has
-- its payment, the offerings are orderly, no offering is claimed twice, and serials rise.
abbrev pub AllSound : Core → Type 0
AllSound x =
    IsSound x.journals
    × Disjoint x.periods
    × Pairwise Rising x.budget_revisions
    × Pairwise OnePending x.budget_changes
    × IsAccounted x.expenses x.payments
    × IsOrderly x.offerings
    × ClaimedOnce x.claims
    × Pairwise Numbered x.receipts

-- What is left of the tables without those that an operation writes.
abbrev pub but_journals : Db → Core
but_journals db = record (core db) { journals = [] }

abbrev pub but_periods : Db → Core
but_periods db = record (core db) { periods = [] }

abbrev pub but_changes : Db → Core
but_changes db = record (core db) { budget_changes = [] }

abbrev pub but_budgets : Db → Core
but_budgets db = record (core db) { budget_revisions = []; budget_changes = [] }

abbrev pub but_requests : Db → Core
but_requests db = record (core db) { expenses = [] }

abbrev pub but_payments : Db → Core
but_payments db = record (core db) { journals = []; expenses = []; payments = [] }

abbrev pub but_offerings : Db → Core
but_offerings db = record (core db) { offerings = [] }

abbrev pub but_postings : Db → Core
but_postings db = record (core db) { journals = []; offerings = [] }

abbrev pub but_claims : Db → Core
but_claims db = record (core db) { claims = [] }

abbrev pub but_receipts : Db → Core
but_receipts db = record (core db) { claims = []; receipts = [] }

-- An operation that writes some tables keeps the invariant, if it keeps what holds of these.
pub AllSound-none : (db db' : Db) → core db' ≡ core db → AllSound (core db) → AllSound (core db')
AllSound-none db db' e h = subst AllSound (sym e) h

pub AllSound-journals :
    (db db' : Db)
    → but_journals db' ≡ but_journals db
    → IsSound db'.journals
    → AllSound (core db)
    → AllSound (core db')
AllSound-journals db db' e new_b (_, p, r, c, q, g, k, s) =
    subst (λ x. AllSound (record x { journals = db'.journals })) (sym e)
      (new_b, p, r, c, q, g, k, s)

pub AllSound-periods :
    (db db' : Db)
    → but_periods db' ≡ but_periods db
    → Disjoint db'.periods
    → AllSound (core db)
    → AllSound (core db')
AllSound-periods db db' e new_p (b, _, r, c, q, g, k, s) =
    subst (λ x. AllSound (record x { periods = db'.periods })) (sym e) (b, new_p, r, c, q, g, k, s)

pub AllSound-changes :
    (db db' : Db)
    → but_changes db' ≡ but_changes db
    → Pairwise OnePending db'.budget_changes
    → AllSound (core db)
    → AllSound (core db')
AllSound-changes db db' e new_c (b, p, r, _, q, g, k, s) =
    subst (λ x. AllSound (record x { budget_changes = db'.budget_changes })) (sym e)
      (b, p, r, new_c, q, g, k, s)

pub AllSound-budgets :
    (db db' : Db)
    → but_budgets db' ≡ but_budgets db
    → Pairwise Rising db'.budget_revisions
    → Pairwise OnePending db'.budget_changes
    → AllSound (core db)
    → AllSound (core db')
AllSound-budgets db db' e new_r new_c (b, p, _, _, q, g, k, s) =
    subst
      (λ x.
        AllSound (record x {
          budget_revisions = db'.budget_revisions;
          budget_changes = db'.budget_changes;
        }))
      (sym e) (b, p, new_r, new_c, q, g, k, s)

pub AllSound-requests :
    (db db' : Db)
    → but_requests db' ≡ but_requests db
    → IsAccounted db'.expenses db'.payments
    → AllSound (core db)
    → AllSound (core db')
AllSound-requests db db' e new_q (b, p, r, c, _, g, k, s) =
    subst (λ x. AllSound (record x { expenses = db'.expenses })) (sym e)
      (b, p, r, c, subst (IsAccounted db'.expenses) (ap (λ x. x.payments) e) new_q, g, k, s)

pub AllSound-payments :
    (db db' : Db)
    → but_payments db' ≡ but_payments db
    → IsSound db'.journals
    → IsAccounted db'.expenses db'.payments
    → AllSound (core db)
    → AllSound (core db')
AllSound-payments db db' e new_b new_q (_, p, r, c, _, g, k, s) =
    subst
      (λ x.
        AllSound
          (record x { journals = db'.journals; expenses = db'.expenses; payments = db'.payments }))
      (sym e) (new_b, p, r, c, new_q, g, k, s)

pub AllSound-offerings :
    (db db' : Db)
    → but_offerings db' ≡ but_offerings db
    → IsOrderly db'.offerings
    → AllSound (core db)
    → AllSound (core db')
AllSound-offerings db db' e new_g (b, p, r, c, q, _, k, s) =
    subst (λ x. AllSound (record x { offerings = db'.offerings })) (sym e)
      (b, p, r, c, q, new_g, k, s)

pub AllSound-postings :
    (db db' : Db)
    → but_postings db' ≡ but_postings db
    → IsSound db'.journals
    → IsOrderly db'.offerings
    → AllSound (core db)
    → AllSound (core db')
AllSound-postings db db' e new_b new_g (_, p, r, c, q, _, k, s) =
    subst (λ x. AllSound (record x { journals = db'.journals; offerings = db'.offerings })) (sym e)
      (new_b, p, r, c, q, new_g, k, s)

pub AllSound-claims :
    (db db' : Db)
    → but_claims db' ≡ but_claims db
    → ClaimedOnce db'.claims
    → AllSound (core db)
    → AllSound (core db')
AllSound-claims db db' e new_k (b, p, r, c, q, g, _, s) =
    subst (λ x. AllSound (record x { claims = db'.claims })) (sym e) (b, p, r, c, q, g, new_k, s)

pub AllSound-receipts :
    (db db' : Db)
    → but_receipts db' ≡ but_receipts db
    → ClaimedOnce db'.claims
    → Pairwise Numbered db'.receipts
    → AllSound (core db)
    → AllSound (core db')
AllSound-receipts db db' e new_k new_s (b, p, r, c, q, g, _, _) =
    subst (λ x. AllSound (record x { claims = db'.claims; receipts = db'.receipts })) (sym e)
      (b, p, r, c, q, g, new_k, new_s)
