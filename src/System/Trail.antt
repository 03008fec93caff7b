-- ===== src/System/Trail.antt =====
-- finance/application: the journals, the payments, the receipts and the revisions of the budget are only ever
-- added to; no operation changes or removes a row of these tables.
mod Tables
pub mod Operations
use mathlib.Core.List.{append-nil, append_assoc}
use church_management.Base.{◌≡◌, sym, ap, ◌∙◌, List, [], ◌∷◌, ◌++◌}
use church_management.Store.{Db}
use church_management.Store.Books.{JournalEntry}
use church_management.Store.Budgeting.{BudgetRevision}
use church_management.Store.Spending.{ExpensePayment}
use church_management.Store.Giving.{DonationReceipt}
use church_management.System.Invariant.{
  Core, core, but_journals, but_budgets, but_payments, but_postings, but_receipts,
}

-- The second table is the first with rows added at its end.
pub record Extends {ℓ} {A : Type ℓ} (xs ys : List A) : Type ℓ where
  pub new : List A
  pub stands : ys ≡ xs ++ new

module _ {ℓ} {A : Type ℓ} where
  pub Extends-same : {xs ys : List A} → ys ≡ xs → Extends xs ys
  Extends-same {xs} e = record { new = []; stands = e ∙ sym (append-nil xs) }

  pub Extends-one : {xs ys : List A} (x : A) → ys ≡ xs ++ x ∷ [] → Extends xs ys
  Extends-one x e = record { new = x ∷ []; stands = e }

  pub Extends-trans : {xs ys zs : List A} → Extends xs ys → Extends ys zs → Extends xs zs
  Extends-trans {xs} h k = record {
    new = h.new ++ k.new;
    stands = k.stands ∙ ap (λ l. l ++ k.new) h.stands ∙ append_assoc xs h.new k.new;
  }

-- The tables that record what was done, from one state to a later one.
pub record Grown (db db' : Db) : Type 0 where
  pub journals : Extends db.journals db'.journals
  pub payments : Extends db.payments db'.payments
  pub receipts : Extends db.receipts db'.receipts
  pub budget_revisions : Extends db.budget_revisions db'.budget_revisions

abbrev pub trail :
    Core → List JournalEntry × List ExpensePayment × List DonationReceipt × List BudgetRevision
trail x = (x.journals, x.payments, x.receipts, x.budget_revisions)

module _ (db db' : Db) where
  pub Grown-same : trail (core db') ≡ trail (core db) → Grown db db'
  Grown-same e = record {
    journals = Extends-same (ap (λ t. t.0) e);
    payments = Extends-same (ap (λ t. t.1) e);
    receipts = Extends-same (ap (λ t. t.2) e);
    budget_revisions = Extends-same (ap (λ t. t.3) e);
  }

  pub Grown-postings :
      but_postings db' ≡ but_postings db → Extends db.journals db'.journals → Grown db db'
  Grown-postings e j = record {
    journals = j;
    payments = Extends-same (ap (λ x. x.payments) e);
    receipts = Extends-same (ap (λ x. x.receipts) e);
    budget_revisions = Extends-same (ap (λ x. x.budget_revisions) e);
  }

  pub Grown-journals :
      but_journals db' ≡ but_journals db → Extends db.journals db'.journals → Grown db db'
  Grown-journals e j = Grown-postings (ap {A = Core} (λ x. record x { offerings = [] }) e) j

  pub Grown-payments :
      but_payments db' ≡ but_payments db
      → Extends db.journals db'.journals × Extends db.payments db'.payments
      → Grown db db'
  Grown-payments e (j, p) = record {
    journals = j;
    payments = p;
    receipts = Extends-same (ap (λ x. x.receipts) e);
    budget_revisions = Extends-same (ap (λ x. x.budget_revisions) e);
  }

  pub Grown-receipts :
      but_receipts db' ≡ but_receipts db → Extends db.receipts db'.receipts → Grown db db'
  Grown-receipts e r = record {
    journals = Extends-same (ap (λ x. x.journals) e);
    payments = Extends-same (ap (λ x. x.payments) e);
    receipts = r;
    budget_revisions = Extends-same (ap (λ x. x.budget_revisions) e);
  }

  pub Grown-budgets :
      but_budgets db' ≡ but_budgets db
      → Extends db.budget_revisions db'.budget_revisions
      → Grown db db'
  Grown-budgets e b = record {
    journals = Extends-same (ap (λ x. x.journals) e);
    payments = Extends-same (ap (λ x. x.payments) e);
    receipts = Extends-same (ap (λ x. x.receipts) e);
    budget_revisions = b;
  }
