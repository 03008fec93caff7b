-- ===== src/Finance/Ledger/Laws.antt =====
-- ledger.service.ts: each posting inverted, for the proofs about the ledger and its callers.
use church_management.Base.{
  ℕ, ◌≤◌, ◌≡◌, some, false, ◌||◌, is_some, ltb, find_first, any, arith, sym,
}
use church_management.Runtime.{Runtime}
use church_management.Store.{Db}
use church_management.Store.People.{AuditEvent}
use church_management.Store.Books.{FinancePeriod, JournalEntry, Description}
use church_management.Tx.{ok, Tx, ◌>>=◌}
use church_management.Tx.Laws.{
  bind_ok, throw_if_ok, throw_if_found_ok, find_row_ok, modify_ok, pure_ok, pure_then,
}
use church_management.Identity.{Actor, add_audit}
use church_management.Identity.Laws.{record_audit_ok}
use church_management.Finance.Policy.{covers}
use church_management.Finance.Policy.Laws.{date_ok, open_period_ok, account_ok}
use church_management.Finance.Ledger.{
  OfferingPosting, ExpensePosting, ReverseDto, post_offering, offering_journal, post_expense,
  expense_journal, add_journal, reverse_offering, reversal, journal_of, is_reversed, reverse_tx,
  is_offering_journal,
}
use church_management.Finance.Ledger.Calendar.{
  PeriodDto, period_tx, add_period, new_period, overlaps, close_tx, close_period, period_of,
}

-- The day of a posting lies in a period of the church that is open.
abbrev pub Opened : ℕ → Db → FinancePeriod × ℕ → Type 0
Opened c db (p, d) = find_first (covers c d) db.periods ≡ some p

module _ {B : Type 0} (db : Db) {r : B × Db} (rt : Runtime) (a : Actor) (c : ℕ) where
  pub post_expense_ok :
      (d : ExpensePosting) (f : ℕ → Tx B)
      → (post_expense rt a c d >>= f) db ≡ ok r
      → (opened : FinancePeriod × ℕ) × Opened c db opened
        × (rt.parse_date d.paid_on ≡ some opened.1)
        × (f (rt.new_id 0) (add_journal (expense_journal rt a c d opened) db) ≡ ok r)
  unfolding post_expense
  post_expense_ok d f h =
      let (id, db', e, k) = bind_ok (post_expense rt a c d) f h in
      let (p, day, parsed, found, e₁) = open_period_ok db rt c _ _ e in
      let (_, e₂) = account_ok db _ _ _ _ e₁ in
      let (_, e₃) = account_ok db _ _ _ _ e₂ in
      ((p, day), found, parsed, pure_then f (modify_ok _ _ e₃) k)

  pub post_offering_ok :
      (d : OfferingPosting) (f : ℕ → Tx B)
      → (post_offering rt a c d >>= f) db ≡ ok r
      → (opened : FinancePeriod × ℕ) × Opened c db opened
        × (rt.parse_date d.given_on ≡ some opened.1)
        × (f (rt.new_id 0) (add_journal (offering_journal rt a c d opened) db) ≡ ok r)
  unfolding post_offering
  post_offering_ok d f h =
      let (id, db', e, k) = bind_ok (post_offering rt a c d) f h in
      let (p, day, parsed, found, e₁) = open_period_ok db rt c _ _ e in
      let (_, e₂) = account_ok db _ _ _ _ e₁ in
      let (_, e₃) = account_ok db _ _ _ _ e₂ in
      ((p, day), found, parsed, pure_then f (modify_ok _ _ e₃) k)

  pub reverse_offering_ok :
      (id : ℕ) (d : ReverseDto) (f : ℕ → Tx B)
      → (reverse_offering rt a c id d >>= f) db ≡ ok r
      → (original : JournalEntry) × (opened : FinancePeriod × ℕ) × (journal_of c id db
          ≡ some original)
        × (is_reversed id db ≡ false)
        × Opened c db opened
        × (ltb opened.1 original.posted_on ≡ false)
        × (f
              (rt.new_id 0)
              (add_journal (reversal rt a c Description.offering_correction original id opened) db)
            ≡ ok r)
  unfolding reverse_offering
  reverse_offering_ok id d f h =
      let (_, db', e, k) = bind_ok (reverse_offering rt a c id d) f h in
      let (original, found, e₁) = find_row_ok _ _ _ e in
      let (fresh, e₂) = throw_if_found_ok _ _ _ e₁ in
      let (p, day, _, opened, e₃) = open_period_ok db rt c _ _ e₂ in
      let (later, e₄) = throw_if_ok _ _ _ e₃ in
      (original, (p, day), found, fresh, opened, later, pure_then f (modify_ok _ _ e₄) k)

-- The journals and the periods after each transaction of the service itself.
module _ (db : Db) (rt : Runtime) (a : Actor) (c : ℕ) {x : ℕ} {db' : Db} where
  pub reverse_tx_ok :
      (id : ℕ) (d : ReverseDto)
      → reverse_tx rt a c id d db ≡ ok (x, db')
      → (original : JournalEntry) × (opened : FinancePeriod × ℕ) × (journal_of c id db
          ≡ some original)
        × (any (is_offering_journal c id) db.offerings ≡ false)
        × ((is_some original.reversal_of || is_reversed id db) ≡ false)
        × Opened c db opened
        × (ltb opened.1 original.posted_on ≡ false)
        × (text : Description) × (event : AuditEvent) × (db'
            ≡ add_audit event (add_journal (reversal rt a c text original id opened) db))
  unfolding reverse_tx
  reverse_tx_ok id d h =
      let (original, found, e₁) = find_row_ok _ _ _ h in
      let (not_offering, e₂) = throw_if_found_ok _ _ _ e₁ in
      let (fresh, e₃) = throw_if_found_ok _ _ _ e₂ in
      let (p, day, _, opened, e₄) = open_period_ok db rt c _ _ e₃ in
      let (later, e₅) = throw_if_ok _ _ _ e₄ in
      let (_, same) = pure_ok (record_audit_ok _ _ _ _ _ _ _ (modify_ok _ _ e₅)) in
      (original, (p, day), found, not_offering, fresh, opened, later, _, _, sym same)

  pub period_tx_ok :
      (d : PeriodDto)
      → period_tx rt a c d db ≡ ok (x, db')
      → (first : ℕ) × (last : ℕ) × (first ≤ last)
        × (any (overlaps c first last) db.periods ≡ false)
        × (event : AuditEvent) × (db'
            ≡ add_audit event (add_period (new_period rt c d first last) db))
  unfolding period_tx
  period_tx_ok d h =
      let (first, _, _, e₁) = date_ok db rt _ _ h in
      let (last, _, _, e₂) = date_ok db rt _ _ e₁ in
      let (order, e₃) = throw_if_ok _ _ _ e₂ in
      let (apart, e₄) = throw_if_found_ok _ _ _ e₃ in
      let (_, same) = pure_ok (record_audit_ok _ _ _ _ _ _ _ (modify_ok _ _ e₄)) in
      (first, last, ground arith, apart, _, sym same)

-- Closing a period that was open.
pub close_tx_ok :
    (db : Db) (rt : Runtime) (a : Actor) (c id : ℕ) {x : Unit {0}} {db' : Db}
    → close_tx rt a c id db ≡ ok (x, db')
    → (row : FinancePeriod) × (period_of c id db ≡ some row)
      × (is_some row.closed_at ≡ false)
      × (event : AuditEvent) × (db' ≡ add_audit event (close_period id rt.now db))
unfolding close_tx
close_tx_ok db rt a c id h =
    let (row, found, e₁) = find_row_ok _ _ _ h in
    let (still_open, e₂) = throw_if_ok _ _ _ e₁ in
    let (_, same) = pure_ok (record_audit_ok _ _ _ _ _ _ _ (modify_ok _ _ e₂)) in
    (row, found, still_open, _, sym same)
