-- ===== src/Finance/Ledger.antt =====
-- finance/application/ledger.service.ts: accounts, funds, accounting periods and journal entries.
pub mod Calendar
pub mod Laws
pub mod Balance
pub mod Periods
use church_management.Base.{
  ℕ, String, List, [], ◌∷◌, ◌++◌, map, Bool, true, false, not, ◌&&◌, ◌||◌, Option, none, some, ltb,
  leb, ◌==◌, is_some, is_id, find_first, any, update_where,
}
use church_management.Runtime.{Runtime}
use church_management.Store.{Db}
use church_management.Store.People.{ResourceId}
use church_management.Store.Books.{
  AccountKind, FinanceAccount, FinanceFund, FinancePeriod, JournalLine, Description, JournalEntry,
}
use church_management.Store.Giving.{Offering}
use church_management.Tx.{
  Error, Result, Tx, pure, throw_if, find_row, throw_if_found, modify, ◌>>=◌, ◌>>◌,
}
use church_management.Identity.{Actor, record_audit}
use church_management.Finance.Policy.{write, date, open_period, account}

pub record ReverseDto : Type 0 where
  pub posted_on : String
  pub reason : String

-- The argument of `postOffering`.
pub record OfferingPosting : Type 0 where
  pub given_on : String
  pub amount : ℕ
  pub asset_account_id : ℕ
  pub revenue_account_id : ℕ
  pub fund_id : ℕ
  pub offering_id : ℕ

-- The argument of `postExpense`.
pub record ExpensePosting : Type 0 where
  pub paid_on : String
  pub amount : ℕ
  pub expense_account : ℕ
  pub asset_account : ℕ
  pub fund_id : ℕ
  pub request_id : ℕ

abbrev pub debit_line : ℕ → ℕ → ℕ → JournalLine
debit_line acc fund n = record { account_id = acc; fund_id = fund; debit = n; credit = 0 }

abbrev pub credit_line : ℕ → ℕ → ℕ → JournalLine
credit_line acc fund n = record { account_id = acc; fund_id = fund; debit = 0; credit = n }

-- `original.lines.map(...)` with debit and credit exchanged.
abbrev pub swap_line : JournalLine → JournalLine
swap_line l = record {
  account_id = l.account_id;
  fund_id = l.fund_id;
  debit = l.credit;
  credit = l.debit;
}

abbrev pub add_journal : JournalEntry → Db → Db
add_journal j db = record db { journals = db.journals ++ j ∷ [] }

abbrev pub offering_journal :
    Runtime → Actor → ℕ → OfferingPosting → FinancePeriod × ℕ → JournalEntry
offering_journal rt a c d (period, day) = record {
  id = rt.new_id 0;
  church_id = c;
  period_id = period.id;
  posted_on = day;
  posted_by = a.user_id;
  description = Description.offering_receipt d.offering_id;
  reversal_of = none;
  lines =
      debit_line d.asset_account_id d.fund_id d.amount
      ∷ credit_line d.revenue_account_id d.fund_id d.amount
      ∷ [];
}

unfoldable pub post_offering : Runtime → Actor → ℕ → OfferingPosting → Tx ℕ
post_offering rt a c d = do
  opened ← open_period rt c d.given_on
  account c d.asset_account_id AccountKind.asset
  account c d.revenue_account_id AccountKind.revenue
  modify (add_journal (offering_journal rt a c d opened))
  pure (rt.new_id 0)

abbrev pub expense_journal : Runtime → Actor → ℕ → ExpensePosting → FinancePeriod × ℕ → JournalEntry
expense_journal rt a c d (period, day) = record {
  id = rt.new_id 0;
  church_id = c;
  period_id = period.id;
  posted_on = day;
  posted_by = a.user_id;
  description = Description.expense_payment d.request_id;
  reversal_of = none;
  lines =
      debit_line d.expense_account d.fund_id d.amount
      ∷ credit_line d.asset_account d.fund_id d.amount
      ∷ [];
}

unfoldable pub post_expense : Runtime → Actor → ℕ → ExpensePosting → Tx ℕ
post_expense rt a c d = do
  opened ← open_period rt c d.paid_on
  account c d.asset_account AccountKind.asset
  account c d.expense_account AccountKind.expense
  modify (add_journal (expense_journal rt a c d opened))
  pure (rt.new_id 0)

abbrev pub journal_of : ℕ → ℕ → Db → Option JournalEntry
journal_of c id db = find_first (λ j. j.church_id == c && j.id == id) db.journals

-- `journalEntry.count({ where: { reversalOf: id } })`
abbrev pub is_reversed : ℕ → Db → Bool
is_reversed id db = any (λ j. is_id j.reversal_of id) db.journals

abbrev pub reversal :
    Runtime → Actor → ℕ → Description → JournalEntry → ℕ → FinancePeriod × ℕ → JournalEntry
reversal rt a c text original id (period, day) = record {
  id = rt.new_id 0;
  church_id = c;
  period_id = period.id;
  posted_on = day;
  posted_by = a.user_id;
  description = text;
  reversal_of = some id;
  lines = map swap_line original.lines;
}

unfoldable pub reverse_offering : Runtime → Actor → ℕ → ℕ → ReverseDto → Tx ℕ
reverse_offering rt a c journal_id d = do
  original ← find_row (journal_of c journal_id) Error.missing
  throw_if_found (is_reversed journal_id) Error.bad
  opened ← open_period rt c d.posted_on
  throw_if (ltb opened.1 original.posted_on) Error.bad
  modify (add_journal (reversal rt a c Description.offering_correction original journal_id opened))
  pure (rt.new_id 0)

abbrev pub is_offering_journal : ℕ → ℕ → Offering → Bool
is_offering_journal c id o = o.church_id == c && is_id o.journal_id id

unfoldable pub reverse_tx : Runtime → Actor → ℕ → ℕ → ReverseDto → Tx ℕ
reverse_tx rt a c id d = do
  original ← find_row (journal_of c id) Error.missing
  throw_if_found (λ db. any (is_offering_journal c id) db.offerings) Error.bad
  throw_if_found (λ db. is_some original.reversal_of || is_reversed id db) Error.bad
  opened ← open_period rt c d.posted_on
  throw_if (ltb opened.1 original.posted_on) Error.bad
  modify (add_journal (reversal rt a c (Description.given_reason d.reason) original id opened))
  record_audit a "finance.journal.reverse" "journal" (ResourceId.row (rt.new_id 0))
      ("reversalOf" ∷ [])
  pure (rt.new_id 0)

-- LedgerService.reverse
unfoldable pub reverse : Runtime → Actor → ℕ → ℕ → ReverseDto → Db → Result ℕ × Db
unfolding reverse_tx
reverse rt a c id d = write rt a c "finance.reverse" (reverse_tx rt a c id d) true
