-- ===== src/Store/Books.antt =====
-- Rows of apps/api/prisma/schema.prisma about the ledger: accounts, funds, periods and journals.
-- Amounts are whole won. A date is a number that grows with the day.
use church_management.Base.{ℕ, String, List, Option, Bool, true, false}

pub data AccountKind : Type 0 where
  asset liability net_assets revenue expense : AccountKind

abbrev pub kind_eq : AccountKind → AccountKind → Bool
kind_eq asset asset = true
kind_eq liability liability = true
kind_eq net_assets net_assets = true
kind_eq revenue revenue = true
kind_eq expense expense = true
kind_eq _ _ = false

pub record FinanceAccount : Type 0 where
  pub id : ℕ
  pub church_id : ℕ
  pub code : String
  pub name : String
  pub kind : AccountKind

pub record FinanceFund : Type 0 where
  pub id : ℕ
  pub church_id : ℕ
  pub name : String

pub record FinancePeriod : Type 0 where
  pub id : ℕ
  pub church_id : ℕ
  pub name : String
  pub starts_on : ℕ
  pub ends_on : ℕ
  pub closed_at : Option ℕ

pub record JournalLine : Type 0 where
  pub account_id : ℕ
  pub fund_id : ℕ
  pub debit : ℕ
  pub credit : ℕ

-- The texts that the code writes as a journal's description; two end with the id of a row.
pub data Description : Type 0 where
  expense_payment : ℕ → Description
  offering_receipt : ℕ → Description
  offering_correction : Description
  given_reason : String → Description

pub record JournalEntry : Type 0 where
  pub id : ℕ
  pub church_id : ℕ
  pub period_id : ℕ
  pub posted_on : ℕ
  pub posted_by : ℕ
  pub description : Description
  pub reversal_of : Option ℕ
  pub lines : List JournalLine
