-- ===== src/Finance.antt =====
-- The finance module of the API (apps/api/src/modules/finance).
pub mod Policy
pub mod Ledger
pub mod Budget
pub mod Expense
pub mod Offering
pub mod Receipt
pub mod Routes
