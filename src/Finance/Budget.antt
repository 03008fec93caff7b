-- ===== src/Finance/Budget.antt =====
-- The budget services of apps/api/src/modules/finance/application.
pub mod Control
pub mod Approval
pub mod Amounts
