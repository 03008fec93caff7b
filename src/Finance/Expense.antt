-- ===== src/Finance/Expense.antt =====
-- finance/application/expense.service.ts: expense requests, from the draft to the payment.
pub mod Request
pub mod Listing
pub mod Drafts
pub mod Review
pub mod Payment
pub mod Custody
