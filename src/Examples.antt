-- ===== src/Examples.antt =====
-- Small inputs on which the operations are run.
pub mod Church
pub mod Books
pub mod Spending
pub mod Budgets
pub mod Offerings
pub mod Receipts
pub mod Access
pub mod Calls
pub mod Tables
pub mod Login
pub mod Roles
