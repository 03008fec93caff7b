-- ===== src/Lib.antt =====
-- Verification of the finance core, the login and the tables as text of the church-management API
-- (apps/api).
--
-- A request of the API runs one operation of a service in one database transaction. FinancePolicy.write
-- tests the caller's church and permission, where asked also that the login is recent, takes a lock
-- that only one operation of a church holds, runs the operation, and on a denial leaves an audit event.
-- So an operation is modelled as a function from the database to a result and a new database, and a
-- sequence of calls is a sequence of such steps.
--
-- - Store: the database, one list of rows for each table of apps/api/prisma/schema.prisma.
-- - Tx: a transaction body, Db → Result (A × Db); what is written before a throw is lost.
-- - Runtime: the clock, the ids that the database generates, and the dates of the JavaScript runtime,
--   whose code is not in the repository; all are parameters.
-- - Identity: Actor, AccessService.require and AuditService.record; Identity/Guard is access.guard.ts.
-- - Identity/Password: password.ts over the primitives of node:crypto (Platform). Identity/Login is
--   login.service.ts, Identity/Session session.adapter.ts and Identity/Account auth.controller.ts; these
--   handlers are no transactions, so what they have written stays when they throw. Identity/Admin is
--   admin.controller.ts.
-- - Finance/Routes: the routes of the three controllers that write, with the permission of each.
-- - System: the routes together, as steps of the whole service. System/Invariant has the tables that the
--   invariants speak of, System/Frames which tables an operation writes, System/Trail the tables that
--   only grow.
-- - Finance/Policy: finance-policy.service.ts and domain/policy.ts; Policy/Line is about lines of approvers,
--   Policy/Refusals about calls that are refused.
-- - Finance/Ledger: postings and corrections of ledger.service.ts; Ledger/Calendar: its accounts, funds and
--   periods. Ledger/Balance is about journals, Ledger/Periods about periods.
-- - Finance/Budget/Control: budget-control.service.ts.
-- - Finance/Budget/Amounts: domain/budget-amounts.ts.
-- - Finance/Budget/Approval: `save` of budget.service.ts and `decide` of budget-approval.service.ts.
-- - Finance/Expense: expense.service.ts, as Request (shared checks), Listing (candidates), Drafts (create,
--   update, cancel, removeAttachment), Review (submit, decide) and Payment (pay); Custody is about what
--   is paid.
-- - Finance/Offering: offering.service.ts, as Donors (createType, createDonor, updateDonor), Entry (create,
--   update, review, cancel) and Posting (post, reverse); Custody is about the life of an offering, Bookings
--   about the journals that offerings point at.
-- - Finance/Receipt: receipt.service.ts (saveIssuer, eligible), Issue (issue) and Cancel (print, cancel);
--   Issued and Claims are about what receipts say and claim.
-- - Registry/Csv: registry/domain/csv.ts, parseCsv, and Registry/Csv/Writer csvCell and the text that
--   transfer.service.ts exports; Reads and RoundTrip are about the loop, Checks about its
--   tests, and Formulas about what the writer puts an apostrophe in front of.
-- - Examples: runs on a small church.
--
-- The services are under apps/api/src/modules/finance/application. An operation `f` of a service is the
-- definition `f`, with `f_tx` for the body that runs in its transaction.
--
-- Conventions. Ids are UUIDs that are only compared, so they are numbers. Dates are numbers that grow
-- with the day. Amounts are whole won: the request's validation admits only integers in range. Error
-- messages are left out, the kind of the exception is kept. A database query reads a table as a list
-- search in storage order. Loops run over lists, so no fuel is needed.
--
-- Not modelled: the constraints and triggers of the SQL migrations, which can only turn a success into
-- a failure that is rolled back; the other listings and the reports, which only read; files of evidence;
-- the Home tax export, which claims offerings as receipts do; the HTTP
-- layer and the validation of its DTOs, which third-party decorators do; the rest of the registry, operations,
-- scopes by organization and the web client.
pub mod Base
pub mod Store
pub mod Tx
pub mod Runtime
pub mod Identity
pub mod Finance
pub mod System
pub mod Registry
pub mod Examples
