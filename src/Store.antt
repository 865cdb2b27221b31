-- ===== src/Store.antt =====
-- apps/license-api/internal/store: the tables, the transactions and the SQL statements. A table is
-- the list of its rows; a statement is translated from its text, with the constraints that the
-- migrations under db/migrations put on the columns that it writes. A statement that cannot reach
-- PostgreSQL ends the request, and is not modelled.
pub mod Table
pub mod Accounts
pub mod Rows
pub mod Tx
pub mod Keeps
pub mod Cards
pub mod Licenses
pub mod Devices
pub mod Catalog
pub mod Agents
pub mod Batches
pub mod Users
pub mod Admins
pub mod Plans
