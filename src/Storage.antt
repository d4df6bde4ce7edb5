-- ===== src/Storage.antt =====
-- internal/storage: the SQLite database. A table is the list of its rows in the order of their
-- insertion; a query is a function on these lists. What the database does beyond the statements of
-- the source (its faults, and the constraints that a statement may break) is an argument of each
-- operation: a test that says of each call site whether the call fails.
pub mod Tables
pub mod Transaction
pub mod Migrations
mod Tests
