-- ===== src/Db.antt =====
-- The database layer, indexer/src/db.js: how its queries order and cut the rows of a table. A table
-- is the list of its rows, and a query is what its SQL text says of them.
pub mod Order
pub mod Pages
pub mod Search
pub mod Transaction
pub mod Audit
pub mod Volume
pub mod Ledger
pub mod Migrations
pub mod Events
pub mod Leaderboard
pub mod Store
pub mod Queue
