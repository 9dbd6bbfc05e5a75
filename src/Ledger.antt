-- ===== src/Ledger.antt =====
-- lib/usage-ledger.js: the usage events of the proxies, in one file for each day.
pub mod Event
pub mod Shards
pub mod Query
pub mod Rollup
pub mod Totals
pub mod Once
pub mod Appends
pub mod Retention
pub mod Order
