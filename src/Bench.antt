-- ===== src/Bench.antt =====
-- bench/: the load and reliability harness.
pub mod Load
pub mod Percentile
pub mod Report
pub mod Read
pub mod Traffic
pub mod Merge
pub mod Batch
