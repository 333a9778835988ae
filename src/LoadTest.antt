-- ===== src/LoadTest.antt =====
-- examples/reference_service/loadtest/load.py: the measurements of the load test, and the ledger
-- that reconciles acknowledged writes with the frames of the event streams.
pub mod Collections
pub mod Distribution
pub mod Frames
pub mod Ledger
pub mod Examples
