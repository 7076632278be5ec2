-- ===== src/MarketData.antt =====
-- backend/marketdata/: metrics of order books, model inputs, the snapshot cache and the monitors.
pub mod Microstructure
pub mod Features
pub mod SampleLogger
pub mod Runner
pub mod OrderbookCache
pub mod TriangleRunner
pub mod Feed
pub mod Fleet
