-- ===== src/Views.antt =====
-- What the reading operations show of the tables.
pub mod Load
pub mod Gauges
pub mod Json
