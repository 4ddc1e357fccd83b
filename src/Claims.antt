-- ===== src/Claims.antt =====
-- src/workflow_engine/claims.py, a child for each group of operations.
pub mod Claimed
pub mod Submit
pub mod Claim
pub mod Heartbeat
pub mod Complete
pub mod Cancel
pub mod Load
pub mod Gauges
pub mod Jsonable
pub mod Returned
