-- ===== src/Pipeline.antt =====
-- The aggregator and the tracker together: what ProcessTick of sharded_aggregator.go emits is fed
-- to HandleEvent of tracker.go.
pub mod Frame
pub mod Mirror
pub mod Session
pub mod LateClose
