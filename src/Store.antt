-- ===== src/Store.antt =====
-- sk-store: the trace of a cluster.
pub mod Config
pub mod Event
pub mod PodOwnersMap
pub mod TraceStore
pub mod Watchers
pub mod Export
pub mod Iterator
