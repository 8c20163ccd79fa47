-- ===== src/Store/Watchers.antt =====
-- sk-store/src/watchers: the two watchers that feed the trace store.
pub mod DynObj
pub mod Stream
pub mod PodWatcher
