-- ===== src/Cli/Xray.antt =====
-- sk-cli/src/xray: the viewer of traces.
pub mod Duration
pub mod App
pub mod View
pub mod Loop
