-- ===== src/Tests.antt =====
-- Tests.
mod Core
mod Store
mod Driver
mod Ctrl
mod Cli
mod Export
