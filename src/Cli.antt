-- ===== src/Cli.antt =====
-- The command line tool, sk-cli/src.
pub mod Export
pub mod Run
pub mod Validation
pub mod Xray
