-- ===== src/Driver.antt =====
-- The simulation driver, sk-driver/src.
pub mod Main
pub mod Mutation
pub mod Process
pub mod Runner
