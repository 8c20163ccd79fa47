-- ===== src/Ctrl.antt =====
-- The simulation controller, sk-ctrl/src.
pub mod Context
pub mod Cluster
pub mod Controller
pub mod CertManager
pub mod Objects
