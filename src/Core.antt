-- ===== src/Core.antt =====
-- sk-core: the object model, lifecycle data of pods, and the helpers around the Kubernetes API.
pub mod Json
pub mod Kube
pub mod Constants
pub mod ContainerState
pub mod Lifecycle
pub mod Hash
pub mod PodExt
pub mod Gvk
pub mod Util
pub mod ApiSet
pub mod Owners
pub mod PatchExt
pub mod Patch
pub mod Lease
pub mod Hooks
pub mod Simulation
pub mod Storage
