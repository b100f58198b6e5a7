-- ===== src/Lifecycle.antt =====
-- internal/app/lifecycleapp/service.go: deploying an execution's engines, triggering a run on them,
-- ending it, and the passes that close stranded runs and reap idle engines.
pub mod Ports
pub mod Actions
pub mod Laws
pub mod Check
pub mod Trigger
pub mod Teardown
pub mod Sweeps
pub mod Chains
pub mod Marker
pub mod Deploy
pub mod Store
pub mod Views
